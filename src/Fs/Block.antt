-- ===== src/Fs/Block.antt =====
-- Disk blocks and their allocation: `readsb`, `bzero`, `balloc` and `bfree` of fs.c.
pub mod Bitmap
pub mod Alloc
pub mod Free
use cs537_intro_to_os.Prelude.{
  ℕ, zero, suc, ◌+◌, ◌-◌, ◌*◌, ◌/◌, ◌%◌, ◌^◌, Bool, not, ◌==◌, ltb, if◌then◌else◌, update, Option,
  none, some, find_from, clear_at, bit_and, bit_or,
}

abbrev pub bsize : ℕ
bsize = 512

-- `BPB`, the blocks that one block of the bitmap covers
abbrev pub bpb : ℕ
bpb = 4096

-- the bytes of a block, and the blocks of a device
abbrev pub Block : Type 0
Block = ℕ → ℕ

abbrev pub Disk : Type 0
Disk = ℕ → Block

-- a little-endian `uint` of a block
abbrev pub get_uint : Block → ℕ → ℕ
get_uint b o = b o + b (o + 1) * 2 ^ 8 + b (o + 2) * 2 ^ 16 + b (o + 3) * 2 ^ 24

pub record Superblock : Type 0 where
  pub size : ℕ
  pub nblocks : ℕ
  pub ninodes : ℕ

unfoldable pub readsb : Disk → Superblock
readsb d = record {
  size = get_uint (d 1) 0;
  nblocks = get_uint (d 1) 4;
  ninodes = get_uint (d 1) 8;
}

-- `BBLOCK(b, ninodes)`; 8 inodes fill a block.
abbrev pub bblock : (b ninodes : ℕ) → ℕ
bblock b ninodes = b / bpb + ninodes / 8 + 3

unfoldable pub bzero : Disk → ℕ → Disk
bzero d bno = update d bno (λ o. 0)

-- `(bp->data[bi/8] & m) == 0`
abbrev pub is_free : Block → ℕ → Bool
is_free map bi = clear_at (map (bi / 8)) (bi % 8)

-- `bp->data[bi/8] |= m`
abbrev pub mark : Block → ℕ → Block
mark map bi = update map (bi / 8) (bit_or (map (bi / 8)) (2 ^ (bi % 8)))

-- `bp->data[bi/8] &= ~m`
abbrev pub unmark : Block → ℕ → Block
unmark map bi = update map (bi / 8) (bit_and (map (bi / 8)) (255 - 2 ^ (bi % 8)))

-- The loop of `balloc` from block `b` on, for `k` blocks of the bitmap at most; `none` is the panic
-- "out of blocks". `size / bpb + 1` rounds are enough, since each covers `bpb` blocks.
unfoldable pub balloc_loop : (k b : ℕ) → Superblock → Disk → Option (ℕ × Disk)
balloc_loop zero b sb d = none
balloc_loop (suc k) b sb d =
    let at = bblock b sb.ninodes in
    let next = balloc_loop k (b + bpb) sb d in
    let here : Option (ℕ × Disk) = elim (find_from bpb 0 (is_free (d at))) [
      | none ↦ next
      | some bi ↦ some (b + bi, update d at (mark (d at) bi))
    ] in
    if ltb b sb.size then here else none

unfoldable pub balloc : Disk → Option (ℕ × Disk)
unfolding balloc_loop
balloc d = let sb = readsb d in balloc_loop (sb.size / bpb + 1) 0 sb d

-- `none` is the panic "freeing free block".
unfoldable pub bfree : Disk → ℕ → Option Disk
unfolding bzero readsb
bfree d b =
    let d' = bzero d b in
    let at = bblock b (readsb d').ninodes in
    let bi = b % bpb in if is_free (d' at) bi then none else some (update d' at (unmark (d' at) bi))
