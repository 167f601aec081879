-- ===== src/Fs/Itrunc.antt =====
-- A whole inode of fs.c: reading it from the disk, as `ilock` does, and `itrunc`, which gives its
-- blocks back.
pub mod Load
pub mod Number
pub mod Blocks
pub mod Freed
pub mod Tests
use cs537_intro_to_os.Prelude.{
  ℕ, zero, suc, ◌+◌, ◌*◌, ◌/◌, ◌%◌, ◌^◌, ◌==◌, ltb, if◌then◌else◌, update, Option, none, some,
}
use cs537_intro_to_os.Fs.Block.{Block, Disk, get_uint, bfree}
use cs537_intro_to_os.Fs.Checksum.{get_addr}
use cs537_intro_to_os.Fs.Inode.{Inode, State, ndirect, nindirect, iupdate, ◌>>=◌}

-- a little-endian `short` of a block, as its 16-bit pattern
abbrev pub get_ushort : Block → ℕ → ℕ
get_ushort b o = b o + b (o + 1) * 2 ^ 8

-- `IBLOCK(inum)`, and where the inode starts in that block
abbrev pub iblock : ℕ → ℕ
iblock inum = inum / 8 + 2

abbrev pub inode_start : ℕ → ℕ
inode_start inum = inum % 8 * 64

-- The copies from `dip` in `ilock`.
unfoldable pub load : Inode → Disk → Inode
load ip d =
    let b = d (iblock ip.inum) in
    let o = inode_start ip.inum in
    record ip {
      type = get_ushort b o;
      major = get_ushort b (o + 2);
      minor = get_ushort b (o + 4);
      nlink = get_ushort b (o + 6);
      size = get_uint b (o + 8);
      addrs = λ i. if ltb i (ndirect + 1) then get_uint b (o + 12 + 4 * i) else ip.addrs i;
    }

-- The loop on the direct pointers, for `k` of them from `i` on; `none` is a panic of `bfree`.
unfoldable pub free_direct : (k i : ℕ) → State → Option State
free_direct zero i s = some s
free_direct (suc k) i (ip, d) = if ip.addrs i == 0 then free_direct k (i + 1) (ip, d) else (do
  d1 ← bfree d (get_addr (ip.addrs i))
  free_direct k (i + 1) (record ip { addrs = update ip.addrs i 0 }, d1))

-- The loop on the block of pointers `a`. The pointers are freed as they stand there, with the
-- checksum in their upper byte.
unfoldable pub free_indirect : (k j : ℕ) → (a : Block) → Disk → Option Disk
free_indirect zero j a d = some d
free_indirect (suc k) j a d =
    let ptr = get_uint a (4 * j) in
    if ptr == 0
    then free_indirect k (j + 1) a d
    else (do d1 ← bfree d ptr; free_indirect k (j + 1) a d1)

-- The block of pointers and all that it names.
unfoldable pub free_named : State → Option State
free_named (ip, d) =
    let at = get_addr (ip.addrs ndirect) in
    do
      d1 ← free_indirect nindirect 0 (d at) d
      d2 ← bfree d1 at
      some (record ip { addrs = update ip.addrs ndirect 0 }, d2)

unfoldable pub free_table : State → Option State
free_table (ip, d) = if ip.addrs ndirect == 0 then some (ip, d) else free_named (ip, d)

unfoldable pub itrunc : State → Option State
itrunc s = do
  s1 ← free_direct ndirect 0 s
  (ip, d) ← free_table s1
  let ip' = record ip { size = 0 }
  some (ip', iupdate (ip', d))
