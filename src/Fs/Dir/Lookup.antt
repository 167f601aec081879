-- ===== src/Fs/Dir/Lookup.antt =====
-- `dirlookup` is one search through the entries of the directory.
use cs537_intro_to_os.Prelude.{
  ℕ, zero, suc, ◌+◌, ◌*◌, ◌/◌, ◌%◌, ◌<◌, ◌≤◌, ◌≡◌, refl, Bool, true, false, ◌==◌, ltb, arith,
  Option, none, some, ap, ◌∙◌, sym, inl, inr, Option-cases, find_from, find_from-some, fun_ext,
  update, update_self, update_ne, ℕ_discrete,
}
use cs537_intro_to_os.Fs.Block.{Block, Disk, bsize}
use cs537_intro_to_os.Fs.Checksum.{get_addr}
use cs537_intro_to_os.Fs.Inode.{Inode, ndirect, bmap, alloc_if_zero}
use cs537_intro_to_os.Fs.Inode.Total.{Mapped}
use cs537_intro_to_os.Fs.Itrunc.{get_ushort}
use cs537_intro_to_os.Fs.Icache.{Icache}
use cs537_intro_to_os.Fs.Dir.{
  t_dir, dirent_size, per_block, is_entry, after_block, dir_loop, get_found, dirlookup,
}
use cs537_intro_to_os.Fs.Dir.Scan.{or_later, find_from_split, shifted, find_from_shift}

-- `bmap` of an allocated direct block leaves the inode and the disk as they are.
bmap-same :
    (bn : ℕ) (ip : Inode) (d : Disk)
    → Mapped ip
    → bn < ndirect
    → bmap bn (ip, d) ≡ some (get_addr (ip.addrs bn), (ip, d))
unfolding bmap alloc_if_zero
bmap-same bn ip d m lt =
    let here = m bn lt in
    let some_addr : (ip.addrs bn == 0) ≡ false = ground arith in
    let low : ltb bn ndirect ≡ true = ground arith in
    rw (low, some_addr)
      (ap (λ f. some (get_addr (ip.addrs bn), (record ip { addrs = f }, d)))
        (fun_ext λ x. same ip.addrs x))
  where
    same : (f : ℕ → ℕ) (x : ℕ) → update f bn (f bn) x ≡ f x
    same f x = ground arith

-- The block with entry `k` of a directory, and whether the entry has the name.
abbrev pub block_with : Inode → Disk → ℕ → Block
block_with ip d k = d (get_addr (ip.addrs (k / per_block)))

abbrev pub matches : (name : ℕ → ℕ) → Inode → Disk → ℕ → Bool
matches name ip d k = is_entry name (block_with ip d k) (k % per_block)

-- The offset of entry `k`, and the number in it.
abbrev pub answer : Inode → Disk → Option ℕ → Option (ℕ × ℕ)
answer ip d none = none
answer ip d (some k) =
    some (k * dirent_size, get_ushort (block_with ip d k) (k % per_block * dirent_size))

module _ (name : ℕ → ℕ) (ip : Inode) (d : Disk) where
  abbrev block_at : ℕ → Block
  block_at b = d (get_addr (ip.addrs b))

  scan_parts :
      (m b : ℕ)
      → find_from (per_block * suc m) (per_block * b) (matches name ip d)
        ≡ or_later
            (shifted (per_block * b) (find_from per_block 0 (is_entry name (block_at b))))
            (find_from (per_block * m) (per_block * (b + 1)) (matches name ip d))
  scan_parts m b =
      let M = matches name ip d in
      let more : per_block * suc m ≡ per_block + per_block * m = omega arith in
      let next : per_block * b + per_block ≡ per_block * (b + 1) = omega arith in
      let zero_on : per_block * b + 0 ≡ per_block * b = omega arith in
      let part =
        find_from_shift per_block 0 (per_block * b) M (is_entry name (block_at b))
          λ x lt. same_entry x lt in
      rw (more, find_from_split per_block (per_block * m) (per_block * b) M, next)
        (ap (λ o. or_later o (find_from (per_block * m) (per_block * (b + 1)) M))
          (ap (λ i. find_from per_block i M) (sym zero_on) ∙ part))
    where
      same_entry :
          (x : ℕ)
          → x < 0 + per_block
          → matches name ip d (per_block * b + x) ≡ is_entry name (block_at b) x
      same_entry x lt =
          let q : (per_block * b + x) / per_block ≡ b = omega arith in
          let r : (per_block * b + x) % per_block ≡ x = omega arith in rw (q, r) refl

  -- What the answer of a block is, for its own entry `k`.
  answer-block :
      (b k : ℕ) (later : Option ℕ)
      → k < per_block
      → answer ip d (or_later (shifted (per_block * b) (some k)) later)
        ≡ some (b * bsize + k * dirent_size, get_ushort (block_at b) (k * dirent_size))
  unfolding or_later shifted
  answer-block b k later lt =
      let q : (per_block * b + k) / per_block ≡ b = omega arith in
      let r : (per_block * b + k) % per_block ≡ k = omega arith in
      let off : (per_block * b + k) * dirent_size ≡ b * bsize + k * dirent_size = omega arith in
      rw (q, r, off) refl

  dir_loop-ends :
      (n off : ℕ)
      → ltb off ip.size ≡ false
      → dir_loop (suc n) off name (ip, d) ≡ some (none, (ip, d))
  unfolding dir_loop
  dir_loop-ends n off ends = rw ends refl

  module _ (n b : ℕ) (mapped : Mapped ip) (low : b < ndirect) where
    dir_loop-miss :
        ltb (b * bsize) ip.size ≡ true
        → find_from per_block 0 (is_entry name (block_at b)) ≡ none
        → dir_loop (suc n) (b * bsize) name (ip, d) ≡ dir_loop n (b * bsize + bsize) name (ip, d)
    unfolding dir_loop
    dir_loop-miss goes miss =
        let at : b * bsize / bsize ≡ b = omega arith in
        let next = dir_loop n (b * bsize + bsize) name (ip, d) in
        rw (goes, at, bmap-same b ip d mapped low)
          (ap (λ o. after_block o (b * bsize) (block_at b) (ip, d) next) miss)

    dir_loop-hit :
        (k : ℕ)
        → ltb (b * bsize) ip.size ≡ true
        → find_from per_block 0 (is_entry name (block_at b)) ≡ some k
        → dir_loop (suc n) (b * bsize) name (ip, d)
          ≡ some (
            some (b * bsize + k * dirent_size, get_ushort (block_at b) (k * dirent_size)),
            (ip, d),
          )
    unfolding dir_loop
    dir_loop-hit k goes hit =
        let at : b * bsize / bsize ≡ b = omega arith in
        let next = dir_loop n (b * bsize + bsize) name (ip, d) in
        rw (goes, at, bmap-same b ip d mapped low)
          (ap (λ o. after_block o (b * bsize) (block_at b) (ip, d) next) hit)

  dir_loop-scan :
      (m b : ℕ)
      → Mapped ip
      → ip.size ≡ (b + m) * bsize
      → b + m ≤ ndirect
      → dir_loop (suc m) (b * bsize) name (ip, d)
        ≡ some
            (answer ip d (find_from (per_block * m) (per_block * b) (matches name ip d)), (ip, d))
  unfolding find_from or_later shifted
  dir_loop-scan zero b mapped size fits = dir_loop-ends zero (b * bsize) (ground arith)
  dir_loop-scan (suc m) b mapped size fits =
      let low : b < ndirect = omega arith in
      let goes : ltb (b * bsize) ip.size ≡ true = ground arith in
      let next : b * bsize + bsize ≡ (b + 1) * bsize = omega arith in
      let rest = find_from (per_block * m) (per_block * (b + 1)) (matches name ip d) in
      elim (Option-cases (find_from per_block 0 (is_entry name (block_at b)))) [
        | inl miss ↦
            let ih = dir_loop-scan m (b + 1) mapped (size ∙ omega arith) (omega arith) in
            dir_loop-miss (suc m) b mapped low goes miss
            ∙ ap (λ off. dir_loop (suc m) off name (ip, d)) next
            ∙ ih
            ∙ ap (λ o. some (answer ip d o, (ip, d)))
                (sym (scan_parts m b ∙ ap (λ o. or_later (shifted (per_block * b) o) rest) miss))
        | inr (k, hit) ↦
            let first = find_from-some per_block 0 (is_entry name (block_at b)) hit in
            dir_loop-hit (suc m) b mapped low k goes hit
            ∙ ap (λ a. some (a, (ip, d))) (sym (answer-block b k rest first.below))
            ∙ ap (λ o. some (answer ip d o, (ip, d)))
                (sym (scan_parts m b ∙ ap (λ o. or_later (shifted (per_block * b) o) rest) hit))
      ]

update-same {ℓ} : {A : Type ℓ} (f : ℕ → A) (i x : ℕ) → update f i (f i) x ≡ f x
update-same f i x = elim (ℕ_discrete x i) [
  | yes e ↦ rw (e, update_self f i (f i)) refl
  | no ne ↦ update_ne f i (f i) x ne
]

unchanged :
    (c : Icache) (dp : ℕ)
    → record c {
      inode = update c.inode dp (c.inode dp);
      disks = update c.disks (c.inode dp).dev (c.disks (c.inode dp).dev);
    }
      ≡ c
unchanged c dp =
    ap
      (λ f. record c {
        inode = f;
        disks = update c.disks (c.inode dp).dev (c.disks (c.inode dp).dev);
      })
      (fun_ext λ x. same_entry x)
    ∙ ap (λ f. record c { disks = f }) (fun_ext λ x. same_disk x)
  where
    same_entry : (x : ℕ) → update c.inode dp (c.inode dp) x ≡ c.inode x
    same_entry x = update-same c.inode dp x

    same_disk : (x : ℕ) → update c.disks (c.inode dp).dev (c.disks (c.inode dp).dev) x ≡ c.disks x
    same_disk x = update-same c.disks (c.inode dp).dev x

-- In a directory of `n` blocks, 12 at most and all allocated, `dirlookup` is one search through all
-- `32 * n` entries in their order: it returns what `get_found` makes of the first entry in use whose
-- name `namecmp` accepts, and of none if there is none, and leaves the directory as it was.
pub dirlookup-find_from :
    (dp n : ℕ) (name : ℕ → ℕ) (c : Icache)
    → (c.inode dp).node.type ≡ t_dir
    → Mapped (c.inode dp).node
    → (c.inode dp).node.size ≡ n * bsize
    → n ≤ ndirect
    → let e = c.inode dp in
      let d = c.disks e.dev in
      dirlookup dp name c
      ≡ get_found e.dev (answer e.node d (find_from (per_block * n) 0 (matches name e.node d))) c
unfolding dirlookup
dirlookup-find_from dp n name c dir mapped size fits =
    let e = c.inode dp in
    let d = c.disks e.dev in
    let is_dir : (e.node.type == t_dir) ≡ true = ground arith in
    let rounds : e.node.size / bsize + 1 ≡ suc n = omega arith in
    let scan = dir_loop-scan name e.node d n 0 mapped (size ∙ omega arith) (omega arith) in
    let r = answer e.node d (find_from (per_block * n) 0 (matches name e.node d)) in
    rw (is_dir, rounds, scan) (ap (get_found e.dev r) (unchanged c dp))
