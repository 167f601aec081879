-- ===== src/Fs/Inode/Sums.antt =====
-- Checksums in the block pointers, and what `readi` does with them.
use cs537_intro_to_os.Prelude.{
  ℕ, zero, suc, ◌+◌, ◌-◌, ◌*◌, ◌/◌, ◌^◌, ◌<◌, ◌≡◌, ◌≢◌, refl, true, false, ◌==◌, ltb, if◌then◌else◌,
  Option, none, some, List, arith, Bool-cases, inl, inr, update,
}
use cs537_intro_to_os.Fs.Block.{Disk, Block, bsize, get_uint}
use cs537_intro_to_os.Fs.Checksum.{get_addr, get_checksum, set_checksum, calculate_checksum}
use cs537_intro_to_os.Fs.Inode.{
  Inode, State, ndirect, nindirect, t_checked, t_dev, fetch_checksum, update_checksum, put_uint,
  readi, bad_range, read_loop,
}
use cs537_intro_to_os.Fs.Inode.Total.{Mapped, bmap-direct}

get_uint-put_uint : (b : Block) (o v : ℕ) → v < 2 ^ 32 → get_uint (put_uint b o v) o ≡ v
get_uint-put_uint b o v h = ground arith

fetch-direct :
    (bn : ℕ) (ip : Inode) (d : Disk)
    → bn < ndirect
    → fetch_checksum bn (ip, d) ≡ some (get_checksum (ip.addrs bn))
unfolding fetch_checksum
fetch-direct bn ip d lt = ground arith

-- For every block of a file, direct or indirect, `update_checksum` returns; `fetch_checksum` then
-- gives the 8-bit checksum that it has stored, and the addresses in the inode stay.
pub fetch-update_checksum :
    (bn c : ℕ) (s : State)
    → c < 256
    → bn < ndirect + nindirect
    → (s' : State) × (update_checksum bn c s ≡ some s')
      × (fetch_checksum bn s' ≡ some c)
      × ((x : ℕ) → get_addr (s'.0.addrs x) ≡ get_addr (s.0.addrs x))
unfolding update_checksum fetch_checksum
fetch-update_checksum bn c (ip, d) lt low = elim (Bool-cases (ltb bn ndirect)) [
  | inl direct ↦ (
    (record ip { addrs = update ip.addrs bn (set_checksum (ip.addrs bn) c) }, d),
    ground arith,
    ground arith,
    λ x. ground arith,
  )
  | inr beyond ↦
      let at = get_addr (ip.addrs ndirect) in
      let o = 4 * (bn - ndirect) in
      let v = set_checksum (get_uint (d at) o) c in
      let stored = get_uint-put_uint (d at) o v (omega arith) in
      ((ip, update d at (put_uint (d at) o v)), ground arith, ground arith, λ x. ground arith)
]

read_loop-detects :
    (fuel off left : ℕ) (ip : Inode) (d : Disk)
    → Mapped ip
    → fuel ≢ 0
    → left ≢ 0
    → off / bsize < ndirect
    → calculate_checksum (d (get_addr (ip.addrs (off / bsize)))) bsize
      ≢ get_checksum (ip.addrs (off / bsize))
    → (s : State) × (read_loop fuel true off left (ip, d) ≡ some (none, s))
unfolding read_loop
read_loop-detects zero off left ip d m f ne direct bad = absurd (f refl)
read_loop-detects (suc k) off left ip d m f ne direct bad =
    let bn = off / bsize in
    let (ip1, e1, m1, same) = bmap-direct bn ip d m direct in
    let going : (left == 0) ≡ false = ground arith in
    let fetched = fetch-direct bn ip1 d direct in
    let differs : (calculate_checksum (d (get_addr (ip.addrs bn))) bsize
          == get_checksum (ip1.addrs bn))
        ≡ false =
      ground arith in
    ((ip1, d), rw (going, read_loop, e1, fetched, differs) refl)

-- A read of at least a byte of a checked file with its direct blocks allocated, from an offset below
-- its size and without a 32-bit overflow, returns -1 if the first block that it reads is a direct
-- one and does not have the stored checksum.
pub readi-detects :
    (devices : ℕ → Option (List ℕ)) (off n : ℕ) (ip : Inode) (d : Disk)
    → Mapped ip
    → ip.type ≡ t_checked
    → 0 < n
    → off < ip.size
    → off + n < 2 ^ 32
    → off / bsize < ndirect
    → calculate_checksum (d (get_addr (ip.addrs (off / bsize)))) bsize
      ≢ get_checksum (ip.addrs (off / bsize))
    → (s : State) × (readi devices off n (ip, d) ≡ some (none, s))
unfolding readi
readi-detects devices off n ip d m checked pos lo word direct bad =
    let file : (ip.type == t_dev) ≡ false = ground arith in
    let summed : (ip.type == t_checked) ≡ true = ground arith in
    let in_range : bad_range ip off n ≡ false = ground arith in
    let n' = if ltb ip.size (off + n) then ip.size - off else n in
    let some_left : n' ≢ 0 = ground arith in
    let (s, e) = read_loop-detects n' off n' ip d m some_left some_left direct bad in
    (s, rw (file, in_range, summed, readi) e)
