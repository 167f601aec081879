-- ===== src/Fs/Inode/Total.antt =====
-- Inside blocks that a file already has, `writei` cannot panic: it returns, and sets the size.
use cs537_intro_to_os.Prelude.{
  drop, ℕ, zero, suc, ◌+◌, ◌-◌, ◌*◌, ◌%◌, ◌/◌, ◌≤◌, ◌<◌, ◌≡◌, ◌≢◌, refl, Bool, true, false, ◌==◌,
  ltb, Option, some, List, arith, ◌∙◌, ℕ_discrete, update, max,
}
use cs537_intro_to_os.Fs.Block.{Disk, Block, bsize}
use cs537_intro_to_os.Fs.Checksum.{get_addr, set_checksum, calculate_checksum}
use cs537_intro_to_os.Fs.Inode.{
  Inode, State, ndirect, t_dev, t_checked, max_bytes, bad_range, chunk, bmap, update_checksum, seal,
  blit, write_loop, writei, set_size,
}
use cs537_intro_to_os.Fs.Inode.Size.{write_loop-end}

-- The direct blocks of the file are allocated.
abbrev pub Mapped : Inode → Type 0
Mapped ip = (bn : ℕ) → bn < ndirect → get_addr (ip.addrs bn) ≢ 0

pub bmap-direct :
    (bn : ℕ) (ip : Inode) (d : Disk)
    → Mapped ip
    → bn < ndirect
    → (ip' : Inode) × (bmap bn (ip, d) ≡ some (get_addr (ip.addrs bn), (ip', d)))
      × Mapped ip'
      × (ip'.addrs bn ≡ ip.addrs bn)
unfolding bmap
bmap-direct bn ip d m lt =
    let here = m bn lt in
    let some_addr : (ip.addrs bn == 0) ≡ false = ground arith in
    (
      record ip { addrs = update ip.addrs bn (ip.addrs bn) },
      ground arith,
      λ x less. ground (arith, m x less),
      ground arith,
    )

seal-direct :
    (checked : Bool) (bn : ℕ) (b : Block) (ip : Inode) (d : Disk)
    → Mapped ip
    → bn < ndirect
    → (ip' : Inode) × (seal checked bn b (ip, d) ≡ some (ip', d)) × Mapped ip'
unfolding update_checksum
seal-direct false bn b ip d m lt = (ip, refl, m)
seal-direct true bn b ip d m lt = (
  record ip {
    addrs = update ip.addrs bn (set_checksum (ip.addrs bn) (calculate_checksum b bsize));
  },
  ground arith,
  λ x less. ground (arith, m x less),
)

write_loop-returns :
    (fuel : ℕ) (checked : Bool) (src : List ℕ) (off left : ℕ) (ip : Inode) (d : Disk)
    → Mapped ip
    → off + left ≤ ndirect * bsize
    → left ≤ fuel
    → (r : ℕ × State) × (write_loop fuel checked src off left (ip, d) ≡ some r)
unfolding write_loop
write_loop-returns zero checked src off left ip d m fits fuel = ((off, (ip, d)), ground arith)
write_loop-returns (suc f) checked src off left ip d m fits fuel = elim (ℕ_discrete left 0) [
  | yes done ↦ ((off, (ip, d)), ground arith)
  | no more ↦
      let bn = off / bsize in
      let low : bn < ndirect = omega arith in
      let (ip1, e1, m1, same) = bmap-direct bn ip d m low in
      let addr = get_addr (ip.addrs bn) in
      let b = blit src (off % bsize) (chunk off left) (d addr) in
      let (ip2, e2, m2) = seal-direct checked bn b ip1 d m1 low in
      let (r, e) =
        write_loop-returns f checked (drop (chunk off left) src) (off + chunk off left)
          (left - chunk off left) ip2 (update d addr b) m2 (ground arith) (ground arith) in
      let going : (left == 0) ≡ false = ground arith in (r, rw (going, write_loop, e1, e2) e)
]

-- A write of `n > 0` bytes inside the direct blocks that a file already has, from an offset up to
-- its size, returns `n`. The size of a regular file becomes the larger of its old size and the end
-- of the write. The size of a checked file becomes the end of the write, also where that is less
-- than the old size: the rest of the file is cut off.
pub writei-size :
    (devices : ℕ → Option ℕ) (src : List ℕ) (off n : ℕ) (ip : Inode) (d : Disk)
    → Mapped ip
    → ip.type ≢ t_dev
    → 0 < n
    → off ≤ ip.size
    → off + n ≤ ndirect * bsize
    → (s : State) × (writei devices src off n (ip, d) ≡ some (some n, s))
      × (ip.type ≡ t_checked → s.0.size ≡ off + n)
      × (ip.type ≢ t_checked → s.0.size ≡ max ip.size (off + n))
unfolding writei
writei-size devices src off n ip d m not_dev pos lo fits =
    let checked = ip.type == t_checked in
    let file : (ip.type == t_dev) ≡ false = ground arith in
    let in_range : bad_range ip off n ≡ false = ground arith in
    let small : ltb max_bytes (off + n) ≡ false = ground arith in
    let (r, e) = write_loop-returns n checked src off n ip d m fits (omega arith) in
    let end = write_loop-end n checked src off n (ip, d) r e in
    (
      (set_size checked n r).1,
      rw (file, in_range, small, e, writei) (returned checked n r pos),
      λ is_checked. (sizes checked n r pos).0 (ground arith) ∙ end.0,
      λ is_plain. (sizes checked n r pos).1 (ground arith) ∙ ground (arith, end),
    )
  where
    returned :
        (checked : Bool) (n : ℕ) (r : ℕ × State)
        → 0 < n
        → ◌≡◌ {A = Option (Option ℕ × State)}
            (some (set_size checked n r))
            (some (some n, (set_size checked n r).1))
    returned checked n (reached, (ip, d)) pos = ground arith

    sizes :
        (checked : Bool) (n : ℕ) (r : ℕ × State)
        → 0 < n
        → (checked ≡ true → (set_size checked n r).1.0.size ≡ r.0)
          × (checked ≡ false → (set_size checked n r).1.0.size ≡ max r.1.0.size r.0)
    sizes checked n (reached, (ip, d)) pos = (λ c. ground arith, λ c. ground arith)
