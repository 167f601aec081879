-- ===== src/Fs/Inode.antt =====
-- Inode contents of fs.c: `bmap`, the checksums in the block pointers, `iupdate`, `readi`, `writei`.
-- A routine takes the inode and the disk and returns them as it leaves them; `none` is a panic.
pub mod Sums
pub mod Size
pub mod Total
use cs537_intro_to_os.Prelude.{
  ℕ, zero, suc, ◌+◌, ◌-◌, ◌*◌, ◌/◌, ◌%◌, ◌^◌, Bool, true, false, not, ◌&&◌, ◌||◌, ◌==◌, ltb, leb,
  if◌then◌else◌, update, drop, Option, none, some, List, [], ◌∷◌, ◌++◌, for_each,
}
use cs537_intro_to_os.Fs.Block.{Block, Disk, bsize, get_uint, balloc}
use cs537_intro_to_os.Fs.Checksum.{get_checksum, get_addr, set_checksum, calculate_checksum}

abbrev pub ndirect : ℕ
ndirect = 12

abbrev pub nindirect : ℕ
nindirect = 128

-- `T_DEV` and `T_CHECKED` of stat.h, and `NDEV`
abbrev pub t_dev : ℕ
t_dev = 3

abbrev pub t_checked : ℕ
t_checked = 4

abbrev pub ndev : ℕ
ndev = 10

-- The part of `struct inode` that is a copy of the disk inode, with the inode's number.
pub record Inode : Type 0 where
  pub inum : ℕ
  pub type : ℕ
  pub major : ℕ
  pub minor : ℕ
  pub nlink : ℕ
  pub size : ℕ
  pub addrs : ℕ → ℕ

abbrev pub State : Type 0
State = Inode × Disk

infixl 5 ◌>>=◌
abbrev pub ◌>>=◌ {ℓ κ} : {A : Type ℓ} {B : Type κ} → Option A → (A → Option B) → Option B
none >>= f = none
some a >>= f = f a

abbrev pub put_ushort : Block → (o v : ℕ) → Block
put_ushort b o v = update (update b o (v % 2 ^ 8)) (o + 1) (v / 2 ^ 8 % 2 ^ 8)

abbrev pub put_uint : Block → (o v : ℕ) → Block
put_uint b o v = put_ushort (put_ushort b o v) (o + 2) (v / 2 ^ 16)

-- `if((addr = *slot) == 0) *slot = addr = balloc(dev);`: the address, and the disk.
unfoldable pub alloc_if_zero : (addr : ℕ) → Disk → Option (ℕ × Disk)
alloc_if_zero addr d = if addr == 0 then balloc d else some (addr, d)

unfoldable pub bmap : (bn : ℕ) → State → Option (ℕ × State)
unfolding alloc_if_zero
bmap bn (ip, d) =
    let direct = (do
      (addr, d1) ← alloc_if_zero (ip.addrs bn) d
      some (get_addr addr, (record ip { addrs = update ip.addrs bn addr }, d1))) in
    let k = bn - ndirect in
    let indirect = (do
      (table, d1) ← alloc_if_zero (ip.addrs ndirect) d
      (addr, d2) ← alloc_if_zero (get_uint (d1 (get_addr table)) (4 * k)) d1
      let d3 =
          if get_uint (d1 (get_addr table)) (4 * k) == 0
          then update d2 (get_addr table) (put_uint (d1 (get_addr table)) (4 * k) addr)
          else d2
      some (get_addr addr, (record ip { addrs = update ip.addrs ndirect table }, d3))) in
    if ltb bn ndirect then direct else (if ltb k nindirect then indirect else none)

unfoldable pub fetch_checksum : (bn : ℕ) → State → Option ℕ
fetch_checksum bn (ip, d) =
    let k = bn - ndirect in
    if ltb bn ndirect
    then some (get_checksum (ip.addrs bn))
    else (if ltb k nindirect
        then some (get_checksum (get_uint (d (get_addr (ip.addrs ndirect))) (4 * k)))
        else none)

unfoldable pub update_checksum : (bn checksum : ℕ) → State → Option State
update_checksum bn checksum (ip, d) =
    let k = bn - ndirect in
    let at = get_addr (ip.addrs ndirect) in
    if ltb bn ndirect
    then some (record ip { addrs = update ip.addrs bn (set_checksum (ip.addrs bn) checksum) }, d)
    else (if ltb k nindirect
        then some (
          ip,
          update d at (put_uint (d at) (4 * k) (set_checksum (get_uint (d at) (4 * k)) checksum)),
        )
        else none)

-- The disk inode: 64 bytes at place `inum % 8` of its block, which starts with four shorts and the
-- size, followed by the 13 addresses.
unfoldable pub iupdate : State → Disk
iupdate (ip, d) =
    let at = ip.inum / 8 + 2 in
    let o = ip.inum % 8 * 64 in
    let head =
      put_uint
        (put_ushort
          (put_ushort (put_ushort (put_ushort (d at) o ip.type) (o + 2) ip.major) (o + 4) ip.minor)
          (o + 6) ip.nlink)
        (o + 8) ip.size in
    update d at (for_each (ndirect + 1) 0 (λ i b. put_uint b (o + 12 + 4 * i) (ip.addrs i)) head)

-- `min(n - tot, BSIZE - off%BSIZE)`, with `left = n - tot`
abbrev pub chunk : (off left : ℕ) → ℕ
chunk off left = if ltb left (bsize - off % bsize) then left else bsize - off % bsize

-- `m` bytes of a block from offset `o` on
unfoldable pub bytes_at : Block → (o m : ℕ) → List ℕ
bytes_at b o zero = []
bytes_at b o (suc m) = b o ∷ bytes_at b (o + 1) m

-- `none` for the result -1; what the loop has copied before that is dropped.
abbrev pub Read : Type 0
Read = Option (List ℕ)

abbrev pub prepend : List ℕ → Option (Read × State) → Option (Read × State)
prepend xs none = none
prepend xs (some (none, s)) = some (none, s)
prepend xs (some (some ys, s)) = some (some (xs ++ ys), s)

-- The loops of `readi`, for a checked file and for another one. Each round reads at least a byte,
-- so that `left` rounds are enough.
unfoldable pub read_loop :
    (fuel : ℕ) → (checked : Bool) → (off left : ℕ) → State → Option (Read × State)
read_loop zero checked off left s = if left == 0 then some (some [], s) else none
read_loop (suc fuel) checked off left s =
    let m = chunk off left in
    let body = (do
      (addr, s1) ← bmap (off / bsize) s
      let rest =
          prepend (bytes_at (s1.1 addr) (off % bsize) m)
            (read_loop fuel checked (off + m) (left - m) s1)
      stored ← fetch_checksum (off / bsize) s1
      if checked && not (calculate_checksum (s1.1 addr) bsize == stored)
          then some (none, s1)
          else rest) in
    let plain = (do
      (addr, s1) ← bmap (off / bsize) s
      prepend (bytes_at (s1.1 addr) (off % bsize) m)
          (read_loop fuel checked (off + m) (left - m) s1)) in
    if left == 0 then some (some [], s) else (if checked then body else plain)

-- `ip->major < 0 || ip->major >= NDEV || !devsw[ip->major].f`; `major` is the 16-bit pattern, and
-- `devices` tells what the driver of a major number returns, if there is one.
abbrev pub driver {ℓ} : {A : Type ℓ} → (ℕ → Option A) → Inode → Option A
driver devices ip = if leb ndev ip.major then none else devices ip.major

-- `off > ip->size || off + n < off`, the sum in 32 bits
abbrev pub bad_range : Inode → (off n : ℕ) → Bool
bad_range ip off n = ltb ip.size off || ltb ((off + n) % 2 ^ 32) off

unfoldable pub readi : (devices : ℕ → Option (List ℕ)) → (off n : ℕ) → State → Option (Read × State)
unfolding read_loop
readi devices off n (ip, d) =
    let n' = if ltb ip.size (off + n) then ip.size - off else n in
    if ip.type == t_dev
    then some (driver devices ip, (ip, d))
    else (if bad_range ip off n
        then some (none, (ip, d))
        else read_loop n' (ip.type == t_checked) off n' (ip, d))

-- `memmove(bp->data + off%BSIZE, src, m)`
unfoldable pub blit : List ℕ → (o m : ℕ) → Block → Block
blit src o zero b = b
blit [] o (suc m) b = b
blit (x ∷ src) o (suc m) b = blit src (o + 1) m (update b o x)

-- `update_checksum(ip, off / BSIZE, calculate_checksum(bp->data, BSIZE))` for a checked file
abbrev pub seal : (checked : Bool) → (bn : ℕ) → Block → State → Option State
seal checked bn b s = if checked then update_checksum bn (calculate_checksum b bsize) s else some s

-- The loops of `writei`; the result is the offset that they reach.
unfoldable pub write_loop :
    (fuel : ℕ) → (checked : Bool) → List ℕ → (off left : ℕ) → State → Option (ℕ × State)
write_loop zero checked src off left s = if left == 0 then some (off, s) else none
write_loop (suc fuel) checked src off left s =
    let m = chunk off left in
    let body = (do
      (addr, s1) ← bmap (off / bsize) s
      let b = blit src (off % bsize) m (s1.1 addr)
      (ip2, d2) ← seal checked (off / bsize) b s1
      write_loop fuel checked (drop m src) (off + m) (left - m) (ip2, update d2 addr b)) in
    if left == 0 then some (off, s) else body

-- `MAXFILE*BSIZE`
abbrev pub max_bytes : ℕ
max_bytes = 71680

-- What `writei` does behind its loop, at the offset that the loop has reached.
abbrev pub set_size : (checked : Bool) → (n : ℕ) → ℕ × State → Option ℕ × State
set_size checked n (off, (ip, d)) =
    let ip' = record ip { size = off } in
    if ltb 0 n && (checked || ltb ip.size off)
    then (some n, (ip', iupdate (ip', d)))
    else (some n, (ip, d))

unfoldable pub writei :
    (devices : ℕ → Option ℕ) → List ℕ → (off n : ℕ) → State → Option (Option ℕ × State)
unfolding write_loop
writei devices src off n (ip, d) =
    let n' = if ltb max_bytes (off + n) then (max_bytes + 2 ^ 32 - off) % 2 ^ 32 else n in
    let checked = ip.type == t_checked in
    if ip.type == t_dev
    then some (driver devices ip, (ip, d))
    else (if bad_range ip off n then some (none, (ip, d)) else (do
      reached ← write_loop n' checked src off n' (ip, d)
      some (set_size checked n' reached)))
