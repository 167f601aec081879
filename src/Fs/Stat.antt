-- ===== src/Fs/Stat.antt =====
-- What fs.c tells of a file: `calculate_file_checksum` and `stati`, with `struct stat` of
-- Project5b/xv6/include/stat.h.
use cs537_intro_to_os.Prelude.{
  ℕ, zero, suc, ◌+◌, ◌*◌, ◌==◌, ◌<◌, arith, if◌then◌else◌, bit_xor, bit_xor-lt, inl, inr,
  Bool-cases,
}
use cs537_intro_to_os.Fs.Block.{get_uint}
use cs537_intro_to_os.Fs.Checksum.{get_checksum, get_addr}
use cs537_intro_to_os.Fs.Inode.{State, ndirect, nindirect, t_checked}

pub record Stat : Type 0 where
  pub type : ℕ
  pub dev : ℕ
  pub ino : ℕ
  pub nlink : ℕ
  pub size : ℕ
  pub checksum : ℕ

-- `result = result ^ CH_GET_CHECKSUM(word)` for `k` words from the `i`-th on
unfoldable pub xor_checksums : (k i result : ℕ) → (word : ℕ → ℕ) → ℕ
xor_checksums zero i result word = result
xor_checksums (suc k) i result word =
    xor_checksums k (i + 1) (bit_xor result (get_checksum (word i))) word

unfoldable pub calculate_file_checksum : State → ℕ
calculate_file_checksum (ip, d) =
    let direct = xor_checksums ndirect 0 0 ip.addrs in
    let table = d (get_addr (ip.addrs ndirect)) in
    if ip.addrs ndirect == 0
    then direct
    else xor_checksums nindirect 0 direct (λ i. get_uint table (4 * i))

-- The checksum of `st` stays for a file that is not checked.
unfoldable pub stati : (dev : ℕ) → State → Stat → Stat
stati dev (ip, d) st = record {
  type = ip.type;
  dev = dev;
  ino = ip.inum;
  nlink = ip.nlink;
  size = ip.size;
  checksum = if ip.type == t_checked then calculate_file_checksum (ip, d) else st.checksum;
}

xor_checksums-lt :
    (k i result : ℕ) (word : ℕ → ℕ) → result < 256 → xor_checksums k i result word < 256
unfolding xor_checksums
xor_checksums-lt zero i result word small = small
xor_checksums-lt (suc k) i result word small =
    xor_checksums-lt k (i + 1) (bit_xor result (get_checksum (word i))) word
      (bit_xor-lt result (get_checksum (word i)) small (omega arith))

-- The checksum of a file fits in the `uchar` of `struct stat`.
calculate_file_checksum-lt : (s : State) → calculate_file_checksum s < 256
unfolding calculate_file_checksum
calculate_file_checksum-lt (ip, d) =
    let direct = xor_checksums ndirect 0 0 ip.addrs in
    let table = d (get_addr (ip.addrs ndirect)) in
    let small = xor_checksums-lt ndirect 0 0 ip.addrs (omega arith) in
    elim (Bool-cases (ip.addrs ndirect == 0)) [
      | inl e ↦ rw e small
      | inr e ↦ rw e (xor_checksums-lt nindirect 0 direct (λ i. get_uint table (4 * i)) small)
    ]
