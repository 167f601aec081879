-- ===== src/Fs/Itrunc/Load.antt =====
-- What `iupdate` stores of an inode and `ilock` loads again.
use cs537_intro_to_os.Prelude.{
  ℕ, zero, suc, ◌+◌, ◌*◌, ◌^◌, ◌≤◌, ◌<◌, ◌≡◌, ◌⊎◌, inl, inr, refl, arith, for_each, ltb, true,
  ℕ_discrete, ◌∙◌, update_self,
}
use cs537_intro_to_os.Fs.Block.{Block, Disk, get_uint}
use cs537_intro_to_os.Fs.Inode.{Inode, put_ushort, put_uint, ndirect, iupdate}
use cs537_intro_to_os.Fs.Itrunc.{get_ushort, iblock, inode_start, load}

-- Place `p` is not one of the `n` bytes from `o` on.
abbrev Outside : (o n p : ℕ) → Type 0
Outside o n p = (p < o) ⊎ (o + n ≤ p)

put_ushort_self : (b : Block) (o v : ℕ) → v < 2 ^ 16 → get_ushort (put_ushort b o v) o ≡ v
put_ushort_self b o v small = ground arith

put_ushort-Outside : (b : Block) (o v p : ℕ) → Outside o 2 p → put_ushort b o v p ≡ b p
put_ushort-Outside b o v p (inl before) = ground arith
put_ushort-Outside b o v p (inr after) = ground arith

put_uint_self : (b : Block) (o v : ℕ) → v < 2 ^ 32 → get_uint (put_uint b o v) o ≡ v
put_uint_self b o v small = ground arith

put_uint-Outside : (b : Block) (o v p : ℕ) → Outside o 4 p → put_uint b o v p ≡ b p
put_uint-Outside b o v p (inl before) = ground arith
put_uint-Outside b o v p (inr after) = ground arith

-- Blocks that agree on the bytes of a number hold the same number.
same-get_uint :
    (a b : Block) (o : ℕ) → ((p : ℕ) → o ≤ p → p < o + 4 → a p ≡ b p) → get_uint a o ≡ get_uint b o
same-get_uint a b o h =
    let e0 = h o (omega arith) (omega arith) in
    let e1 = h (o + 1) (omega arith) (omega arith) in
    let e2 = h (o + 2) (omega arith) (omega arith) in
    let e3 = h (o + 3) (omega arith) (omega arith) in rw (e0, e1, e2, e3) refl

-- The loop that stores the addresses, from the `i`-th on.
abbrev put_addrs : (k i o : ℕ) → (ℕ → ℕ) → Block → Block
put_addrs k i o a b = for_each k i (λ i b. put_uint b (o + 12 + 4 * i) (a i)) b

put_addrs-before :
    (k i o : ℕ) (a : ℕ → ℕ) (b : Block) (p : ℕ) → p < o + 12 + 4 * i → put_addrs k i o a b p ≡ b p
unfolding for_each
put_addrs-before zero i o a b p lt = refl
put_addrs-before (suc k) i o a b p lt =
    put_addrs-before k (i + 1) o a (put_uint b (o + 12 + 4 * i) (a i)) p (omega arith)
    ∙ put_uint-Outside b (o + 12 + 4 * i) (a i) p (inl lt)

put_addrs-at :
    (k i o : ℕ) (a : ℕ → ℕ) (b : Block) (x : ℕ)
    → i ≤ x
    → x < i + k
    → a x < 2 ^ 32
    → get_uint (put_addrs k i o a b) (o + 12 + 4 * x) ≡ a x
unfolding for_each
put_addrs-at zero i o a b x lo hi small = absurd (omega arith)
put_addrs-at (suc k) i o a b x lo hi small =
    let b1 = put_uint b (o + 12 + 4 * i) (a i) in
    elim (ℕ_discrete i x) [
      | yes here ↦
          same-get_uint (put_addrs k (i + 1) o a b1) b1 (o + 12 + 4 * x)
            (λ p from below. put_addrs-before k (i + 1) o a b1 p (omega arith))
          ∙ rw here (put_uint_self b (o + 12 + 4 * x) (a x) small)
      | no later ↦ put_addrs-at k (i + 1) o a b1 x (omega arith) (omega arith) small
    ]

-- The fields hold what `struct dinode` has room for.
pub record Fits (ip : Inode) : Type 0 where
  pub type : ip.type < 2 ^ 16
  pub major : ip.major < 2 ^ 16
  pub minor : ip.minor < 2 ^ 16
  pub nlink : ip.nlink < 2 ^ 16
  pub size : ip.size < 2 ^ 32
  pub addrs : (i : ℕ) → ip.addrs i < 2 ^ 32

-- Two copies of one disk inode.
pub record Agrees (a b : Inode) : Type 0 where
  pub type : a.type ≡ b.type
  pub major : a.major ≡ b.major
  pub minor : a.minor ≡ b.minor
  pub nlink : a.nlink ≡ b.nlink
  pub size : a.size ≡ b.size
  pub addrs : (i : ℕ) → i < ndirect + 1 → a.addrs i ≡ b.addrs i

-- The fields before the addresses.
abbrev put_head : Inode → ℕ → Block → Block
put_head ip o b =
    put_uint
      (put_ushort
        (put_ushort (put_ushort (put_ushort b o ip.type) (o + 2) ip.major) (o + 4) ip.minor) (o + 6)
        ip.nlink)
      (o + 8) ip.size

same-get_ushort :
    (a b : Block) (o : ℕ)
    → ((p : ℕ) → o ≤ p → p < o + 2 → a p ≡ b p)
    → get_ushort a o ≡ get_ushort b o
same-get_ushort a b o h =
    let e0 = h o (omega arith) (omega arith) in
    let e1 = h (o + 1) (omega arith) (omega arith) in rw (e0, e1) refl

-- A later store beside a `short` leaves it.
keep_ushort : (b : Block) (o p v : ℕ) → p + 2 ≤ o → get_ushort (put_ushort b o v) p ≡ get_ushort b p
keep_ushort b o p v le =
    same-get_ushort (put_ushort b o v) b p
      λ q from below. put_ushort-Outside b o v q (inl (omega arith))

module _ (ip : Inode) (o : ℕ) (b : Block) (fits : Fits ip) where
  abbrev stored : Block
  stored = put_addrs (ndirect + 1) 0 o ip.addrs (put_head ip o b)

  abbrev shorts : Block
  shorts =
      put_ushort
        (put_ushort (put_ushort (put_ushort b o ip.type) (o + 2) ip.major) (o + 4) ip.minor) (o + 6)
        ip.nlink

  short_at : (p : ℕ) → p + 2 ≤ o + 8 → get_ushort stored p ≡ get_ushort shorts p
  short_at p le = same-get_ushort stored shorts p λ q from below.
      put_addrs-before (ndirect + 1) 0 o ip.addrs (put_head ip o b) q (omega arith)
      ∙ put_uint-Outside shorts (o + 8) ip.size q (inl (omega arith))

  stored-type : get_ushort stored o ≡ ip.type
  stored-type =
      let b1 = put_ushort b o ip.type in
      let b2 = put_ushort b1 (o + 2) ip.major in
      let b3 = put_ushort b2 (o + 4) ip.minor in
      short_at o (omega arith)
      ∙ keep_ushort b3 (o + 6) o ip.nlink (omega arith)
      ∙ keep_ushort b2 (o + 4) o ip.minor (omega arith)
      ∙ keep_ushort b1 (o + 2) o ip.major (omega arith)
      ∙ put_ushort_self b o ip.type fits.type

  stored-major : get_ushort stored (o + 2) ≡ ip.major
  stored-major =
      let b1 = put_ushort b o ip.type in
      let b2 = put_ushort b1 (o + 2) ip.major in
      let b3 = put_ushort b2 (o + 4) ip.minor in
      short_at (o + 2) (omega arith)
      ∙ keep_ushort b3 (o + 6) (o + 2) ip.nlink (omega arith)
      ∙ keep_ushort b2 (o + 4) (o + 2) ip.minor (omega arith)
      ∙ put_ushort_self b1 (o + 2) ip.major fits.major

  stored-minor : get_ushort stored (o + 4) ≡ ip.minor
  stored-minor =
      let b2 = put_ushort (put_ushort b o ip.type) (o + 2) ip.major in
      let b3 = put_ushort b2 (o + 4) ip.minor in
      short_at (o + 4) (omega arith)
      ∙ keep_ushort b3 (o + 6) (o + 4) ip.nlink (omega arith)
      ∙ put_ushort_self b2 (o + 4) ip.minor fits.minor

  stored-nlink : get_ushort stored (o + 6) ≡ ip.nlink
  stored-nlink =
      let b3 = put_ushort (put_ushort (put_ushort b o ip.type) (o + 2) ip.major) (o + 4) ip.minor in
      short_at (o + 6) (omega arith) ∙ put_ushort_self b3 (o + 6) ip.nlink fits.nlink

  stored-size : get_uint stored (o + 8) ≡ ip.size
  stored-size =
      same-get_uint stored (put_head ip o b) (o + 8) (λ q from below.
        put_addrs-before (ndirect + 1) 0 o ip.addrs (put_head ip o b) q (omega arith))
      ∙ put_uint_self shorts (o + 8) ip.size fits.size

-- The inode that `iupdate` has stored is the one that the copies in `ilock` load, in any entry for
-- that number: every field of the disk inode, if each fits in its place there.
pub load-iupdate :
    (ip ip' : Inode) (d : Disk)
    → Fits ip
    → ip'.inum ≡ ip.inum
    → Agrees (load ip' (iupdate (ip, d))) ip
unfolding load iupdate
load-iupdate ip ip' d fits same =
    let o = inode_start ip.inum in
    let b = d (iblock ip.inum) in
    let here = update_self d (iblock ip.inum) (stored ip o b fits) in
    record {
      type = rw (same, here) (stored-type ip o b fits);
      major = rw (same, here) (stored-major ip o b fits);
      minor = rw (same, here) (stored-minor ip o b fits);
      nlink = rw (same, here) (stored-nlink ip o b fits);
      size = rw (same, here) (stored-size ip o b fits);
      addrs = λ i lt.
          let inside : ltb i (ndirect + 1) ≡ true = ground arith in
          rw (inside, same, here)
            (put_addrs-at (ndirect + 1) 0 o ip.addrs (put_head ip o b) i (omega arith) lt
              (fits.addrs i));
    }
