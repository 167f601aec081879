-- ===== src/Fs/Itrunc/Blocks.antt =====
-- The blocks of a file, and the loops of `itrunc` as `bfree` of each of a list.
use cs537_intro_to_os.Prelude.{
  ℕ, zero, suc, ◌+◌, ◌*◌, ◌≤◌, ◌≡◌, refl, ◌&&◌, ◌==◌, ltb, leb, if◌then◌else◌, arith, update,
  update_ne, Option, none, some, List, [], ◌∷◌, ◌++◌, ap, inl, inr, Bool-cases, Option-cases,
}
use cs537_intro_to_os.Fs.Block.{Block, Disk, get_uint, bfree}
use cs537_intro_to_os.Fs.Block.Free.All.{bfree_all}
use cs537_intro_to_os.Fs.Checksum.{get_addr}
use cs537_intro_to_os.Fs.Inode.{Inode, State, ndirect, nindirect}
use cs537_intro_to_os.Fs.Itrunc.{free_direct, free_indirect}

-- The addresses of the direct blocks from the `i`-th on, of `k` pointers.
unfoldable pub direct_blocks : (k i : ℕ) → (ℕ → ℕ) → List ℕ
direct_blocks zero i addrs = []
direct_blocks (suc k) i addrs =
    let rest = direct_blocks k (i + 1) addrs in
    if addrs i == 0 then rest else get_addr (addrs i) ∷ rest

-- The numbers that stand in a block of pointers, from the `j`-th on.
unfoldable pub named_blocks : (k j : ℕ) → Block → List ℕ
named_blocks zero j a = []
named_blocks (suc k) j a =
    let rest = named_blocks k (j + 1) a in
    if get_uint a (4 * j) == 0 then rest else get_uint a (4 * j) ∷ rest

-- The block of pointers and what it names.
unfoldable pub table_blocks : Inode → Disk → List ℕ
table_blocks ip d =
    let at = get_addr (ip.addrs ndirect) in
    if ip.addrs ndirect == 0 then [] else named_blocks nindirect 0 (d at) ++ (at ∷ [])

-- All blocks of a file, in the order in which they are freed.
abbrev pub file_blocks : Inode → Disk → List ℕ
file_blocks ip d = direct_blocks ndirect 0 ip.addrs ++ table_blocks ip d

pub free_indirect-bfree_all :
    (k j : ℕ) (a : Block) (d : Disk) → free_indirect k j a d ≡ bfree_all (named_blocks k j a) d
unfolding free_indirect named_blocks bfree_all
free_indirect-bfree_all zero j a d = refl
free_indirect-bfree_all (suc k) j a d = elim (Bool-cases (get_uint a (4 * j) == 0)) [
  | inl e ↦ rw (e, free_indirect, named_blocks) (free_indirect-bfree_all k (j + 1) a d)
  | inr e ↦
      rw (e, free_indirect, named_blocks)
        (elim (Option-cases (bfree d (get_uint a (4 * j)))) [
          | inl panics ↦ rw (panics, bfree_all) refl
          | inr (d1, runs) ↦ rw (runs, bfree_all) (free_indirect-bfree_all k (j + 1) a d1)
        ])
]

direct_blocks-cong :
    (k i : ℕ) (f g : ℕ → ℕ)
    → ((x : ℕ) → i ≤ x → f x ≡ g x)
    → direct_blocks k i f ≡ direct_blocks k i g
unfolding direct_blocks
direct_blocks-cong zero i f g h = refl
direct_blocks-cong (suc k) i f g h =
    let here = h i (omega arith) in
    let rest = direct_blocks-cong k (i + 1) f g (λ x lo. h x (omega arith)) in rw (here, rest) refl

-- The inode with the pointers from the `i`-th on cut, `k` of them.
pub record Cut (k i : ℕ) (ip ip' : Inode) : Type 0 where
  pub number : ip'.inum ≡ ip.inum
  pub addrs : (x : ℕ) → ip'.addrs x ≡ (if leb i x && ltb x (i + k) then 0 else ip.addrs x)

cut_zero :
    (k i x : ℕ) (a a' : ℕ → ℕ)
    → a i ≡ 0
    → a' x ≡ (if leb (i + 1) x && ltb x (i + 1 + k) then 0 else a x)
    → a' x ≡ (if leb i x && ltb x (i + suc k) then 0 else a x)
cut_zero k i x a a' z h = ground arith

cut_more :
    (k i x : ℕ) (a a' : ℕ → ℕ)
    → a' x ≡ (if leb (i + 1) x && ltb x (i + 1 + k) then 0 else update a i 0 x)
    → a' x ≡ (if leb i x && ltb x (i + suc k) then 0 else a x)
cut_more k i x a a' h = ground arith

pub bfree_all-split :
    (b : ℕ) (bs : List ℕ) (d d' : Disk)
    → bfree_all (b ∷ bs) d ≡ some d'
    → (d1 : Disk) × (bfree d b ≡ some d1) × (bfree_all bs d1 ≡ some d')
unfolding bfree_all
bfree_all-split b bs d d' h = elim (Option-cases (bfree d b)) [
  | inl panics ↦ absurd (clash (rw (panics, bfree_all) at h))
  | inr (d1, runs) ↦ (d1, runs, rw (runs, bfree_all) at h)
]
  where
    clash : none ≡ some d' → ⊥
    clash e = cc

pub free_direct-Cut :
    (k i : ℕ) (ip : Inode) (d d' : Disk)
    → bfree_all (direct_blocks k i ip.addrs) d ≡ some d'
    → (ip' : Inode) × (free_direct k i (ip, d) ≡ some (ip', d')) × Cut k i ip ip'
unfolding free_direct direct_blocks bfree_all
free_direct-Cut zero i ip d d' h =
    (ip, ap (λ o. same o) h, record { number = refl; addrs = λ x. ground arith })
  where
    same : Option Disk → Option State
    same none = none
    same (some d) = some (ip, d)
free_direct-Cut (suc k) i ip d d' h = elim (Bool-cases (ip.addrs i == 0)) [
  | inl e ↦
      let (ip', runs, c) = free_direct-Cut k (i + 1) ip d d' (rw (e, direct_blocks) at h) in
      (
        ip',
        rw (e, free_direct) runs,
        record {
          number = c.number;
          addrs = λ x. cut_zero k i x ip.addrs ip'.addrs (ground arith) (c.addrs x);
        },
      )
  | inr e ↦
      let cut = update ip.addrs i 0 in
      let rest =
        direct_blocks-cong k (i + 1) cut ip.addrs
          λ x lo. update_ne ip.addrs i 0 x (λ q. omega arith) in
      let (d1, first, more) =
        bfree_all-split (get_addr (ip.addrs i)) (direct_blocks k (i + 1) ip.addrs) d d'
          (rw (e, direct_blocks) at h) in
      let (ip', runs, c) =
        free_direct-Cut k (i + 1) (record ip { addrs = cut }) d1 d' (rw rest more) in
      (
        ip',
        rw (e, free_direct, first) runs,
        record { number = c.number; addrs = λ x. cut_more k i x ip.addrs ip'.addrs (c.addrs x) },
      )
]
