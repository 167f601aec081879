-- ===== src/Fs/Block/Free/All.antt =====
-- Blocks that are given back one after the other by `bfree`.
use cs537_intro_to_os.Prelude.{
  ℕ, ◌/◌, ◌%◌, ◌<◌, ◌≡◌, ◌≢◌, refl, Bool, true, false, ◌==◌, if◌then◌else◌, arith, update, Option,
  none, some, List, [], ◌∷◌, ◌++◌, All, ℕ_discrete, ap, ◌∙◌, sym, update_self, update_ne,
  bit_and-lt, subst, Option-cases, inl, inr,
}
use cs537_intro_to_os.Fs.Block.{Block, Disk, Superblock, bpb, bblock, unmark, bfree, readsb, bzero}
use cs537_intro_to_os.Fs.Block.Bitmap.{IsBytes}
use cs537_intro_to_os.Fs.Block.Alloc.{free}
use cs537_intro_to_os.Fs.Block.Free.{
  bfree_parts, bzero-IsBytes, readsb-bzero, bzero-free, unmark_here,
}

abbrev pub mem : ℕ → List ℕ → Bool
mem x [] = false
mem x (b ∷ bs) = if x == b then true else mem x bs

abbrev pub Distinct : List ℕ → Type 0
Distinct [] = Unit
Distinct (b ∷ bs) = (mem b bs ≡ false) × Distinct bs

-- A block in use that is neither the superblock nor one of the bitmap.
pub record InUse (sb : Superblock) (d : Disk) (b : ℕ) : Type 0 where
  pub inside : b < sb.size
  pub not_super : b ≢ 1
  pub not_map : (x : ℕ) → x < sb.size → bblock x sb.ninodes ≢ b
  pub used : free sb d b ≡ false

-- What freeing the blocks `bs` does to a disk.
pub record Freed (sb : Superblock) (bs : List ℕ) (d d' : Disk) : Type 0 where
  pub same_sb : readsb d' ≡ sb
  pub bytes : (s : ℕ) → IsBytes (d' s)
  pub bits : (x : ℕ) → x < sb.size → free sb d' x ≡ (if mem x bs then true else free sb d x)
  pub others :
      (s : ℕ) → mem s bs ≡ false → ((x : ℕ) → x < sb.size → bblock x sb.ninodes ≢ s) → d' s ≡ d s

unmark-IsBytes : (map : Block) (bi : ℕ) → IsBytes map → IsBytes (unmark map bi)
unmark-IsBytes map bi bytes o =
    let small = bit_and-lt (map (bi / 8)) (bi % 8) (bytes (bi / 8)) (omega arith) in
    elim (ℕ_discrete o (bi / 8)) [
      | yes e ↦ rw (e, update_self map (bi / 8)) small
      | no ne ↦ rw (update_ne map (bi / 8) _ o ne) (bytes o)
    ]

readsb-update : (d : Disk) (at : ℕ) (v : Block) → at ≢ 1 → readsb (update d at v) ≡ readsb d
unfolding readsb
readsb-update d at v ne = ground arith

update-IsBytes :
    (d : Disk) (at : ℕ) (v : Block)
    → ((s : ℕ) → IsBytes (d s))
    → IsBytes v
    → (s : ℕ) → IsBytes (update d at v s)
update-IsBytes d at v bytes new s = elim (ℕ_discrete s at) [
  | yes e ↦ rw (e, update_self d at v) new
  | no ne ↦ rw (update_ne d at v s ne) (bytes s)
]

kept : (d : Disk) (b s : ℕ) → s ≢ b → bzero d b s ≡ d s
unfolding bzero
kept d b s ne = update_ne d b (λ o. 0) s ne

bfree-Freed :
    (d : Disk) (b : ℕ)
    → ((s : ℕ) → IsBytes (d s))
    → InUse (readsb d) d b
    → (d' : Disk) × (bfree d b ≡ some d') × Freed (readsb d) (b ∷ []) d d'
bfree-Freed d b bytes u =
    let same = readsb-bzero d b u.not_super in
    let d1 = bzero d b in
    let bytes1 = bzero-IsBytes d b bytes in
    let at = bblock b (readsb d1).ninodes in
    let v = unmark (d1 at) (b % bpb) in
    (
      update d1 at v,
      (bfree_parts d b).1 (rw same (bzero-free (readsb d) d b b (u.not_map b u.inside) ∙ u.used)),
      record {
        same_sb = readsb-update d1 at v (λ e. omega arith) ∙ same;
        bytes = update-IsBytes d1 at v bytes1 (unmark-IsBytes (d1 at) (b % bpb) (bytes1 at));
        bits = λ x lt.
            rw same (unmark_here (readsb d) d1 b x bytes1)
            ∙ ap (λ (f : Bool). if x == b then true else f)
                (bzero-free (readsb d) d b x (u.not_map x lt))
            ∙ one_bit x (free (readsb d) d x);
        others = λ s out apart.
            update_ne d1 at v s
              (λ e. apart b u.inside (ap (λ sb. bblock b sb.ninodes) (sym same) ∙ sym e))
            ∙ kept d b s (off s out);
      },
    )
  where
    one_bit :
        (x : ℕ) (f : Bool) → (if x == b then true else f) ≡ (if mem x (b ∷ []) then true else f)
    one_bit x f = ground arith

    off : (s : ℕ) → mem s (b ∷ []) ≡ false → s ≢ b
    off s out e = ground arith

-- A block that is not freed stays in use.
still_InUse :
    (sb : Superblock) (d d' : Disk) (b x : ℕ)
    → Freed sb (b ∷ []) d d'
    → x ≢ b
    → InUse sb d x
    → InUse sb d' x
still_InUse sb d d' b x f ne u = record {
  inside = u.inside;
  not_super = u.not_super;
  not_map = u.not_map;
  used = f.bits x u.inside ∙ here (free sb d x) u.used;
}
  where
    here : (f : Bool) → f ≡ false → (if mem x (b ∷ []) then true else f) ≡ false
    here f e = ground arith

rest_InUse :
    (sb : Superblock) (d d' : Disk) (b : ℕ) (bs : List ℕ)
    → Freed sb (b ∷ []) d d'
    → mem b bs ≡ false
    → All (InUse sb d) bs
    → All (InUse sb d') bs
rest_InUse sb d d' b [] f out us = tt
rest_InUse sb d d' b (x ∷ bs) f out us = (
  still_InUse sb d d' b x f (λ e. ground arith) us.0,
  rest_InUse sb d d' b bs f (ground arith) us.1,
)

Freed-cons :
    (sb : Superblock) (b : ℕ) (bs : List ℕ) (d d1 d' : Disk)
    → Freed sb (b ∷ []) d d1
    → Freed sb bs d1 d'
    → Freed sb (b ∷ bs) d d'
Freed-cons sb b bs d d1 d' f g = record {
  same_sb = g.same_sb;
  bytes = g.bytes;
  bits =
      λ x lt. g.bits x lt ∙ ap (λ (c : Bool). if mem x bs then true else c) (f.bits x lt) ∙ both x;
  others = λ s out apart. g.others s (later s out) apart ∙ f.others s (first s out) apart;
}
  where
    both :
        (x : ℕ)
        → (if mem x bs then true else (if mem x (b ∷ []) then true else free sb d x))
          ≡ (if mem x (b ∷ bs) then true else free sb d x)
    both x = three (x == b) (mem x bs) (free sb d x)
      where
        three :
            (p q r : Bool)
            → (if q then true else (if (if p then true else false) then true else r))
              ≡ (if (if p then true else q) then true else r)
        three true true r = refl
        three true false r = refl
        three false true r = refl
        three false false r = refl

    later : (s : ℕ) → mem s (b ∷ bs) ≡ false → mem s bs ≡ false
    later s out = ground arith

    first : (s : ℕ) → mem s (b ∷ bs) ≡ false → mem s (b ∷ []) ≡ false
    first s out = ground arith

-- `bfree` of each block of a list; `none` is its panic.
unfoldable pub bfree_all : List ℕ → Disk → Option Disk
bfree_all [] d = some d
bfree_all (b ∷ bs) d = elim (bfree d b) [ none ↦ none | some d1 ↦ bfree_all bs d1 ]

pub bfree_all-Freed :
    (bs : List ℕ) (d : Disk)
    → ((s : ℕ) → IsBytes (d s))
    → All (InUse (readsb d) d) bs
    → Distinct bs
    → (d' : Disk) × (bfree_all bs d ≡ some d') × Freed (readsb d) bs d d'
unfolding bfree_all
bfree_all-Freed [] d bytes us apart = (
  d,
  refl,
  record { same_sb = refl; bytes = bytes; bits = λ x lt. refl; others = λ s out far. refl },
)
bfree_all-Freed (b ∷ bs) d bytes us apart =
    let (d1, e, f) = bfree-Freed d b bytes us.0 in
    let us1 = rest_InUse (readsb d) d d1 b bs f apart.0 us.1 in
    let (d', runs, g) = bfree_all-Freed bs d1 f.bytes (rw f.same_sb us1) apart.1 in
    (
      d',
      rw (e, bfree_all) runs,
      Freed-cons (readsb d) b bs d d1 d' f (subst (λ sb. Freed sb bs d1 d') f.same_sb g),
    )

pub bfree_all-append :
    (xs ys : List ℕ) (d d1 : Disk)
    → bfree_all xs d ≡ some d1
    → bfree_all (xs ++ ys) d ≡ bfree_all ys d1
unfolding bfree_all
bfree_all-append [] ys d d1 e = cc
bfree_all-append (b ∷ xs) ys d d1 e = elim (Option-cases (bfree d b)) [
  | inl panics ↦ absurd (clash (rw (panics, bfree_all) at e))
  | inr (d2, runs) ↦ rw (runs, bfree_all) (bfree_all-append xs ys d2 d1 (rw (runs, bfree_all) at e))
]
  where
    clash : none ≡ some d1 → ⊥
    clash h = cc
