-- ===== src/VarSort/Placed.antt =====
-- The array once the pivot is at its place.
use cs537_intro_to_os.Prelude.{
  ℕ, ◌+◌, ◌-◌, ◌≤◌, ◌<◌, ◌≡◌, ltb, leb, arith, Bool-cases, ℕ_discrete, inl, inr, ap, ◌∙◌, subst,
}
use cs537_intro_to_os.VarSort.{Arr, swap}
use cs537_intro_to_os.Tally.{Rearranged, Rearranged-widen, Rearranged-all}
use cs537_intro_to_os.VarSort.Partition.{Parted, swap-first, swap-second, swap-other}

-- The keys of the `n` records from `lo` on ascend.
abbrev pub IsSorted : (lo n : ℕ) → Arr → Type 0
IsSorted lo n a = (x y : ℕ) → x < y → y < n → (a (lo + x)).key ≤ (a (lo + y)).key

-- A part of the range is rearranged.
pub inner : (lo k m n : ℕ) (a b : Arr) → k + m ≤ n → Rearranged (lo + k) m a b → Rearranged lo n a b
inner lo k m n a b fits r =
    let whole : k + (m + (n - (k + m))) ≡ n = omega arith in
    subst (λ n. Rearranged lo n a b) whole (Rearranged-widen lo k m (n - (k + m)) a b r)

-- The pivot is at its place `j`, and no key before it is above it, none behind it below.
pub record Placed (lo n pivot j : ℕ) (a : Arr) : Type 0 where
  at_place : (a (lo + j)).key ≡ pivot
  low : (x : ℕ) → x < j → (a (lo + x)).key ≤ pivot
  high : (x : ℕ) → j < x → x < n → pivot ≤ (a (lo + x)).key

pub swap-Placed :
    (lo n pivot j : ℕ) (a : Arr) → Parted lo n pivot j a → Placed lo n pivot j (swap lo (lo + j) a)
swap-Placed lo n pivot j a p = record {
  at_place = ap (λ r. r.key) (swap-second lo (lo + j) a) ∙ p.at_pivot;
  low = λ x below. elim (ℕ_discrete x 0) [
    | yes e ↦
        let at : lo + x ≡ lo = omega arith in
        rw (at, swap-first lo (lo + j) a (λ q. omega arith)) (p.low j (omega arith) (omega arith))
    | no ne ↦
        rw (swap-other lo (lo + j) a (lo + x) (λ q. omega arith) (λ q. omega arith))
          (p.low x (omega arith) (omega arith))
  ];
  high = λ x from below.
      rw (swap-other lo (lo + j) a (lo + x) (λ q. omega arith) (λ q. omega arith))
        (p.high x from below);
}

-- Sorting the part before the place keeps it.
pub left-Placed :
    (lo n pivot j : ℕ) (a b : Arr)
    → Placed lo n pivot j a
    → Rearranged lo j a b
    → Placed lo n pivot j b
left-Placed lo n pivot j a b p r = record {
  at_place = ap (λ r. r.key) (r.behind (lo + j) (omega arith)) ∙ p.at_place;
  low = λ x below.
      let q =
        Rearranged-all (λ r. leb r.key pivot) lo j a b r
          (λ y from lt.
            let at : lo + (y - lo) ≡ y = omega arith in
            let le = subst (λ z. (a z).key ≤ pivot) at (p.low (y - lo) (omega arith)) in
            ground arith)
          (lo + x) (omega arith) (omega arith) in
      ground arith;
  high = λ x from below. rw (r.behind (lo + x) (omega arith)) (p.high x from below);
}

-- Sorting the part behind it keeps it.
pub right-Placed :
    (lo n pivot j : ℕ) (a b : Arr)
    → j < n
    → Placed lo n pivot j a
    → Rearranged (lo + j + 1) (n - j - 1) a b
    → Placed lo n pivot j b
right-Placed lo n pivot j a b inside p r = record {
  at_place = ap (λ r. r.key) (r.before (lo + j) (omega arith)) ∙ p.at_place;
  low = λ x below. rw (r.before (lo + x) (omega arith)) (p.low x below);
  high = λ x from below.
      let q =
        Rearranged-all (λ r. leb pivot r.key) (lo + j + 1) (n - j - 1) a b r
          (λ y lt above.
            let at : lo + (y - lo) ≡ y = omega arith in
            let le =
              subst (λ z. pivot ≤ (a z).key) at (p.high (y - lo) (omega arith) (omega arith)) in
            ground arith)
          (lo + x) (omega arith) (omega arith) in
      ground arith;
}

-- Two sorted parts with the pivot between them.
pub join-IsSorted :
    (lo n pivot j : ℕ) (a : Arr)
    → Placed lo n pivot j a
    → IsSorted lo j a
    → IsSorted (lo + j + 1) (n - j - 1) a
    → IsSorted lo n a
join-IsSorted lo n pivot j a p left right x y lt below = elim (Bool-cases (ltb y j)) [
  | inl e ↦ left x y lt (ground arith)
  | inr e ↦ elim (Bool-cases (ltb j x)) [
    | inl f ↦
        let behind : j < x = ground arith in
        let at_x : lo + j + 1 + (x - j - 1) ≡ lo + x = omega arith in
        let at_y : lo + j + 1 + (y - j - 1) ≡ lo + y = omega arith in
        rw (at_x, at_y) at (right (x - j - 1) (y - j - 1) (omega arith) (omega arith))
    | inr f ↦
        let early : x ≤ j = ground arith in
        let late : j ≤ y = ground arith in omega (arith, up_to x early, from y late below)
  ]
]
  where
    up_to : (x : ℕ) → x ≤ j → (a (lo + x)).key ≤ pivot
    up_to x early = elim (ℕ_discrete x j) [
      | yes e ↦ let q = p.at_place in rw e (omega (arith, q))
      | no ne ↦ p.low x (omega arith)
    ]

    from : (y : ℕ) → j ≤ y → y < n → pivot ≤ (a (lo + y)).key
    from y late below = elim (ℕ_discrete y j) [
      | yes e ↦ let q = p.at_place in rw e (omega (arith, q))
      | no ne ↦ p.high y (omega arith) below
    ]
