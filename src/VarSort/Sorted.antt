-- ===== src/VarSort/Sorted.antt =====
-- `quick_sort` sorts.
use cs537_intro_to_os.Prelude.{
  ℕ, zero, suc, ◌+◌, ◌-◌, ◌≤◌, ◌<◌, ◌≡◌, refl, true, false, ◌==◌, ltb, if◌then◌else◌, arith, some,
  Bool-cases, ℕ_discrete, inl, inr, ap, ◌∙◌,
}
use cs537_intro_to_os.VarSort.{Arr, swap, partition, sort_parts, quick_sort}
use cs537_intro_to_os.Tally.{Rearranged, Rearranged-refl, Rearranged-trans, swap-Rearranged}
use cs537_intro_to_os.VarSort.Partition.{Split, partition_start, swap-first, swap-second}
use cs537_intro_to_os.VarSort.Placed.{
  IsSorted, inner, swap-Placed, left-Placed, right-Placed, join-IsSorted,
}

quick_sort-small : (f lo n : ℕ) (a : Arr) → ltb n 2 ≡ true → quick_sort f lo n a ≡ some a
unfolding quick_sort
quick_sort-small zero lo n a e = rw e refl
quick_sort-small (suc f) lo n a e = rw e refl

quick_sort-pair :
    (f lo : ℕ) (a : Arr)
    → quick_sort (suc f) lo 2 a
      ≡ some (if ltb (a (lo + 1)).key (a lo).key then swap lo (lo + 1) a else a)
unfolding quick_sort
quick_sort-pair f lo a = refl

quick_sort-parts :
    (f lo n : ℕ) (a : Arr)
    → 2 < n
    → quick_sort (suc f) lo n a
      ≡ sort_parts (quick_sort f) lo n (partition (n + 1) 0 n lo n (a lo).key a)
unfolding quick_sort
quick_sort-parts f lo n a more =
    let big : ltb n 2 ≡ false = ground arith in
    let three : (n == 2) ≡ false = ground arith in rw (big, three) refl

record Sorts (f lo n : ℕ) (a : Arr) : Type 0 where
  result : Arr
  returns : quick_sort f lo n a ≡ some result
  sorted : IsSorted lo n result
  same : Rearranged lo n a result

pair-Sorts : (f lo : ℕ) (a : Arr) → Sorts (suc f) lo 2 a
pair-Sorts f lo a = elim (Bool-cases (ltb (a (lo + 1)).key (a lo).key)) [
  | inl e ↦ record {
    result = swap lo (lo + 1) a;
    returns = quick_sort-pair f lo a ∙ rw e refl;
    sorted = λ x y lt below.
        let first : lo + x ≡ lo = omega arith in
        let second : lo + y ≡ lo + 1 = omega arith in
        rw (first, second, swap-first lo (lo + 1) a (λ q. omega arith), swap-second lo (lo + 1) a)
          (ground arith);
    same =
        swap-Rearranged lo 2 lo (lo + 1) a (omega arith) (omega arith) (omega arith) (omega arith);
  }
  | inr e ↦ record {
    result = a;
    returns = quick_sort-pair f lo a ∙ rw e refl;
    sorted = λ x y lt below.
        let first : lo + x ≡ lo = omega arith in
        let second : lo + y ≡ lo + 1 = omega arith in rw (first, second) (ground arith);
    same = Rearranged-refl lo 2 a;
  }
]

-- The two calls behind the partition.
parts-Sorts :
    (f lo n : ℕ) (a : Arr)
    → 2 < n
    → (s : Split lo n (a lo).key (n + 1) 0 n a)
    → (left : Sorts f lo s.place (swap lo (lo + s.place) s.left))
    → Sorts f (lo + s.place + 1) (n - s.place - 1) left.result
    → Sorts (suc f) lo n a
parts-Sorts f lo n a more s left right =
    let j = s.place in
    let inside = s.parted.inside in
    let pivot = (a lo).key in
    let a2 = swap lo (lo + j) s.left in
    let placed2 = swap-Placed lo n pivot j s.left s.parted in
    let placed3 = left-Placed lo n pivot j a2 left.result placed2 left.same in
    let placed4 = right-Placed lo n pivot j left.result right.result inside placed3 right.same in
    let swapped =
      swap-Rearranged lo n lo (lo + j) s.left (omega arith) (omega arith) (omega arith)
        (omega (arith, inside)) in
    let on_left : Rearranged lo n a2 left.result =
      inner lo 0 j n a2 left.result (omega (arith, inside))
        (let at : lo + 0 ≡ lo = omega arith in rw at left.same) in
    let on_right : Rearranged lo n left.result right.result =
      inner lo (j + 1) (n - j - 1) n left.result right.result (omega (arith, inside))
        (let at : lo + (j + 1) ≡ lo + j + 1 = omega arith in rw at right.same) in
    record {
      result = right.result;
      returns =
          quick_sort-parts f lo n a more
          ∙ ap (sort_parts (quick_sort f) lo n) s.returns
          ∙ two_calls left.returns right.returns;
      sorted =
          join-IsSorted lo n pivot j right.result placed4
            (λ x y lt below.
              rw
                (right.same.before (lo + x) (omega arith), right.same.before (lo + y) (omega arith))
                (left.sorted x y lt below))
            right.sorted;
      same = Rearranged-trans lo n a s.left right.result s.same (
          Rearranged-trans lo n s.left a2 right.result swapped
            (Rearranged-trans lo n a2 left.result right.result on_left on_right));
    }
  where
    two_calls :
        {b c : Arr}
        → quick_sort f lo s.place (swap lo (lo + s.place) s.left) ≡ some b
        → quick_sort f (lo + s.place + 1) (n - s.place - 1) b ≡ some c
        → sort_parts (quick_sort f) lo n (some (s.place, s.left)) ≡ some c
    two_calls e g = rw (e, sort_parts) g

small-Sorts : (f lo n : ℕ) (a : Arr) → ltb n 2 ≡ true → Sorts f lo n a
small-Sorts f lo n a e = record {
  result = a;
  returns = quick_sort-small f lo n a e;
  sorted = λ x y lt below. absurd (ground arith);
  same = Rearranged-refl lo n a;
}

quick_sort-Sorts : (f lo n : ℕ) (a : Arr) → n ≤ f + 1 → Sorts f lo n a
quick_sort-Sorts zero lo n a fuel = small-Sorts zero lo n a (ground arith)
quick_sort-Sorts (suc f) lo n a fuel = elim (Bool-cases (ltb n 2)) [
  | inl e ↦ small-Sorts (suc f) lo n a e
  | inr e ↦ elim (ℕ_discrete n 2) [
    | yes two ↦ rw two (pair-Sorts f lo a)
    | no ne ↦
        let more : 2 < n = ground arith in
        let s = partition_start lo n a (omega (arith, more)) in
        let inside = s.parted.inside in
        let left =
          quick_sort-Sorts f lo s.place (swap lo (lo + s.place) s.left)
            (omega (arith, fuel, inside)) in
        let right =
          quick_sort-Sorts f (lo + s.place + 1) (n - s.place - 1) left.result
            (omega (arith, fuel, inside)) in
        parts-Sorts f lo n a more s left right
  ]
]

-- With fuel for a depth of `n - 1`, `quick_sort` ends, and leaves the `n` records from `lo` on in an
-- order in which the keys ascend: every test on records counts as many of them as before, and
-- nothing outside the range has changed.
pub quick_sort-IsSorted :
    (f lo n : ℕ) (a : Arr)
    → n ≤ f + 1
    → (b : Arr) × (quick_sort f lo n a ≡ some b) × IsSorted lo n b × Rearranged lo n a b
quick_sort-IsSorted f lo n a fuel =
    let s = quick_sort-Sorts f lo n a fuel in (s.result, s.returns, s.sorted, s.same)
