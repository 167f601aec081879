-- ===== src/VarSort/Partition.antt =====
-- The outer loop of `quick_sort` parts an array at its pivot.
use cs537_intro_to_os.Prelude.{
  ℕ, zero, suc, ◌+◌, ◌≤◌, ◌<◌, ◌≡◌, ◌≢◌, refl, true, false, ltb, if◌then◌else◌, arith, update,
  update_self, update_ne, some, Bool-cases, ℕ_discrete, inl, inr, ap, ◌∙◌,
}
use cs537_intro_to_os.VarSort.{Arr, swap, scan_up, scan_down, partition}
use cs537_intro_to_os.Tally.{Rearranged, Rearranged-refl, Rearranged-trans, swap-Rearranged}
use cs537_intro_to_os.VarSort.Scan.{Up, scan_up-Up, Down, scan_down-Down}

-- Where a swap leaves things.
pub swap-first : (i j : ℕ) (a : Arr) → i ≢ j → swap i j a i ≡ a j
swap-first i j a ne = update_ne (update a i (a j)) j (a i) i ne ∙ update_self a i (a j)

pub swap-second : (i j : ℕ) (a : Arr) → swap i j a j ≡ a i
swap-second i j a = update_self (update a i (a j)) j (a i)

pub swap-other : (i j : ℕ) (a : Arr) (x : ℕ) → x ≢ i → x ≢ j → swap i j a x ≡ a x
swap-other i j a x ni nj = update_ne (update a i (a j)) j (a i) x nj ∙ update_ne a i (a j) x ni

-- The array between two rounds of the outer loop.
record Head (lo n pivot i j : ℕ) (a : Arr) : Type 0 where
  room : i + 1 < n
  ends : j ≤ n
  at_pivot : (a lo).key ≡ pivot
  low : (x : ℕ) → 0 < x → x ≤ i → (a (lo + x)).key ≤ pivot
  high : (x : ℕ) → j ≤ x → x < n → pivot ≤ (a (lo + x)).key

-- The array behind the loop: up to place `j` no key is above the pivot, and behind it none is below.
pub record Parted (lo n pivot j : ℕ) (a : Arr) : Type 0 where
  pub inside : j < n
  pub at_pivot : (a lo).key ≡ pivot
  pub low : (x : ℕ) → 0 < x → x ≤ j → (a (lo + x)).key ≤ pivot
  pub high : (x : ℕ) → j < x → x < n → pivot ≤ (a (lo + x)).key

module _ (lo n pivot i j : ℕ) (a : Arr) (i' j' : ℕ) (h : Head lo n pivot i j a)
    (up : Up lo n pivot i a i') (down : Down lo pivot j a j') where
  scanned_low : (x : ℕ) → 0 < x → x < i' → (a (lo + x)).key ≤ pivot
  scanned_low x pos below = elim (Bool-cases (ltb i x)) [
    | inl e ↦ let r = up.low x (ground arith) below in omega (arith, r)
    | inr e ↦ h.low x pos (ground arith)
  ]

  scanned_high : (x : ℕ) → j' < x → x < n → pivot ≤ (a (lo + x)).key
  scanned_high x from below = elim (Bool-cases (ltb x j)) [
    | inl e ↦ let r = down.high x from (ground arith) in omega (arith, r)
    | inr e ↦ h.high x (ground arith) below
  ]

  crossed-Parted : j' ≤ i' → Parted lo n pivot j' a
  crossed-Parted cross = record {
    inside = let e = down.earlier in let f = h.ends in omega (arith, e, f);
    at_pivot = h.at_pivot;
    low = λ x pos below. elim (ℕ_discrete x j') [
      | yes e ↦ rw e (down.stop (omega arith))
      | no ne ↦ scanned_low x pos (omega arith)
    ];
    high = scanned_high;
  }

  module _ (apart : i' < j') where
    swapped-Head : Head lo n pivot i' j' (swap (lo + i') (lo + j') a)
    swapped-Head =
        let later = up.later in
        let earlier = down.earlier in
        let ends = h.ends in
        record {
          room = omega (arith, apart, earlier, ends);
          ends = omega (arith, earlier, ends);
          at_pivot =
              ap (λ r. r.key)
                (swap-other (lo + i') (lo + j') a lo (λ e. omega (arith, later))
                  (λ e. omega (arith, later)))
              ∙ h.at_pivot;
          low = λ x pos below. elim (ℕ_discrete x i') [
            | yes e ↦
                rw (e, swap-first (lo + i') (lo + j') a (λ q. omega (arith, apart)))
                  (down.stop (omega (arith, apart)))
            | no ne ↦
                rw (swap-other (lo + i') (lo + j') a (lo + x) (λ q. omega arith) (λ q. omega arith))
                  (scanned_low x pos (omega arith))
          ];
          high = λ x from below. elim (ℕ_discrete x j') [
            | yes e ↦
                rw (e, swap-second (lo + i') (lo + j') a)
                  (up.stop (omega (arith, apart, earlier, ends)))
            | no ne ↦
                rw (swap-other (lo + i') (lo + j') a (lo + x) (λ q. omega arith) (λ q. omega arith))
                  (scanned_high x (omega arith) below)
          ];
        }

partition-ends :
    (k i j lo n pivot : ℕ) (a : Arr)
    → ltb i j ≡ false
    → partition (suc k) i j lo n pivot a ≡ some (j, a)
unfolding partition
partition-ends k i j lo n pivot a e = rw e refl

partition-goes :
    (k i j lo n pivot : ℕ) (a : Arr)
    → ltb i j ≡ true
    → let i' = scan_up n i lo n pivot a in
      let j' = scan_down j lo pivot a in
      partition (suc k) i j lo n pivot a
      ≡ partition k i' j' lo n pivot (if ltb i' j' then swap (lo + i') (lo + j') a else a)
unfolding partition
partition-goes k i j lo n pivot a e = rw e refl

-- What the outer loop gives.
pub record Split (lo n pivot k i j : ℕ) (a : Arr) : Type 0 where
  pub place : ℕ
  pub left : Arr
  pub returns : partition k i j lo n pivot a ≡ some (place, left)
  pub parted : Parted lo n pivot place left
  pub same : Rearranged lo n a left

Split-goes :
    (k i j lo n pivot : ℕ) (a : Arr)
    → ltb i j ≡ true
    → let i' = scan_up n i lo n pivot a in
      let j' = scan_down j lo pivot a in
      let a' = if ltb i' j' then swap (lo + i') (lo + j') a else a in
      Rearranged lo n a a' → Split lo n pivot k i' j' a' → Split lo n pivot (suc k) i j a
Split-goes k i j lo n pivot a e r s = record {
  place = s.place;
  left = s.left;
  returns = partition-goes k i j lo n pivot a e ∙ s.returns;
  parted = s.parted;
  same = Rearranged-trans lo n a _ s.left r s.same;
}

-- The loop ends, and parts the array.
partition-Split :
    (k i j lo n pivot : ℕ) (a : Arr)
    → Head lo n pivot i j a
    → i < j
    → n + 1 ≤ i + k
    → Split lo n pivot k i j a
partition-Split zero i j lo n pivot a h lt rounds = let r = h.room in absurd (omega (arith, r))
partition-Split (suc k) i zero lo n pivot a h lt rounds = absurd (omega arith)
partition-Split (suc k) i (suc j) lo n pivot a h lt rounds =
    let i' = scan_up n i lo n pivot a in
    let j' = scan_down (suc j) lo pivot a in
    let up = scan_up-Up n i lo n pivot a h.room (omega arith) in
    let down = scan_down-Down j lo pivot a in
    let later = up.later in
    let earlier = down.earlier in
    let goes : ltb i (suc j) ≡ true = ground arith in
    elim (Bool-cases (ltb i' j')) [
      | inl apart ↦
          let near : i' < j' = ground arith in
          let ends = h.ends in
          let r =
            swap-Rearranged lo n (lo + i') (lo + j') a (omega arith)
              (omega (arith, near, earlier, ends)) (omega arith) (omega (arith, earlier, ends)) in
          let next =
            partition-Split k i' j' lo n pivot (swap (lo + i') (lo + j') a)
              (swapped-Head lo n pivot i (suc j) a i' j' h up down near) near
              (omega (arith, later)) in
          Split-goes k i (suc j) lo n pivot a goes (rw apart r) (rw apart next)
      | inr cross ↦ Split-goes k i (suc j) lo n pivot a goes (rw cross (Rearranged-refl lo n a)) (
          rw cross (
            ended k (omega (arith, rounds, h.room)) i' j' cross
              (crossed-Parted lo n pivot i (suc j) a i' j' h up down (ground arith))))
    ]
  where
    ended :
        (k : ℕ)
        → 0 < k
        → (i' j' : ℕ) → ltb i' j' ≡ false
        → Parted lo n pivot j' a
        → Split lo n pivot k i' j' a
    ended zero pos i' j' cross p = absurd (omega arith)
    ended (suc k) pos i' j' cross p = record {
      place = j';
      left = a;
      returns = partition-ends k i' j' lo n pivot a cross;
      parted = p;
      same = Rearranged-refl lo n a;
    }

pub partition_start : (lo n : ℕ) (a : Arr) → 1 < n → Split lo n (a lo).key (n + 1) 0 n a
partition_start lo n a two =
    partition-Split (n + 1) 0 n lo n (a lo).key a
      (record {
        room = omega arith;
        ends = omega arith;
        at_pivot = refl;
        low = λ x pos below. absurd (omega arith);
        high = λ x from below. absurd (omega arith);
      })
      (omega arith) (omega arith)
