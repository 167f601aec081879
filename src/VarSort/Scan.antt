-- ===== src/VarSort/Scan.antt =====
-- Where the two scans of `quick_sort` stop.
use cs537_intro_to_os.Prelude.{
  ℕ, zero, suc, ◌+◌, ◌-◌, ◌≤◌, ◌<◌, ◌≡◌, false, ◌&&◌, ltb, arith, Bool-cases, ℕ_discrete, inl, inr,
}
use cs537_intro_to_os.VarSort.{Arr, scan_up, scan_down}

-- Where the scan from the left stops: at the last place, or at a key that is not below the pivot.
pub record Up (lo n pivot i : ℕ) (a : Arr) (i' : ℕ) : Type 0 where
  pub later : i < i'
  pub inside : i' < n
  pub low : (x : ℕ) → i < x → x < i' → (a (lo + x)).key < pivot
  pub stop : i' < n - 1 → pivot ≤ (a (lo + i')).key

Up-extend :
    (lo n pivot i : ℕ) (a : Arr) (i' : ℕ)
    → (a (lo + (i + 1))).key < pivot
    → Up lo n pivot (i + 1) a i'
    → Up lo n pivot i a i'
Up-extend lo n pivot i a i' here up = record {
  later = omega (arith, up.later);
  inside = up.inside;
  low = λ x from below. elim (ℕ_discrete x (i + 1)) [
    | yes e ↦ rw e here
    | no ne ↦ up.low x (omega arith) below
  ];
  stop = up.stop;
}

pub scan_up-Up :
    (k i lo n pivot : ℕ) (a : Arr)
    → i + 1 < n
    → n ≤ i + 1 + k
    → Up lo n pivot i a (scan_up k i lo n pivot a)
unfolding scan_up
scan_up-Up zero i lo n pivot a inside rounds = absurd (omega arith)
scan_up-Up (suc k) i lo n pivot a inside rounds =
    elim (Bool-cases (ltb (a (lo + (i + 1))).key pivot && ltb (i + 1) (n - 1))) [
      | inl go ↦
          let lt : (a (lo + (i + 1))).key < pivot = ground arith in
          let room : i + 1 < n - 1 = ground arith in
          rw (go, scan_up)
            (Up-extend lo n pivot i a _ lt
              (scan_up-Up k (i + 1) lo n pivot a (omega arith) (omega arith)))
      | inr halt ↦
          rw (halt, scan_up)
            (record {
              later = omega arith;
              inside = inside;
              low = λ x from below. absurd (omega arith);
              stop = λ lt. ground arith;
            })
    ]

-- Where the scan from the right stops: at the first place, or at a key that is not above the pivot.
pub record Down (lo pivot j : ℕ) (a : Arr) (j' : ℕ) : Type 0 where
  pub earlier : j' < j
  pub high : (x : ℕ) → j' < x → x < j → pivot < (a (lo + x)).key
  pub stop : 0 < j' → (a (lo + j')).key ≤ pivot

Down-extend :
    (lo pivot j : ℕ) (a : Arr) (j' : ℕ)
    → pivot < (a (lo + j)).key
    → Down lo pivot j a j'
    → Down lo pivot (suc j) a j'
Down-extend lo pivot j a j' here down = record {
  earlier = omega (arith, down.earlier);
  high = λ x from below. elim (ℕ_discrete x j) [
    | yes e ↦ rw e here
    | no ne ↦ down.high x from (omega arith)
  ];
  stop = down.stop;
}

pub scan_down-Down :
    (j lo pivot : ℕ) (a : Arr) → Down lo pivot (suc j) a (scan_down (suc j) lo pivot a)
unfolding scan_down
scan_down-Down zero lo pivot a =
    let halt : (ltb pivot (a (lo + 0)).key && ltb 0 0) ≡ false = ground arith in
    rw (halt, scan_down)
      (record {
        earlier = omega arith;
        high = λ x from below. absurd (omega arith);
        stop = λ lt. absurd (omega arith);
      })
scan_down-Down (suc j) lo pivot a =
    elim (Bool-cases (ltb pivot (a (lo + suc j)).key && ltb 0 (suc j))) [
      | inl go ↦
          let lt : pivot < (a (lo + suc j)).key = ground arith in
          rw (go, scan_down) (Down-extend lo pivot (suc j) a _ lt (scan_down-Down j lo pivot a))
      | inr halt ↦
          rw (halt, scan_down)
            (record {
              earlier = omega arith;
              high = λ x from below. absurd (omega arith);
              stop = λ lt. ground arith;
            })
    ]
