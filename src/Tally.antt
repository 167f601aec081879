-- ===== src/Tally.antt =====
-- Arrays with the same elements in a range: every test counts as many of them.
use cs537_intro_to_os.Prelude.{
  ℕ, zero, suc, ◌+◌, ◌≤◌, ◌<◌, ◌≡◌, refl, Bool, true, false, not, if◌then◌else◌, arith, update,
  update_self, update_ne, ℕ_discrete, ap, sym, ◌∙◌,
}

abbrev pub one_if : Bool → ℕ
one_if b = if b then 1 else 0

one_if-bound : (b : Bool) → one_if b ≤ 1
one_if-bound b = ground arith

module _ {ℓ} {A : Type ℓ} where
  -- How many of the `n` elements from `lo` on pass the test.
  unfoldable pub tally : (p : A → Bool) → (lo n : ℕ) → (ℕ → A) → ℕ
  tally p lo zero a = 0
  tally p lo (suc n) a = one_if (p (a lo)) + tally p (lo + 1) n a

  pub tally-cong :
      (p : A → Bool) (lo n : ℕ) (a b : ℕ → A)
      → ((x : ℕ) → lo ≤ x → x < lo + n → a x ≡ b x)
      → tally p lo n a ≡ tally p lo n b
  unfolding tally
  tally-cong p lo zero a b same = refl
  tally-cong p lo (suc n) a b same =
      let here = same lo (omega arith) (omega arith) in
      let rest = tally-cong p (lo + 1) n a b λ x from below. same x (omega arith) (omega arith) in
      rw (here, rest) refl

  pub tally-split :
      (p : A → Bool) (m n lo : ℕ) (a : ℕ → A)
      → tally p lo (m + n) a ≡ tally p lo m a + tally p (lo + m) n a
  unfolding tally
  tally-split p zero n lo a =
      let left : zero + n ≡ n = omega arith in
      let at : lo + zero ≡ lo = omega arith in rw (left, at) (omega arith)
  tally-split p (suc m) n lo a =
      let step : suc m + n ≡ suc (m + n) = omega arith in
      let at : lo + suc m ≡ lo + 1 + m = omega arith in
      let rest = tally-split p m n (lo + 1) a in rw (step, at, tally) (omega (arith, rest))

  pub tally-bound : (p : A → Bool) (lo n : ℕ) (a : ℕ → A) → tally p lo n a ≤ n
  unfolding tally
  tally-bound p lo zero a = omega arith
  tally-bound p lo (suc n) a =
      let rest = tally-bound p (lo + 1) n a in
      let here = one_if-bound (p (a lo)) in omega (arith, rest, here)

  -- One element of the range is replaced.
  pub tally-update :
      (p : A → Bool) (lo n : ℕ) (a : ℕ → A) (i : ℕ) (v : A)
      → lo ≤ i
      → i < lo + n
      → tally p lo n (update a i v) + one_if (p (a i)) ≡ tally p lo n a + one_if (p v)
  unfolding tally
  tally-update p lo zero a i v from below = absurd (omega arith)
  tally-update p lo (suc n) a i v from below = elim (ℕ_discrete lo i) [
    | yes e ↦
        let rest =
          tally-cong p (lo + 1) n (update a i v) a
            λ x later lt. update_ne a i v x (λ q. omega arith) in
        let here : update a i v lo ≡ v = rw e (update_self a i v) in
        let old : a i ≡ a lo = ap a (sym e) in rw (here, rest, old) (omega arith)
    | no ne ↦
        let here = update_ne a i v lo ne in
        let rest = tally-update p (lo + 1) n a i v (omega arith) (omega arith) in
        rw here (omega (arith, rest))
  ]

  -- No element is counted exactly when none passes.
  pub tally-none :
      (p : A → Bool) (lo n : ℕ) (a : ℕ → A)
      → ((x : ℕ) → lo ≤ x → x < lo + n → p (a x) ≡ false)
      → tally p lo n a ≡ 0
  unfolding tally
  tally-none p lo zero a h = refl
  tally-none p lo (suc n) a h =
      let here = h lo (omega arith) (omega arith) in
      let rest = tally-none p (lo + 1) n a (λ x from below. h x (omega arith) (omega arith)) in
      rw here (omega (arith, rest))

  pub none-tally :
      (p : A → Bool) (lo n : ℕ) (a : ℕ → A)
      → tally p lo n a ≡ 0
      → (x : ℕ) → lo ≤ x
      → x < lo + n
      → p (a x) ≡ false
  unfolding tally
  none-tally p lo zero a e x from below = absurd (omega arith)
  none-tally p lo (suc n) a e x from below = elim (ℕ_discrete lo x) [
    | yes q ↦ rw (← q) (off (p (a lo)) (omega (arith, e)))
    | no ne ↦ none-tally p (lo + 1) n a (omega (arith, e)) x (omega arith) (omega arith)
  ]
    where
      off : (b : Bool) → one_if b ≡ 0 → b ≡ false
      off b h = ground arith

module _ {ℓ} {A : Type ℓ} where
  -- `b` is `a` with the `n` elements from `lo` on in another order.
  pub record Rearranged (lo n : ℕ) (a b : ℕ → A) : Type ℓ where
    pub tallies : (p : A → Bool) → tally p lo n b ≡ tally p lo n a
    pub before : (x : ℕ) → x < lo → b x ≡ a x
    pub behind : (x : ℕ) → lo + n ≤ x → b x ≡ a x

  pub Rearranged-refl : (lo n : ℕ) (a : ℕ → A) → Rearranged lo n a a
  Rearranged-refl lo n a = record {
    tallies = λ p. refl;
    before = λ x lt. refl;
    behind = λ x le. refl;
  }

  pub Rearranged-trans :
      (lo n : ℕ) (a b c : ℕ → A) → Rearranged lo n a b → Rearranged lo n b c → Rearranged lo n a c
  Rearranged-trans lo n a b c r s = record {
    tallies = λ p. s.tallies p ∙ r.tallies p;
    before = λ x lt. s.before x lt ∙ r.before x lt;
    behind = λ x le. s.behind x le ∙ r.behind x le;
  }

  -- A range in three parts.
  three_parts :
      (p : A → Bool) (lo k m n : ℕ) (a : ℕ → A)
      → tally p lo (k + (m + n)) a
        ≡ tally p lo k a + (tally p (lo + k) m a + tally p (lo + k + m) n a)
  three_parts p lo k m n a =
      let first = tally-split p k (m + n) lo a in
      let second = tally-split p m n (lo + k) a in omega (arith, first, second)

  -- What is rearranged inside a part is rearranged inside the whole.
  pub Rearranged-widen :
      (lo k m n : ℕ) (a b : ℕ → A) → Rearranged (lo + k) m a b → Rearranged lo (k + (m + n)) a b
  Rearranged-widen lo k m n a b r = record {
    tallies = λ p.
        let front = tally-cong p lo k b a (λ x from below. r.before x below) in
        let back = tally-cong p (lo + k + m) n b a (λ x from below. r.behind x from) in
        let middle = r.tallies p in
        let new = three_parts p lo k m n b in
        let old = three_parts p lo k m n a in omega (arith, front, back, middle, new, old);
    before = λ x lt. r.before x (omega arith);
    behind = λ x le. r.behind x (omega arith);
  }

  -- A swap inside the range.
  pub swap-Rearranged :
      (lo n i j : ℕ) (a : ℕ → A)
      → lo ≤ i
      → i < lo + n
      → lo ≤ j
      → j < lo + n
      → Rearranged lo n a (update (update a i (a j)) j (a i))
  swap-Rearranged lo n i j a i_from i_below j_from j_below =
      let b = update a i (a j) in
      record {
        tallies = λ p.
            let first = tally-update p lo n a i (a j) i_from i_below in
            let second = tally-update p lo n b j (a i) j_from j_below in
            let same : one_if (p (b j)) ≡ one_if (p (a j)) = ap (λ r. one_if (p r)) (at_j a i j) in
            omega (arith, first, second, same);
        before = λ x lt.
            update_ne b j (a i) x (λ e. omega arith) ∙ update_ne a i (a j) x (λ e. omega arith);
        behind = λ x le.
            update_ne b j (a i) x (λ e. omega arith) ∙ update_ne a i (a j) x (λ e. omega arith);
      }
    where
      at_j : (a : ℕ → A) (i j : ℕ) → update a i (a j) j ≡ a j
      at_j a i j = elim (ℕ_discrete j i) [
        | yes e ↦ rw e (update_self a i (a i))
        | no ne ↦ update_ne a i (a j) j ne
      ]

  -- What holds of all elements of a range holds of them in any order.
  pub Rearranged-all :
      (q : A → Bool) (lo n : ℕ) (a b : ℕ → A)
      → Rearranged lo n a b
      → ((x : ℕ) → lo ≤ x → x < lo + n → q (a x) ≡ true)
      → (x : ℕ) → lo ≤ x
      → x < lo + n
      → q (b x) ≡ true
  Rearranged-all q lo n a b r all x from below =
      let p = λ (v : A). not (q v) in
      let none = tally-none p lo n a (λ y f g. flip (q (a y)) (all y f g)) in
      back (q (b x)) (none-tally p lo n b (r.tallies p ∙ none) x from below)
    where
      flip : (b : Bool) → b ≡ true → not b ≡ false
      flip b e = ground arith

      back : (b : Bool) → not b ≡ false → b ≡ true
      back true e = refl
      back false e = cc
