-- ===== src/Prelude/Loops.antt =====
-- The two loops over a table that the code writes again and again: a scan that stops at the first
-- hit, and a pass that treats every slot.
use Prim.Native.Nat.{ℕ, zero, suc, ◌+◌, ◌≤◌, ◌<◌}
use mathlib.Core.Path.{◌≡◌, refl}
use mathlib.Core.Bool.{Bool, true, false, ◌&&◌}
use mathlib.Core.Option.{Option, none, some}
use native.Mathlib.Omega.{arith}
use mathlib.Core.Logic.{inl, inr}
use cs537_intro_to_os.Prelude.Tests.{if◌then◌else◌, Bool-cases, Option-cases, ltb, leb, ◌==◌}
use cs537_intro_to_os.Prelude.Update.{update}

-- `for(; i < end; i++) if(test(i)) goto found;` with `end - i` rounds left
unfoldable pub find_from : (rounds i : ℕ) → (ℕ → Bool) → Option ℕ
find_from zero i test = none
find_from (suc k) i test = let rest = find_from k (i + 1) test in if test i then some i else rest

-- The index found passes the test and lies in the range, and nothing before it passes.
pub record IsFirst (test : ℕ → Bool) (lo hi j : ℕ) : Type 0 where
  pub from : lo ≤ j
  pub below : j < hi
  pub passes : test j ≡ true
  pub first : (x : ℕ) → lo ≤ x → x < j → test x ≡ false

extend :
    (test : ℕ → Bool) (i j : ℕ)
    → test i ≡ false
    → ((x : ℕ) → i + 1 ≤ x → x < j → test x ≡ false)
    → (x : ℕ) → i ≤ x
    → x < j
    → test x ≡ false
extend test i j miss h x lo hi = grind (arith, h x)

pub find_from-some :
    (k i : ℕ) (test : ℕ → Bool) {j : ℕ} → find_from k i test ≡ some j → IsFirst test i (i + k) j
unfolding find_from
find_from-some zero i test h = cc
find_from-some (suc k) i test {j} h = elim (Bool-cases (test i)) [
  | inl hit ↦
      let here : i ≡ j = ground arith in
      record {
        from = omega arith;
        below = omega arith;
        passes = rw (← here) hit;
        first = λ x lo lt. absurd (omega arith);
      }
  | inr miss ↦
      let later : IsFirst test (i + 1) (i + 1 + k) j =
        find_from-some k (i + 1) test (ground arith) in
      record {
        from = omega arith;
        below = omega arith;
        passes = later.passes;
        first = extend test i j miss later.first;
      }
]

pub find_from-none :
    (k i : ℕ) (test : ℕ → Bool)
    → find_from k i test ≡ none
    → (x : ℕ) → i ≤ x
    → x < i + k
    → test x ≡ false
unfolding find_from
find_from-none zero i test h x lo hi = absurd (omega arith)
find_from-none (suc k) i test h x lo hi =
    grind (arith, λ (e : find_from k (i + 1) test ≡ none). find_from-none k (i + 1) test e x)

-- `for(; i < end; i++) body(i);`
unfoldable pub for_each {ℓ} : {S : Type ℓ} → (rounds i : ℕ) → (ℕ → S → S) → S → S
for_each zero i body s = s
for_each (suc k) i body s = for_each k (i + 1) body (body i s)

-- The loop up to a round, that round, and the rounds after it.
pub for_each-split {ℓ} :
    {S : Type ℓ} (body : ℕ → S → S) (m k i : ℕ) (s : S)
    → for_each (m + suc k) i body s
      ≡ for_each k (i + m + 1) body (body (i + m) (for_each m i body s))
unfolding for_each
for_each-split body zero k i s =
    let step : zero + suc k ≡ suc k = omega arith in
    let at : i + zero ≡ i = omega arith in rw (step, at, for_each) refl
for_each-split body (suc m) k i s =
    let step : suc m + suc k ≡ suc (m + suc k) = omega arith in
    let at : i + suc m ≡ i + 1 + m = omega arith in
    rw (step, at, for_each) (for_each-split body m k (i + 1) (body i s))

-- What every round keeps, the loop keeps.
pub for_each-inv {ℓ κ} :
    {S : Type ℓ} (P : S → Type κ) (body : ℕ → S → S)
    → ((i : ℕ) (s : S) → P s → P (body i s))
    → (k i : ℕ) (s : S) → P s
    → P (for_each k i body s)
unfolding for_each
for_each-inv P body keep zero i s p = p
for_each-inv P body keep (suc k) i s p = for_each-inv P body keep k (i + 1) (body i s) (keep i s p)

-- A pass that treats each slot by itself.
abbrev pub for_slots {ℓ} : {A : Type ℓ} → (rounds i : ℕ) → (A → A) → (ℕ → A) → ℕ → A
for_slots k i f = for_each k i (λ j s. update s j (f (s j)))

pub for_slots-at {ℓ} :
    {A : Type ℓ} (k i : ℕ) (f : A → A) (s : ℕ → A) (x : ℕ)
    → for_slots k i f s x ≡ (if leb i x && ltb x (i + k) then f (s x) else s x)
unfolding for_each
for_slots-at zero i f s x = ground arith
for_slots-at (suc k) i f s x = ground (arith, for_slots-at k (i + 1) f (update s i (f (s i))) x)

-- The two ways round: what a scan returns, from what is in the range.
pub find_from-hit :
    (k i : ℕ) (test : ℕ → Bool) (x : ℕ)
    → i ≤ x
    → x < i + k
    → test x ≡ true
    → (j : ℕ) × (find_from k i test ≡ some j) × IsFirst test i (i + k) j
find_from-hit k i test x lo hi e = elim (Option-cases (find_from k i test)) [
  | inl miss ↦ absurd (clash _ e (find_from-none k i test miss x lo hi))
  | inr (j, found) ↦ (j, found, find_from-some k i test found)
]
  where
    clash : (b : Bool) → b ≡ true → b ≡ false → ⊥
    clash b f g = cc

pub find_from-miss :
    (k i : ℕ) (test : ℕ → Bool)
    → ((x : ℕ) → i ≤ x → x < i + k → test x ≡ false)
    → find_from k i test ≡ none
find_from-miss k i test h = elim (Option-cases (find_from k i test)) [
  | inl miss ↦ miss
  | inr (j, found) ↦
      let first : IsFirst test i (i + k) j = find_from-some k i test found in
      absurd (clash _ first.passes (h j first.from first.below))
]
  where
    clash : (b : Bool) → b ≡ true → b ≡ false → ⊥
    clash b f g = cc

-- Tests that agree in the range find the same.
pub find_from-cong :
    (k i : ℕ) (f g : ℕ → Bool) → ((x : ℕ) → i ≤ x → f x ≡ g x) → find_from k i f ≡ find_from k i g
unfolding find_from
find_from-cong zero i f g h = ground arith
find_from-cong (suc k) i f g h =
    ground (arith, h i (omega arith), find_from-cong k (i + 1) f g (λ x lo. h x (omega arith)))

-- A pass over a table that is part of a larger state: if each round treats its own slot by `f`, the
-- pass treats each slot of its range once.
pub for_each-slots {ℓ κ} :
    {S : Type ℓ} {A : Type κ} (table : S → ℕ → A) (body : ℕ → S → S) (f : A → A)
    → ((i : ℕ) (s : S) (x : ℕ) → table (body i s) x ≡ (if x == i then f (table s i) else table s x))
    → (k i : ℕ) (s : S) (x : ℕ)
    → table (for_each k i body s) x
      ≡ (if leb i x && ltb x (i + k) then f (table s x) else table s x)
unfolding for_each
for_each-slots table body f own zero i s x = ground arith
for_each-slots table body f own (suc k) i s x =
    ground (arith, own i s x, for_each-slots table body f own k (i + 1) (body i s) x)
