-- ===== src/Fs/Dir/Scan.antt =====
-- Scans of a table in parts.
use cs537_intro_to_os.Prelude.{
  ℕ, zero, suc, ◌+◌, ◌<◌, ◌≡◌, refl, Bool, true, false, if◌then◌else◌, arith, Option, none, some,
  find_from,
}

-- A scan of a range in two parts.
unfoldable pub or_later : Option ℕ → Option ℕ → Option ℕ
or_later none later = later
or_later (some k) later = some k

pub find_from_split :
    (k m i : ℕ) (test : ℕ → Bool)
    → find_from (k + m) i test ≡ or_later (find_from k i test) (find_from m (i + k) test)
unfolding find_from or_later
find_from_split zero m i test =
    let left : zero + m ≡ m = omega arith in
    let at : i + zero ≡ i = omega arith in rw (left, at) refl
find_from_split (suc k) m i test =
    let step : suc k + m ≡ suc (k + m) = omega arith in
    let at : i + suc k ≡ i + 1 + k = omega arith in
    rw (step, at, find_from, find_from_split k m (i + 1) test) (first (test i))
  where
    first :
        (b : Bool)
        → (if b then some i else or_later (find_from k (i + 1) test) (find_from m (i + 1 + k) test))
          ≡ or_later (if b then some i else find_from k (i + 1) test) (find_from m (i + 1 + k) test)
    first true = refl
    first false = refl

unfoldable pub shifted : ℕ → Option ℕ → Option ℕ
shifted c none = none
shifted c (some k) = some (c + k)

-- A scan from `c + i` on is the scan from `i` on of the test moved by `c`.
pub find_from_shift :
    (k i c : ℕ) (f g : ℕ → Bool)
    → ((x : ℕ) → x < i + k → f (c + x) ≡ g x)
    → find_from k (c + i) f ≡ shifted c (find_from k i g)
unfolding find_from shifted
find_from_shift zero i c f g h = refl
find_from_shift (suc k) i c f g h =
    let here = h i (omega arith) in
    let at : c + i + 1 ≡ c + (i + 1) = omega arith in
    let rest = find_from_shift k (i + 1) c f g (λ x lt. h x (omega arith)) in
    rw (here, at, find_from, rest) (first (g i))
  where
    first :
        (b : Bool)
        → (if b then some (c + i) else shifted c (find_from k (i + 1) g))
          ≡ shifted c (if b then some i else find_from k (i + 1) g)
    first true = refl
    first false = refl
