-- ===== src/Prelude/Bits.antt =====
-- Laws of the bit operations on bytes, each checked on every value.
use Prim.Native.Nat.{ℕ, zero, suc, ◌-◌, ◌^◌, ◌<◌, bit_and, bit_or, bit_xor}
use mathlib.Core.Path.{◌≡◌, refl}
use mathlib.Core.Bool.{Bool, true, ◌&&◌, false}
use native.Mathlib.Omega.{arith}
use cs537_intro_to_os.Prelude.Tests.{◌==◌, ltb, if◌then◌else◌}

-- `law` holds of 0, …, `size - 1`.
tabulated : (law : ℕ → Bool) → (size : ℕ) → Bool
tabulated law zero = true
tabulated law (suc top) = tabulated law top && law top

tabulated-at : (law : ℕ → Bool) (v size : ℕ) → v < size → tabulated law size ≡ true → law v ≡ true
unfolding tabulated
tabulated-at law v zero inside holds = absurd (omega arith)
tabulated-at law v (suc top) inside holds = ground (arith, tabulated-at law v top)

-- One bit of a byte: `v & (1 << k)` is zero.
abbrev pub clear_at : (v k : ℕ) → Bool
clear_at v k = bit_and v (2 ^ k) == 0

abbrev same_bool : Bool → Bool → Bool
same_bool true b = b
same_bool false true = false
same_bool false false = true

same_bool-eq : (a b : Bool) → same_bool a b ≡ true → a ≡ b
same_bool-eq true true h = refl
same_bool-eq true false h = cc
same_bool-eq false true h = cc
same_bool-eq false false h = refl

abbrev set_law : (v k j : ℕ) → Bool
set_law v k j = same_bool (clear_at (bit_or v (2 ^ k)) j) (if j == k then false else clear_at v j)

abbrev clear_law : (v k j : ℕ) → Bool
clear_law v k j =
    same_bool (clear_at (bit_and v (255 - 2 ^ k)) j) (if j == k then true else clear_at v j)

set_table : tabulated (λ v. tabulated (λ k. tabulated (set_law v k) 8) 8) 256 ≡ true
unfolding tabulated
set_table = refl

clear_table : tabulated (λ v. tabulated (λ k. tabulated (clear_law v k) 8) 8) 256 ≡ true
unfolding tabulated
clear_table = refl

-- `v |= 1 << k` sets bit `k` and no other.
pub bit_or-clear_at :
    (v k j : ℕ)
    → v < 256
    → k < 8
    → j < 8
    → clear_at (bit_or v (2 ^ k)) j ≡ (if j == k then false else clear_at v j)
bit_or-clear_at v k j a b c = same_bool-eq _ _ (
    tabulated-at (set_law v k) j 8 c (
      tabulated-at (λ k. tabulated (set_law v k) 8) k 8 b
        (tabulated-at (λ v. tabulated (λ k. tabulated (set_law v k) 8) 8) v 256 a set_table)))

-- `v &= ~(1 << k)` clears bit `k` and no other.
pub bit_and-clear_at :
    (v k j : ℕ)
    → v < 256
    → k < 8
    → j < 8
    → clear_at (bit_and v (255 - 2 ^ k)) j ≡ (if j == k then true else clear_at v j)
bit_and-clear_at v k j a b c = same_bool-eq _ _ (
    tabulated-at (clear_law v k) j 8 c (
      tabulated-at (λ k. tabulated (clear_law v k) 8) k 8 b
        (tabulated-at (λ v. tabulated (λ k. tabulated (clear_law v k) 8) 8) v 256 a clear_table)))

abbrev xor_law : (a b : ℕ) → Bool
xor_law a b =
    (bit_xor (bit_xor a b) b == a) && ltb (bit_xor a b) 256 && (bit_xor a b == bit_xor b a)

xor_table : tabulated (λ a. tabulated (xor_law a) 256) 256 ≡ true
unfolding tabulated
xor_table = refl

xor_at : (a b : ℕ) → a < 256 → b < 256 → xor_law a b ≡ true
xor_at a b h k =
    tabulated-at (xor_law a) b 256 k
      (tabulated-at (λ a. tabulated (xor_law a) 256) a 256 h xor_table)

pub bit_xor-lt : (a b : ℕ) → a < 256 → b < 256 → bit_xor a b < 256
bit_xor-lt a b h k = ground (arith, xor_at a b h k)

pub bit_xor-cancel : (a b : ℕ) → a < 256 → b < 256 → bit_xor (bit_xor a b) b ≡ a
bit_xor-cancel a b h k = ground (arith, xor_at a b h k)

pub bit_xor_comm : (a b : ℕ) → a < 256 → b < 256 → bit_xor a b ≡ bit_xor b a
bit_xor_comm a b h k = ground (arith, xor_at a b h k)

abbrev and_law : (v k : ℕ) → Bool
and_law v k = ltb (bit_and v (255 - 2 ^ k)) 256

and_table : tabulated (λ v. tabulated (and_law v) 8) 256 ≡ true
unfolding tabulated
and_table = refl

pub bit_and-lt : (v k : ℕ) → v < 256 → k < 8 → bit_and v (255 - 2 ^ k) < 256
bit_and-lt v k a b = ground (
  arith,
  tabulated-at (and_law v) k 8 b (tabulated-at (λ v. tabulated (and_law v) 8) v 256 a and_table),
)

pub zero-clear_at : (k : ℕ) → k < 8 → clear_at 0 k ≡ true
unfolding tabulated
zero-clear_at k lt = tabulated-at (clear_at 0) k 8 lt refl
