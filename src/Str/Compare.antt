-- ===== src/Str/Compare.antt =====
-- `strncmp` and `memcmp` decide equality, and `strlen` finds the first NUL.
use cs537_intro_to_os.Prelude.{ℕ, zero, suc, ◌+◌, ◌<◌, ◌≡◌, ◌↔◌, refl, some, arith, length}
use cs537_intro_to_os.Str.{Mem, IsBytes, memcmp, strncmp, str_at, strlen_from}

memcmp-head : (n : ℕ) (m : Mem) (s t : ℕ) → IsBytes m → memcmp m s t (suc n) ≡ 0 → m s ≡ m t
unfolding memcmp
memcmp-head n m s t b h = ground (arith, b s, b t)

memcmp-tail :
    (n : ℕ) (m : Mem) (s t : ℕ)
    → IsBytes m
    → memcmp m s t (suc n) ≡ 0
    → memcmp m (s + 1) (t + 1) n ≡ 0
unfolding memcmp
memcmp-tail n m s t b h = ground (arith, b s, b t)

memcmp_sound :
    (n : ℕ) (m : Mem) (s t : ℕ)
    → IsBytes m
    → memcmp m s t n ≡ 0
    → (i : ℕ) → i < n
    → m (s + i) ≡ m (t + i)
memcmp_sound zero m s t b h i lt = absurd (omega arith)
memcmp_sound (suc n) m s t b h zero lt = grind (arith, memcmp-head n m s t b h)
memcmp_sound (suc n) m s t b h (suc i) lt =
    grind (arith, memcmp_sound n m (s + 1) (t + 1) b (memcmp-tail n m s t b h) i)

memcmp_complete :
    (n : ℕ) (m : Mem) (s t : ℕ) → ((i : ℕ) → i < n → m (s + i) ≡ m (t + i)) → memcmp m s t n ≡ 0
unfolding memcmp
memcmp_complete zero m s t h = refl
memcmp_complete (suc n) m s t h =
    let rest = memcmp_complete n m (s + 1) (t + 1) (λ i lt. grind (arith, h (suc i))) in
    grind (arith, h 0)

-- `memcmp` returns 0 exactly when the two blocks agree byte for byte.
pub memcmp-zero_iff :
    (n : ℕ) (m : Mem) (s t : ℕ)
    → IsBytes m
    → (memcmp m s t n ≡ 0) ↔ ((i : ℕ) → i < n → m (s + i) ≡ m (t + i))
memcmp-zero_iff n m s t b = (memcmp_sound n m s t b, memcmp_complete n m s t)

-- `strncmp` returns 0 exactly when the strings at `p` and `q`, cut at `n` bytes, are equal.
pub strncmp-zero_iff :
    (n : ℕ) (m : Mem) (p q : ℕ) → IsBytes m → (strncmp m p q n ≡ 0) ↔ (str_at m p n ≡ str_at m q n)
unfolding strncmp str_at
strncmp-zero_iff zero m p q b = ground arith
strncmp-zero_iff (suc n) m p q b = ground (arith, strncmp-zero_iff n m (p + 1) (q + 1) b, b p, b q)

-- With a NUL within reach of the fuel, `strlen` returns the length of the string: no NUL stands
-- before the one that it has found.
pub strlen_from-str_at :
    (fuel : ℕ) (m : Mem) (s n k : ℕ)
    → k < fuel
    → m (s + n + k) ≡ 0
    → strlen_from fuel m s n ≡ some (n + length (str_at m (s + n) fuel))
unfolding strlen_from str_at
strlen_from-str_at zero m s n k lt z = absurd (omega arith)
strlen_from-str_at (suc fuel) m s n zero lt z = grind arith
strlen_from-str_at (suc fuel) m s n (suc k) lt z =
    grind (arith, strlen_from-str_at fuel m s (n + 1) k)
