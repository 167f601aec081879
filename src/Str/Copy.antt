-- ===== src/Str/Copy.antt =====
-- What `strncpy` and `safestrcpy` leave in memory.
use cs537_intro_to_os.Prelude.{
  ℕ, zero, suc, ◌+◌, ◌-◌, ◌<◌, ◌≤◌, ◌≡◌, ◌⊎◌, refl, arith, update, get_or,
}
use cs537_intro_to_os.Str.{Mem, pad_zeros, strncpy, safestrcpy_loop, safestrcpy, str_at}

pad_zeros-at :
    (n s : ℕ) (m : Mem) (x : ℕ)
    → (s ≤ x → x < s + n → pad_zeros n s m x ≡ 0)
      × ((x < s) ⊎ (s + n ≤ x) → pad_zeros n s m x ≡ m x)
unfolding pad_zeros
pad_zeros-at zero s m x = ground arith
pad_zeros-at (suc n) s m x = ground (arith, pad_zeros-at n (s + 1) (update m s 0) x)

-- `strncpy` writes only its `n` bytes.
strncpy-outside : (n s t : ℕ) (m : Mem) (x : ℕ) → (x < s) ⊎ (s + n ≤ x) → strncpy n s t m x ≡ m x
unfolding strncpy
strncpy-outside zero s t m x h = refl
strncpy-outside (suc n) s t m x h = ground (
  arith,
  strncpy-outside n (s + 1) (t + 1) (update m s (m t)) x,
  pad_zeros-at n (s + 1) (update m s (m t)) x,
)

str_at-update :
    (n p : ℕ) (m : Mem) (x v : ℕ) → (x < p) ⊎ (p + n ≤ x) → str_at (update m x v) p n ≡ str_at m p n
unfolding str_at
str_at-update zero p m x v h = refl
str_at-update (suc n) p m x v h = ground (arith, str_at-update n (p + 1) m x v)

strncpy-at :
    (n s t : ℕ) (m : Mem) (i x : ℕ)
    → (s + n ≤ t) ⊎ (t + n ≤ s)
    → i < n
    → x ≡ s + i
    → strncpy n s t m x ≡ get_or (str_at m t n) i 0
unfolding strncpy str_at
strncpy-at zero s t m i x h lt e = absurd (omega arith)
strncpy-at (suc n) s t m zero x h lt e = ground (
  arith,
  strncpy-outside n (s + 1) (t + 1) (update m s (m t)) x,
  pad_zeros-at n (s + 1) (update m s (m t)) x,
)
strncpy-at (suc n) s t m (suc i) x h lt e = ground (
  arith,
  strncpy-at n (s + 1) (t + 1) (update m s (m t)) i x,
  pad_zeros-at n (s + 1) (update m s (m t)) x,
  str_at-update n (t + 1) m s (m t),
)

-- From a source that the copy does not overwrite, `strncpy` fills its block of `n` bytes: with the
-- bytes of the source string, and with 0 behind its end. It writes nothing outside the block.
pub strncpy_lem :
    (n s t : ℕ) (m : Mem) (x : ℕ)
    → (s + n ≤ t) ⊎ (t + n ≤ s)
    → (s ≤ x → x < s + n → strncpy n s t m x ≡ get_or (str_at m t n) (x - s) 0)
      × ((x < s) ⊎ (s + n ≤ x) → strncpy n s t m x ≡ m x)
strncpy_lem n s t m x h =
    (λ a b. strncpy-at n s t m (x - s) x h (omega arith) (omega arith), strncpy-outside n s t m x)

safestrcpy_loop-outside :
    (n s t : ℕ) (m : Mem) (x : ℕ) → (x < s) ⊎ (s + n < x) → safestrcpy_loop n s t m x ≡ m x
unfolding safestrcpy_loop
safestrcpy_loop-outside zero s t m x h = ground arith
safestrcpy_loop-outside (suc n) s t m x h =
    ground (arith, safestrcpy_loop-outside n (s + 1) (t + 1) (update m s (m t)) x)

safestrcpy_loop-str_at :
    (n s t : ℕ) (m : Mem)
    → (s + n < t) ⊎ (t + n ≤ s)
    → str_at (safestrcpy_loop n s t m) s (suc n) ≡ str_at m t n
unfolding safestrcpy_loop str_at
safestrcpy_loop-str_at zero s t m h = ground arith
safestrcpy_loop-str_at (suc n) s t m h = ground (
  arith,
  safestrcpy_loop-str_at n (s + 1) (t + 1) (update m s (m t)),
  safestrcpy_loop-outside n (s + 1) (t + 1) (update m s (m t)) s,
  str_at-update n (t + 1) m s (m t),
)

-- With room for `n + 1` bytes `safestrcpy` leaves at `s` the source string cut at `n` bytes, with
-- its NUL inside the room, and it writes nothing outside.
pub safestrcpy_lem :
    (n s t : ℕ) (m : Mem)
    → (s + n < t) ⊎ (t + n ≤ s)
    → (str_at (safestrcpy s t (suc n) m) s (suc n) ≡ str_at m t n)
      × ((x : ℕ) → (x < s) ⊎ (s + n < x) → safestrcpy s t (suc n) m x ≡ m x)
unfolding safestrcpy
safestrcpy_lem n s t m h = (safestrcpy_loop-str_at n s t m h, safestrcpy_loop-outside n s t m)
