-- ===== src/Str.antt =====
-- The kernel's string routines, Project5b/xv6/kernel/string.c (the same text in every project's
-- kernel). Memory is a function from addresses to bytes, a pointer is an address, and a routine
-- returns the memory that it leaves. Addresses do not wrap: the blocks lie below `2 ^ 32`.
pub mod Move
pub mod Compare
pub mod Copy
mod Tests
use cs537_intro_to_os.Prelude.{
  ℕ, zero, suc, ◌+◌, ◌-◌, ◌%◌, ◌^◌, ◌<◌, ◌&&◌, not, Option, none, some, List, [], ◌∷◌, update, ltb,
  leb, ◌==◌, if◌then◌else◌,
}

abbrev pub Mem : Type 0
Mem = ℕ → ℕ

-- every cell holds a byte
abbrev pub IsBytes : Mem → Type 0
IsBytes m = (x : ℕ) → m x < 256

-- `memset`: `rep stosb` stores the byte `c` at `n` addresses from `dst` on.
unfoldable pub memset : (dst c n : ℕ) → Mem → Mem
memset dst c zero m = m
memset dst c (suc n) m = memset (dst + 1) c n (update m dst (c % 256))

-- `while(n-- > 0) *--d = *--s;` with `d` and `s` behind the ends of the blocks
unfoldable pub copy_down : (n d s : ℕ) → Mem → Mem
copy_down zero d s m = m
copy_down (suc n) d s m = copy_down n (d - 1) (s - 1) (update m (d - 1) (m (s - 1)))

-- `while(n-- > 0) *d++ = *s++;`
unfoldable pub copy_up : (n d s : ℕ) → Mem → Mem
copy_up zero d s m = m
copy_up (suc n) d s m = copy_up n (d + 1) (s + 1) (update m d (m s))

unfoldable pub memmove : (dst src n : ℕ) → Mem → Mem
unfolding copy_down copy_up
memmove dst src n m =
    if ltb src dst && ltb dst (src + n)
    then copy_down n (dst + n) (src + n) m
    else copy_up n dst src m

-- A difference of two bytes as an `int`, in its 32-bit pattern.
abbrev pub byte_diff : ℕ → ℕ → ℕ
byte_diff a b = (a + 2 ^ 32 - b) % 2 ^ 32

unfoldable pub memcmp : Mem → (s1 s2 n : ℕ) → ℕ
memcmp m s1 s2 zero = 0
memcmp m s1 s2 (suc n) =
    let rest = memcmp m (s1 + 1) (s2 + 1) n in
    if not (m s1 == m s2) then byte_diff (m s1) (m s2) else rest

unfoldable pub strncmp : Mem → (p q n : ℕ) → ℕ
strncmp m p q zero = 0
strncmp m p q (suc n) =
    let rest = strncmp m (p + 1) (q + 1) n in
    if not (m p == 0) && (m p == m q) then rest else byte_diff (m p) (m q)

-- the second loop of `strncpy`, `while(n-- > 0) *s++ = 0;`
unfoldable pub pad_zeros : (n s : ℕ) → Mem → Mem
pad_zeros zero s m = m
pad_zeros (suc n) s m = pad_zeros n (s + 1) (update m s 0)

-- A negative `n` copies nothing, as 0 does.
unfoldable pub strncpy : (n s t : ℕ) → Mem → Mem
unfolding pad_zeros
strncpy zero s t m = m
strncpy (suc n) s t m =
    let rest = strncpy n (s + 1) (t + 1) (update m s (m t)) in
    if m t == 0 then pad_zeros n (s + 1) (update m s (m t)) else rest

-- `while(--n > 0 && (*s++ = *t++) != 0); *s = 0;` with `n - 1` rounds left
unfoldable pub safestrcpy_loop : (n s t : ℕ) → Mem → Mem
safestrcpy_loop zero s t m = update m s 0
safestrcpy_loop (suc n) s t m =
    let rest = safestrcpy_loop n (s + 1) (t + 1) (update m s (m t)) in
    if m t == 0 then update (update m s (m t)) (s + 1) 0 else rest

unfoldable pub safestrcpy : (s t n : ℕ) → Mem → Mem
unfolding safestrcpy_loop
safestrcpy s t zero m = m
safestrcpy s t (suc n) m = safestrcpy_loop n s t m

-- `for(n = 0; s[n]; n++)`: `none` if no terminator is met within the fuel.
unfoldable pub strlen_from : (fuel : ℕ) → Mem → (s n : ℕ) → Option ℕ
strlen_from zero m s n = none
strlen_from (suc fuel) m s n =
    let rest = strlen_from fuel m s (n + 1) in if m (s + n) == 0 then some n else rest

-- What a program reads as the string at `p`, in at most `n` bytes: all before the first NUL.
unfoldable pub str_at : Mem → (p n : ℕ) → List ℕ
str_at m p zero = []
str_at m p (suc n) = if m p == 0 then [] else m p ∷ str_at m (p + 1) n
