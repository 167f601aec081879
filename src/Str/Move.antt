-- ===== src/Str/Move.antt =====
-- What `memset` and `memmove` leave in memory.
use cs537_intro_to_os.Prelude.{
  ℕ, zero, suc, ◌+◌, ◌-◌, ◌%◌, ◌≤◌, ◌≡◌, ◌⊎◌, Bool, ◌&&◌, arith, update, ltb, leb, if◌then◌else◌,
}
use cs537_intro_to_os.Str.{Mem, memset, copy_down, copy_up, memmove}

-- `x` lies in the block of `n` bytes at `p`.
abbrev pub inside : (p n x : ℕ) → Bool
inside p n x = leb p x && ltb x (p + n)

-- `memset` writes the low byte of `c` at each address of the block, and nowhere else.
pub memset_lem :
    (n dst c : ℕ) (m : Mem) (x : ℕ) → memset dst c n m x ≡ (if inside dst n x then c % 256 else m x)
unfolding memset
memset_lem zero dst c m x = ground arith
memset_lem (suc n) dst c m x = ground (arith, memset_lem n (dst + 1) c (update m dst (c % 256)) x)

copy_up-inside :
    (n d s : ℕ) (m : Mem) (x : ℕ)
    → (d ≤ s) ⊎ (s + n ≤ d)
    → copy_up n d s m x ≡ (if inside d n x then m (s + (x - d)) else m x)
unfolding copy_up
copy_up-inside zero d s m x h = ground arith
copy_up-inside (suc n) d s m x h =
    grind (arith, copy_up-inside n (d + 1) (s + 1) (update m d (m s)) x)

-- `e` and `t` are the ends of the blocks.
copy_down-inside :
    (n d s e t : ℕ) (m : Mem) (x : ℕ)
    → s ≤ d
    → e ≡ d + n
    → t ≡ s + n
    → copy_down n e t m x ≡ (if inside d n x then m (s + (x - d)) else m x)
unfolding copy_down
copy_down-inside zero d s e t m x h p q = ground arith
copy_down-inside (suc n) d s e t m x h p q =
    grind (arith, copy_down-inside n d s (e - 1) (t - 1) (update m (e - 1) (m (t - 1))) x)

-- After `memmove` the block at `dst` holds what the block at `src` held before, also where the two
-- overlap, and no other byte has changed.
pub memmove_lem :
    (dst src n : ℕ) (m : Mem) (x : ℕ)
    → memmove dst src n m x ≡ (if inside dst n x then m (src + (x - dst)) else m x)
unfolding memmove
memmove_lem dst src n m x =
    ground (arith, copy_up-inside n dst src m x, copy_down-inside n dst src (dst + n) (src + n) m x)
