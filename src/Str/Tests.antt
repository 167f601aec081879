-- ===== src/Str/Tests.antt =====
-- The theorems on the string routines at concrete memories.
use cs537_intro_to_os.Prelude.{◌+◌, ◌-◌, ◌≡◌, refl, [], ◌∷◌, arith, update, if◌then◌else◌}
use cs537_intro_to_os.Str.{Mem, IsBytes, memmove, safestrcpy, str_at}
use cs537_intro_to_os.Str.Move.{inside, memmove_lem}

-- "ab" at 10, NUL elsewhere
abbrev mem : Mem
mem = update (update (λ x. 0) 10 97) 11 98

mem-IsBytes : IsBytes mem
mem-IsBytes x = ground arith

-- an overlapping move by one byte
memmove_lem_example :
    memmove 11 10 2 mem 12 ≡ (if inside 11 2 12 then mem (10 + (12 - 11)) else mem 12)
memmove_lem_example = memmove_lem 11 10 2 mem 12

memmove_run : memmove 11 10 2 mem 12 ≡ 98
unfolding memmove
memmove_run = refl

safestrcpy_run : str_at (safestrcpy 20 10 2 mem) 20 5 ≡ 97 ∷ []
unfolding safestrcpy str_at
safestrcpy_run = refl
