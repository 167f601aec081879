-- ===== src/Args/Tests.antt =====
-- Arguments of a process with two private pages and one shared page.
use cs537_intro_to_os.Prelude.{
  ℕ, ◌-◌, ◌<◌, ◌≡◌, ◌⊎◌, ◌↔◌, refl, ◌==◌, ◌||◌, if◌then◌else◌, arith, none, some, find_from,
}
use cs537_intro_to_os.Shm.{Proc, usertop}
use cs537_intro_to_os.Args.{Memory, fetchint, argint, argptr, argstr, fetchstr, shared_string}
use cs537_intro_to_os.Args.Strings.{EndsAt, IsOpen, IsOutside, fetchstr_lem}
use cs537_intro_to_os.Args.Blocks.{IsUserBlock, argptr-IsUserBlock}

abbrev user_proc : Proc
user_proc = record { sz = 8192; ptes = λ a. 0; key_addresses = λ k. 0; current_top = 0x9_f000 }

-- "ab" at 8186, the words 8186 and 0x9f010 on the stack at 4100, "d" at the start of the shared page and
-- "c" at 0x9f010.
abbrev user_memory : Memory
user_memory a =
    if a == 8188 || a == 0x9_f001 || a == 0x9_f011
    then 0
    else if a == 4104
    then 250
    else if a == 4105
    then 31
    else if a == 4106 || a == 4107
    then 0
    else if a == 4108
    then 16
    else if a == 4109
    then 240
    else if a == 4110
    then 9
    else if a == 4111
    then 0
    else if a == 0x9_f000
    then 100
    else if a == 0x9_f010
    then 99
    else 98

private_string : argstr user_memory user_proc 4100 0 ≡ some (8186, 2)
unfolding argstr argint fetchint fetchstr find_from
private_string = refl

-- The second argument points to "c", but the string at the start of the page comes back.
other_string : argstr user_memory user_proc 4100 1 ≡ some (0x9_f000, 1)
unfolding argstr argint fetchint fetchstr find_from shared_string
other_string = refl

fetchstr_lem_example :
    (IsOutside user_proc 0x9_f010 × (fetchstr user_memory user_proc 0x9_f010 ≡ none))
    ⊎ (((s : ℕ) × EndsAt user_memory 0x9_f010 s
          × (s < 8192)
          × (fetchstr user_memory user_proc 0x9_f010 ≡ some (0x9_f010, s - 0x9_f010)))
        ⊎ (IsOpen user_memory 0x9_f010 8192
            × (((s : ℕ) × EndsAt user_memory 0x9_f000 s
                  × (s < usertop)
                  × (fetchstr user_memory user_proc 0x9_f010 ≡ some (0x9_f000, s - 0x9_f000)))
                ⊎ (IsOpen user_memory 0x9_f000 usertop
                    × (fetchstr user_memory user_proc 0x9_f010 ≡ none)))))
fetchstr_lem_example = fetchstr_lem user_memory user_proc 0x9_f010

argptr-IsUserBlock_example :
    (argptr user_memory user_proc 4100 0 4 ≡ some 8186) ↔ IsUserBlock user_proc 8186 4
unfolding argint fetchint
argptr-IsUserBlock_example =
    argptr-IsUserBlock user_memory user_proc 4100 0 4 8186 (omega arith) (omega arith) refl
