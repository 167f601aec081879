-- ===== src/Args.antt =====
-- How system calls fetch their arguments from user memory: Project3b/xv6/kernel/syscall.c. Memory is a
-- function from addresses to bytes, a pointer is an address, and -1 is `none`.
pub mod Strings
pub mod Blocks
mod Tests
use cs537_intro_to_os.Prelude.{
  ℕ, ◌+◌, ◌-◌, ◌*◌, ◌%◌, ◌^◌, Bool, ◌&&◌, ◌||◌, ◌==◌, ltb, leb, if◌then◌else◌, Option, none, some,
  find_from,
}
use cs537_intro_to_os.Shm.{Proc, usertop}

abbrev pub Memory : Type 0
Memory = ℕ → ℕ

-- `IS_INVALID_ADDRESS(addr, p)`
abbrev pub is_invalid_address : (addr : ℕ) → Proc → Bool
is_invalid_address addr p = (ltb p.sz addr && ltb addr p.current_top) || leb usertop addr

-- `*(int *) addr`
abbrev pub word_at : Memory → ℕ → ℕ
word_at mem a = mem a + mem (a + 1) * 2 ^ 8 + mem (a + 2) * 2 ^ 16 + mem (a + 3) * 2 ^ 24

unfoldable pub fetchint : Memory → Proc → (addr : ℕ) → Option ℕ
fetchint mem p addr =
    if is_invalid_address addr p || is_invalid_address ((addr + 4) % 2 ^ 32) p
    then none
    else some (word_at mem addr)

-- The scan for a terminator in the addresses from `from` up to `to`.
abbrev pub find_end : Memory → (from to : ℕ) → Option ℕ
find_end mem from to = find_from (to - from) from (λ a. mem a == 0)

abbrev pub string_from : (start : ℕ) → Option ℕ → Option (ℕ × ℕ)
string_from start none = none
string_from start (some s) = some (start, s - start)

-- The second half of `fetchstr`.
unfoldable pub shared_string : Memory → Proc → Option (ℕ × ℕ)
shared_string mem p = string_from p.current_top (find_end mem p.current_top usertop)

-- The result is where `*pp` points to, and the length.
unfoldable pub fetchstr : Memory → Proc → (addr : ℕ) → Option (ℕ × ℕ)
fetchstr mem p addr =
    let found : Option (ℕ × ℕ) = elim (find_end mem addr p.sz) [
      | none ↦ shared_string mem p
      | some s ↦ some (addr, s - addr)
    ] in
    if is_invalid_address addr p then none else found

-- `esp` is the saved stack pointer of the process.
unfoldable pub argint : Memory → Proc → (esp n : ℕ) → Option ℕ
argint mem p esp n = fetchint mem p ((esp + 4 + 4 * n) % 2 ^ 32)

abbrev pub check_block : Proc → (size : ℕ) → Option ℕ → Option ℕ
check_block p size none = none
check_block p size (some i) =
    if is_invalid_address i p || is_invalid_address ((i + size) % 2 ^ 32) p then none else some i

unfoldable pub argptr : Memory → Proc → (esp n size : ℕ) → Option ℕ
argptr mem p esp n size = check_block p size (argint mem p esp n)

unfoldable pub argstr : Memory → Proc → (esp n : ℕ) → Option (ℕ × ℕ)
argstr mem p esp n = elim (argint mem p esp n) [ none ↦ none | some addr ↦ fetchstr mem p addr ]
