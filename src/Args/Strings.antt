-- ===== src/Args/Strings.antt =====
-- Which string `fetchstr` fetches.
use cs537_intro_to_os.Prelude.{
  ℕ, ◌-◌, ◌≤◌, ◌<◌, ◌≡◌, ◌≢◌, ◌⊎◌, refl, true, false, ◌==◌, arith, none, some, find_from-some,
  find_from-none, Bool-cases, Option-cases, inl, inr, dec_le,
}
use cs537_intro_to_os.Shm.{Proc, usertop}
use cs537_intro_to_os.Args.{Memory, is_invalid_address, find_end, shared_string, fetchstr}

-- The string from `addr` on ends at `s`.
pub record EndsAt (mem : Memory) (addr s : ℕ) : Type 0 where
  pub from : addr ≤ s
  pub ended : mem s ≡ 0
  pub full : (a : ℕ) → addr ≤ a → a < s → mem a ≢ 0

-- There is no terminator from `addr` up to `to`.
abbrev pub IsOpen : Memory → (addr to : ℕ) → Type 0
IsOpen mem addr to = (a : ℕ) → addr ≤ a → a < to → mem a ≢ 0

on : (x : ℕ) → (x == 0) ≡ true → x ≡ 0
on x e = ground arith

off : (x : ℕ) → (x == 0) ≡ false → x ≢ 0
off x e z = ground arith

-- What a scan returns.
find_end_cases :
    (mem : Memory) (addr to : ℕ)
    → ((find_end mem addr to ≡ none) × IsOpen mem addr to)
      ⊎ ((s : ℕ) × (find_end mem addr to ≡ some s) × EndsAt mem addr s × (s < to))
find_end_cases mem addr to = elim (Option-cases (find_end mem addr to)) [
  | inl miss ↦ inl (
    miss,
    λ a from lt.
        off (mem a)
          (find_from-none (to - addr) addr (λ x. mem x == 0) miss a from (omega (arith, from, lt))),
  )
  | inr (s, found) ↦
      let first = find_from-some (to - addr) addr (λ x. mem x == 0) found in
      let from = first.from in
      let below = first.below in
      inr (
        s,
        found,
        record {
          from = from;
          ended = on (mem s) first.passes;
          full = λ a lo hi. off (mem a) (first.first a lo hi);
        },
        omega (arith, from, below),
      )
]

-- An address outside of the private memory, of the shared pages and of the address behind the former.
abbrev pub IsOutside : Proc → ℕ → Type 0
IsOutside p addr = ((p.sz < addr) × (addr < p.current_top)) ⊎ (usertop ≤ addr)

outside : (p : Proc) (addr : ℕ) → is_invalid_address addr p ≡ true → IsOutside p addr
outside p addr e = elim (dec_le usertop addr) [
  | yes ge ↦ inr ge
  | no lt ↦ inl (ground arith, ground arith)
]

-- The four outcomes of `fetchstr`. An address outside of the memory of the process is refused. A string
-- that ends in the private memory is returned where it is. From any other address, the result is the
-- string at `current_top`, whatever the address, if that string ends, and else a failure.
pub fetchstr_lem :
    (mem : Memory) (p : Proc) (addr : ℕ)
    → (IsOutside p addr × (fetchstr mem p addr ≡ none))
      ⊎ (((s : ℕ) × EndsAt mem addr s × (s < p.sz) × (fetchstr mem p addr ≡ some (addr, s - addr)))
          ⊎ (IsOpen mem addr p.sz
              × (((s : ℕ) × EndsAt mem p.current_top s
                    × (s < usertop)
                    × (fetchstr mem p addr ≡ some (p.current_top, s - p.current_top)))
                  ⊎ (IsOpen mem p.current_top usertop × (fetchstr mem p addr ≡ none)))))
unfolding fetchstr shared_string
fetchstr_lem mem p addr = elim (Bool-cases (is_invalid_address addr p)) [
  | inl bad ↦ inl (outside p addr bad, rw bad refl)
  | inr fine ↦ inr (elim (find_end_cases mem addr p.sz) [
    | inr (s, found, ends, lt) ↦ inl (s, ends, lt, rw (fine, found) refl)
    | inl (miss, open_end) ↦ inr (
      open_end,
      elim (find_end_cases mem p.current_top usertop) [
        | inr (s, found, ends, lt) ↦ inl (s, ends, lt, rw (fine, miss, found) refl)
        | inl (miss', no_end) ↦ inr (no_end, rw (fine, miss, miss') refl)
      ],
    )
  ])
]
