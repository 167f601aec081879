-- ===== src/Args/Blocks.antt =====
-- Which blocks `argptr` lets pass.
use cs537_intro_to_os.Prelude.{
  ℕ, ◌+◌, ◌%◌, ◌^◌, ◌≤◌, ◌<◌, ◌≡◌, ◌⊎◌, ◌↔◌, refl, true, false, arith, none, some, ap, sym, ◌∙◌,
  Bool-cases, inl, inr, dec_le,
}
use cs537_intro_to_os.Shm.{Proc, usertop}
use cs537_intro_to_os.Args.{Memory, is_invalid_address, argint, check_block, argptr}

-- A block in the private memory or in the shared pages.
abbrev pub IsUserBlock : Proc → (i size : ℕ) → Type 0
IsUserBlock p i size = (i + size ≤ p.sz) ⊎ ((p.current_top ≤ i) × (i + size < usertop))

valid_lem :
    (p : Proc) (a : ℕ)
    → is_invalid_address a p ≡ false
    → ((a ≤ p.sz) ⊎ (p.current_top ≤ a)) × (a < usertop)
valid_lem p a e = elim (dec_le a p.sz) [
  | yes le ↦ (inl le, ground arith)
  | no gt ↦ (inr (ground arith), ground arith)
]

-- Both ends of the block are valid, and it is too short to lie across the gap.
inside :
    (p : Proc) (i size : ℕ)
    → size + p.sz < p.current_top
    → p.current_top ≤ usertop
    → is_invalid_address i p ≡ false
    → is_invalid_address ((i + size) % 2 ^ 32) p ≡ false
    → IsUserBlock p i size
inside p i size short top first last =
    let (at, lt) = valid_lem p i first in
    let (at', lt') = valid_lem p ((i + size) % 2 ^ 32) last in
    let whole : (i + size) % 2 ^ 32 ≡ i + size = omega (arith, lt, short, top) in
    elim at [
      | inl private ↦ elim at' [
        | inl private' ↦ inl (omega (arith, private', whole))
        | inr far ↦ absurd (omega (arith, far, whole, private, short))
      ]
      | inr shared ↦ inr (shared, omega (arith, lt', whole))
    ]

passes_block :
    (p : Proc) (i size : ℕ)
    → p.sz ≤ p.current_top
    → p.sz < usertop
    → IsUserBlock p i size
    → check_block p size (some i) ≡ some i
passes_block p i size le lt (inl private) =
    let whole : (i + size) % 2 ^ 32 ≡ i + size = omega arith in
    let first : is_invalid_address i p ≡ false = ground arith in
    let last : is_invalid_address (i + size) p ≡ false = ground arith in
    rw (first, whole, last) refl
passes_block p i size le lt (inr (lo, hi)) =
    let whole : (i + size) % 2 ^ 32 ≡ i + size = omega arith in
    let first : is_invalid_address i p ≡ false = ground arith in
    let last : is_invalid_address (i + size) p ≡ false = ground arith in
    rw (first, whole, last) refl

both_ends :
    (p : Proc) (i size : ℕ)
    → check_block p size (some i) ≡ some i
    → (is_invalid_address i p ≡ false) × (is_invalid_address ((i + size) % 2 ^ 32) p ≡ false)
both_ends p i size h = elim (Bool-cases (is_invalid_address i p)) [
  | inl bad ↦ absurd (refused (sym (first_stops bad) ∙ h))
  | inr first ↦ elim (Bool-cases (is_invalid_address ((i + size) % 2 ^ 32) p)) [
    | inl bad ↦ absurd (refused (sym (last_stops first bad) ∙ h))
    | inr last ↦ (first, last)
  ]
]
  where
    refused : none ≡ some i → ⊥
    refused e = cc

    first_stops : is_invalid_address i p ≡ true → check_block p size (some i) ≡ none
    first_stops bad = rw bad refl

    last_stops :
        is_invalid_address i p ≡ false
        → is_invalid_address ((i + size) % 2 ^ 32) p ≡ true
        → check_block p size (some i) ≡ none
    last_stops first bad = rw (first, bad) refl

-- The process passes the pointer `i`, for a block that is shorter than the gap between its private
-- memory and its shared pages. Then `argptr` lets it pass exactly if the block lies in the private memory
-- or in the shared pages before the last address.
pub argptr-IsUserBlock :
    (mem : Memory) (p : Proc) (esp n size i : ℕ)
    → p.current_top ≤ usertop
    → size + p.sz < p.current_top
    → argint mem p esp n ≡ some i
    → (argptr mem p esp n size ≡ some i) ↔ IsUserBlock p i size
unfolding argptr
argptr-IsUserBlock mem p esp n size i top short at =
    let block = ap (λ x. check_block p size x) at in
    (
      λ h.
          let (first, last) = both_ends p i size (sym block ∙ h) in
          inside p i size short top first last,
      λ user. block ∙ passes_block p i size (omega (arith, short)) (omega (arith, short, top)) user,
    )
