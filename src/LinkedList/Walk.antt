-- ===== src/LinkedList/Walk.antt =====
-- The routines that walk the whole list.
use cs537_intro_to_os.Prelude.{
  ℕ, zero, suc, ◌+◌, ◌<◌, ◌≡◌, refl, ◌∙◌, ap, if◌then◌else◌, Option, none, some, List, [], ◌∷◌,
  Bool, All, arith, inl, inr, length, Bool-cases,
}
use cs537_intro_to_os.LinkedList.{
  ◌>>=◌, State, put_cell, ll_initialize, find_loop, ll_find, free_loop, ll_free, size_loop, ll_size,
}
use cs537_intro_to_os.LinkedList.Chain.{first_of, Chain, Without, Distinct, Holds, Chain-update}

size_loop-length :
    (fuel : ℕ) (s : State) (b : Option ℕ) (xs : List (ℕ × ℕ)) (n : ℕ)
    → Chain s.cells b xs none
    → length xs < fuel
    → size_loop fuel (first_of xs none) n s ≡ some (n + length xs)
unfolding size_loop
size_loop-length zero s b xs n h enough = absurd (omega arith)
size_loop-length (suc fuel) s b [] n h enough = ap some (omega arith)
size_loop-length (suc fuel) s b ((p, x) ∷ xs) n h enough =
    rw h.0 (size_loop-length fuel s (some p) xs (n + 1) h.1 (omega arith) ∙ ap some (omega arith))

-- With enough rounds `ll_size` returns the length of the list.
pub ll_size-length :
    (fuel : ℕ) (s : State) (xs : List (ℕ × ℕ))
    → Holds xs s
    → length xs < fuel
    → ll_size fuel s ≡ some (length xs)
unfolding ll_size
ll_size-length fuel s xs h enough =
    ap (λ a. size_loop fuel a 0 s) h.at_head
    ∙ size_loop-length fuel s none xs 0 h.linked enough
    ∙ ap some (omega arith)

-- the address of the first datum that passes
abbrev pub find_addr : (ℕ → Bool) → List (ℕ × ℕ) → Option ℕ
find_addr test [] = none
find_addr test ((p, x) ∷ r) = if test x then some p else find_addr test r

find_loop-addr :
    (fuel : ℕ) (test : ℕ → Bool) (s : State) (b : Option ℕ) (xs : List (ℕ × ℕ))
    → Chain s.cells b xs none
    → length xs < fuel
    → find_loop fuel (first_of xs none) test s ≡ some (find_addr test xs)
unfolding find_loop
find_loop-addr zero test s b xs h enough = absurd (omega arith)
find_loop-addr (suc fuel) test s b [] h enough = refl
find_loop-addr (suc fuel) test s b ((p, x) ∷ xs) h enough = elim (Bool-cases (test x)) [
  | inl hit ↦ rw (h.0, hit) refl
  | inr miss ↦ rw (h.0, miss) (find_loop-addr fuel test s (some p) xs h.1 (omega arith))
]

-- With enough rounds `ll_find` returns the address of the first node whose datum compares equal, or
-- NULL if there is none.
pub ll_find-addr :
    (fuel : ℕ) (test : ℕ → Bool) (s : State) (xs : List (ℕ × ℕ))
    → Holds xs s
    → length xs < fuel
    → ll_find fuel test s ≡ some (find_addr test xs)
unfolding ll_find
ll_find-addr fuel test s xs h enough =
    ap (λ a. find_loop fuel a test s) h.at_head ∙ find_loop-addr fuel test s none xs h.linked enough

free_loop-frees :
    (fuel : ℕ) (s : State) (b : Option ℕ) (xs : List (ℕ × ℕ))
    → Chain s.cells b xs none
    → Distinct xs
    → length xs < fuel
    → (s' : State) × (free_loop fuel (first_of xs none) s ≡ some s')
      × All (λ q. s'.cells q.0 ≡ none) xs
      × ((p : ℕ) → Without p xs → s'.cells p ≡ s.cells p)
unfolding free_loop
free_loop-frees zero s b xs h d enough = absurd (omega arith)
free_loop-frees (suc fuel) s b [] h d enough = (s, refl, tt, λ p w. refl)
free_loop-frees (suc fuel) s b ((p, x) ∷ xs) h d enough =
    let s1 = put_cell p none s in
    let (s', runs, freed, kept) =
      free_loop-frees fuel s1 (some p) xs (Chain-update s.cells p none (some p) xs none d.0 h.1) d.1
        (omega arith) in
    (s', rw h.0 runs, (kept p d.0 ∙ ground arith, freed), λ q w. kept q w.1 ∙ ground (arith, w.0))

ll_free-some :
    (fuel p : ℕ) (s : State)
    → s.head ≡ some p
    → ll_free fuel s ≡ (free_loop fuel (some p) s >>= λ s'. some (ll_initialize s'))
unfolding ll_free
ll_free-some fuel p s e = rw e refl

ll_free-none : (fuel : ℕ) (s : State) → s.head ≡ none → ll_free fuel s ≡ some s
unfolding ll_free
ll_free-none fuel s e = rw e refl

-- With enough rounds `ll_free` returns, with an empty list; exactly the cells of the list are free
-- now, and no other cell has changed.
pub ll_free-frees :
    (fuel : ℕ) (s : State) (xs : List (ℕ × ℕ))
    → Holds xs s
    → length xs < fuel
    → (s' : State) × (ll_free fuel s ≡ some s')
      × Holds [] s'
      × All (λ q. s'.cells q.0 ≡ none) xs
      × ((p : ℕ) → Without p xs → s'.cells p ≡ s.cells p)
ll_free-frees fuel s [] h enough = (s, ll_free-none fuel s h.at_head, h, tt, λ p w. refl)
ll_free-frees fuel s ((p, x) ∷ xs) h enough =
    let (s', runs, freed, kept) =
      free_loop-frees fuel s none ((p, x) ∷ xs) h.linked h.distinct enough in
    (
      ll_initialize s',
      ll_free-some fuel p s h.at_head ∙ ap (λ r. r >>= λ t. some (ll_initialize t)) runs,
      record { at_head = refl; at_tail = refl; linked = tt; distinct = tt },
      freed,
      kept,
    )
