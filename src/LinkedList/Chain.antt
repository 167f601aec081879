-- ===== src/LinkedList/Chain.antt =====
-- When the cells hold a list: `next` leads from the head to the tail, and `prev` back.
use cs537_intro_to_os.Prelude.{
  ℕ, ◌≡◌, ◌≢◌, refl, ap, Option, none, some, List, [], ◌∷◌, ◌++◌, All, All-append, All-split, arith,
  ◌⊎◌, inl, inr, update,
}
use cs537_intro_to_os.LinkedList.{Node, State}

-- the first address of a list of cells, and the last one
abbrev pub first_of : List (ℕ × ℕ) → Option ℕ → Option ℕ
first_of [] other = other
first_of ((p, x) ∷ r) other = some p

abbrev pub last_of : Option ℕ → List (ℕ × ℕ) → Option ℕ
last_of other [] = other
last_of other ((p, x) ∷ r) = last_of (some p) r

abbrev pub Cells : Type 0
Cells = ℕ → Option Node

-- From the cell behind `before` to the one ahead of `after` there are these addresses and data.
abbrev pub Chain : Cells → (before : Option ℕ) → List (ℕ × ℕ) → (after : Option ℕ) → Type 0
Chain c before [] after = Unit
Chain c before ((p, x) ∷ r) after =
    (c p ≡ some (record { prev = before; next = first_of r after; datum = x }))
    × Chain c (some p) r after

abbrev pub Without : ℕ → List (ℕ × ℕ) → Type 0
Without p = All (λ q. q.0 ≢ p)

abbrev pub Distinct : List (ℕ × ℕ) → Type 0
Distinct [] = Unit
Distinct ((p, x) ∷ r) = Without p r × Distinct r

-- The list holds these addresses and data, from the head to the tail.
pub record Holds (xs : List (ℕ × ℕ)) (s : State) : Type 0 where
  pub at_head : s.head ≡ first_of xs none
  pub at_tail : s.tail ≡ last_of none xs
  pub linked : Chain s.cells none xs none
  pub distinct : Distinct xs

-- A cell outside of the chain does not matter.
pub Chain-update :
    (c : Cells) (p : ℕ) (v : Option Node) (b : Option ℕ) (xs : List (ℕ × ℕ)) (a : Option ℕ)
    → Without p xs
    → Chain c b xs a
    → Chain (update c p v) b xs a
Chain-update c p v b [] a w h = tt
Chain-update c p v b ((q, x) ∷ r) a w h =
    (ground (arith, w.0, h.0), Chain-update c p v (some q) r a w.1 h.1)

-- A free cell is in no chain.
pub Chain-fresh :
    (c : Cells) (p : ℕ) (b : Option ℕ) (xs : List (ℕ × ℕ)) (a : Option ℕ)
    → c p ≡ none
    → Chain c b xs a
    → Without p xs
Chain-fresh c p b [] a e h = tt
Chain-fresh c p b ((q, x) ∷ r) a e h =
    (λ same. clash (rw same at h.0) e, Chain-fresh c p (some q) r a e h.1)
  where
    clash : {o : Option Node} {n : Node} → o ≡ some n → o ≡ none → ⊥
    clash f g = cc

first_of-append :
    (xs ys : List (ℕ × ℕ)) (a : Option ℕ) → first_of (xs ++ ys) a ≡ first_of xs (first_of ys a)
first_of-append [] ys a = refl
first_of-append (x ∷ xs) ys a = refl

pub last_of-append :
    (b : Option ℕ) (xs ys : List (ℕ × ℕ)) → last_of b (xs ++ ys) ≡ last_of (last_of b xs) ys
last_of-append b [] ys = refl
last_of-append b ((p, x) ∷ xs) ys = last_of-append (some p) xs ys

pub Chain-append :
    (c : Cells) (b : Option ℕ) (xs ys : List (ℕ × ℕ)) (a : Option ℕ)
    → Chain c b xs (first_of ys a)
    → Chain c (last_of b xs) ys a
    → Chain c b (xs ++ ys) a
Chain-append c b [] ys a h k = k
Chain-append c b ((p, x) ∷ xs) ys a h k =
    (rw (first_of-append xs ys a) h.0, Chain-append c (some p) xs ys a h.1 k)

pub Chain-split :
    (c : Cells) (b : Option ℕ) (xs ys : List (ℕ × ℕ)) (a : Option ℕ)
    → Chain c b (xs ++ ys) a
    → Chain c b xs (first_of ys a) × Chain c (last_of b xs) ys a
Chain-split c b [] ys a h = (tt, h)
Chain-split c b ((p, x) ∷ xs) ys a h =
    let (l, r) = Chain-split c (some p) xs ys a h.1 in ((rw (first_of-append xs ys a) at h.0, l), r)

pub Distinct-append :
    (xs ys : List (ℕ × ℕ))
    → Distinct xs
    → Distinct ys
    → All (λ q. Without q.0 ys) xs
    → Distinct (xs ++ ys)
Distinct-append [] ys d e f = e
Distinct-append ((p, x) ∷ xs) ys d e f =
    (All-append (λ q. q.0 ≢ p) xs ys d.0 f.0, Distinct-append xs ys d.1 e f.1)

pub Distinct-split :
    (xs ys : List (ℕ × ℕ))
    → Distinct (xs ++ ys)
    → Distinct xs × Distinct ys × All (λ q. Without q.0 ys) xs
Distinct-split [] ys d = (tt, d, tt)
Distinct-split ((p, x) ∷ xs) ys d =
    let (l, r, f) = Distinct-split xs ys d.1 in
    let (near, far) = All-split (λ q. q.0 ≢ p) xs ys d.0 in ((near, l), r, (far, f))

-- Every list is empty or has a last element.
pub last-cases :
    (xs : List (ℕ × ℕ)) → (xs ≡ []) ⊎ ((ys : List (ℕ × ℕ)) × (q y : ℕ) × (xs ≡ ys ++ ((q, y) ∷ [])))
last-cases [] = inl refl
last-cases ((p, x) ∷ xs) = elim (last-cases xs) [
  | inl e ↦ inr ([], p, x, ap (λ ys. (p, x) ∷ ys) e)
  | inr (ys, q, y, e) ↦ inr ((p, x) ∷ ys, q, y, ap (λ zs. (p, x) ∷ zs) e)
]
