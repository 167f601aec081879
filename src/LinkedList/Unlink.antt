-- ===== src/LinkedList/Unlink.antt =====
-- The search of `ll_delete_node` for its node, and the node taken out of the middle of the list.
use cs537_intro_to_os.Prelude.{
  ℕ, zero, suc, ◌<◌, ◌≡◌, ◌≢◌, ◌⊎◌, refl, ◌∙◌, ap, sym, ◌==◌, if◌then◌else◌, Option, none, some,
  List, [], ◌∷◌, ◌++◌, Bool, false, All, All-append, All-split, arith, update, inl, inr, length,
  Bool-cases,
}
use cs537_intro_to_os.LinkedList.{State, unlink, delete_loop}
use cs537_intro_to_os.LinkedList.Chain.{
  first_of, last_of, Chain, Without, Holds, Chain-update, last_of-append, Chain-append, Chain-split,
  Distinct-append, Distinct-split,
}
use cs537_intro_to_os.LinkedList.Insert.{node, not_in, front_stays}

-- What `ll_delete_node` makes of a list: it drops the head if that has the key, else the tail if
-- that has it, and else the first datum that has it.
abbrev pub erase : (key : ℕ) → List (ℕ × ℕ) → List (ℕ × ℕ)
erase key [] = []
erase key ((p, x) ∷ r) = if x == key then r else (p, x) ∷ erase key r

abbrev pub ends_in : (key : ℕ) → List (ℕ × ℕ) → Bool
ends_in key [] = false
ends_in key ((p, x) ∷ []) = x == key
ends_in key (a ∷ b ∷ r) = ends_in key (b ∷ r)

abbrev pub but_last : List (ℕ × ℕ) → List (ℕ × ℕ)
but_last [] = []
but_last (a ∷ []) = []
but_last (a ∷ b ∷ r) = a ∷ but_last (b ∷ r)

abbrev pub starts_with : (key : ℕ) → List (ℕ × ℕ) → Bool
starts_with key [] = false
starts_with key ((p, x) ∷ r) = x == key

abbrev pub removed : (key : ℕ) → List (ℕ × ℕ) → List (ℕ × ℕ)
removed key xs =
    if starts_with key xs
    then erase key xs
    else if ends_in key xs
    then but_last xs
    else erase key xs

abbrev pub LacksKey : (key : ℕ) → List (ℕ × ℕ) → Type 0
LacksKey key = All (λ q. q.1 ≢ key)

pub erase-cases :
    (key : ℕ) (xs : List (ℕ × ℕ))
    → (LacksKey key xs × (erase key xs ≡ xs))
      ⊎ ((pre post : List (ℕ × ℕ)) × (p : ℕ) × LacksKey key pre
          × (xs ≡ pre ++ ((p, key) ∷ post))
          × (erase key xs ≡ pre ++ post))
erase-cases key [] = inl (tt, refl)
erase-cases key ((p, x) ∷ r) = elim (Bool-cases (x == key)) [
  | inl hit ↦
      let same : x ≡ key = ground arith in
      inr ([], r, p, tt, ap (λ y. (p, y) ∷ r) same, rw hit refl)
  | inr miss ↦
      let ne : x ≢ key = ground arith in
      elim (erase-cases key r) [
        | inl (lacks, e) ↦ inl ((ne, lacks), rw miss (ap (λ ys. (p, x) ∷ ys) e))
        | inr (pre, post, q, lacks, e, f) ↦ inr (
          (p, x) ∷ pre,
          post,
          q,
          (ne, lacks),
          ap (λ ys. (p, x) ∷ ys) e,
          rw miss (ap (λ ys. (p, x) ∷ ys) f),
        )
      ]
]

-- The loop passes over the data without the key.
pub loop_reaches :
    (fuel key : ℕ) (s : State) (b : Option ℕ) (pre : List (ℕ × ℕ)) (p : ℕ) (post : List (ℕ × ℕ))
    → Chain s.cells b (pre ++ ((p, key) ∷ post)) none
    → LacksKey key pre
    → length pre < fuel
    → delete_loop fuel (first_of (pre ++ ((p, key) ∷ post)) none) key s ≡ unlink (some p) s
unfolding delete_loop
loop_reaches zero key s b pre p post h lacks enough = absurd (omega arith)
loop_reaches (suc fuel) key s b [] p post h lacks enough = rw h.0 (ground arith)
loop_reaches (suc fuel) key s b ((q, y) ∷ pre) p post h lacks enough =
    let miss : (y == key) ≡ false = ground (arith, lacks.0) in
    rw (h.0, miss) (loop_reaches fuel key s (some q) pre p post h.1 lacks.1 (omega arith))

pub loop_misses :
    (fuel key : ℕ) (s : State) (b : Option ℕ) (xs : List (ℕ × ℕ))
    → Chain s.cells b xs none
    → LacksKey key xs
    → length xs < fuel
    → delete_loop fuel (first_of xs none) key s ≡ some s
unfolding delete_loop
loop_misses zero key s b xs h lacks enough = absurd (omega arith)
loop_misses (suc fuel) key s b [] h lacks enough = refl
loop_misses (suc fuel) key s b ((q, y) ∷ xs) h lacks enough =
    let miss : (y == key) ≡ false = ground (arith, lacks.0) in
    rw (h.0, miss) (loop_misses fuel key s (some q) xs h.1 lacks.1 (omega arith))

-- the parts of `not_in`, for a longer second list
peel :
    (q y : ℕ) (ys zs : List (ℕ × ℕ))
    → All (λ r. Without r.0 ((q, y) ∷ ys)) zs
    → Without q zs × All (λ r. Without r.0 ys) zs
peel q y ys [] a = (tt, tt)
peel q y ys ((p, x) ∷ zs) a =
    let (l, r) = peel q y ys zs a.1 in ((λ e. a.0.0 (sym e), l), (a.0.1, r))

-- Unlinking a node between two others.
pub unlink-Holds :
    (o w p x n v : ℕ) (zs r : List (ℕ × ℕ)) (s : State)
    → Holds ((zs ++ ((o, w) ∷ [])) ++ ((p, x) ∷ (n, v) ∷ r)) s
    → (s' : State) × (unlink (some p) s ≡ some s')
      × Holds ((zs ++ ((o, w) ∷ [])) ++ ((n, v) ∷ r)) s'
unfolding unlink
unlink-Holds o w p x n v zs r s h =
    let pre = zs ++ ((o, w) ∷ []) in
    let post = (p, x) ∷ (n, v) ∷ r in
    let (left, right) = Chain-split s.cells none pre post none h.linked in
    let (front, mid) = Chain-split s.cells none zs ((o, w) ∷ []) (some p) left in
    let (d, e, apart) = Distinct-split pre post h.distinct in
    let (dz, _, apart_o) = Distinct-split zs ((o, w) ∷ []) d in
    let (apart_z, apart_m) = All-split (λ q. Without q.0 post) zs ((o, w) ∷ []) apart in
    let (p_z, apart_z') = peel p x ((n, v) ∷ r) zs apart_z in
    let (n_z, apart_r) = peel n v r zs apart_z' in
    let o_z : Without o zs = not_in o w zs apart_o in
    let (o_p, (o_n, o_r)) = apart_m.0 in
    let before : last_of none pre ≡ some o = last_of-append none zs ((o, w) ∷ []) in
    let c1 = update s.cells o (some (node (last_of none zs) (some n) w)) in
    let c2 = update c1 n (some (node (some o) (first_of r none) v)) in
    let s' : State = record { cells = update c2 p none; head = s.head; tail = s.tail } in
    (
      s',
      ground (arith, right.0, before, mid.0, right.1.0, o_p, o_n, e.0.0),
      record {
        at_head = h.at_head ∙ front_stays zs o w post ∙ sym (front_stays zs o w ((n, v) ∷ r));
        at_tail =
            h.at_tail ∙ last_of-append none pre post ∙ sym (last_of-append none pre ((n, v) ∷ r));
        linked =
            Chain-append s'.cells none pre ((n, v) ∷ r) none
              (Chain-append s'.cells none zs ((o, w) ∷ []) (some n)
                (Chain-update c2 p none none zs (some o) p_z (
                  Chain-update c1 n _ none zs (some o) n_z
                    (Chain-update s.cells o _ none zs (some o) o_z front)))
                (ground (arith, o_p, o_n), tt))
              (
                ground (arith, before, e.0.0),
                Chain-update c2 p none (some n) r none e.0.1 (
                    Chain-update c1 n _ (some n) r none e.1.0
                      (Chain-update s.cells o _ (some n) r none o_r right.1.1)),
              );
        distinct =
            Distinct-append pre ((n, v) ∷ r) d e.1 (
              All-append (λ q. Without q.0 ((n, v) ∷ r)) zs ((o, w) ∷ []) apart_z'
                ((o_n, o_r), tt));
      },
    )
