-- ===== src/LinkedList/Delete.antt =====
-- Deletion at the two ends, and of a node between them.
use cs537_intro_to_os.Prelude.{
  ℕ, ◌≡◌, ◌≢◌, refl, ◌∙◌, ap, sym, none, some, List, [], ◌∷◌, ◌++◌, All-split, arith, update, inl,
  inr,
}
use cs537_intro_to_os.LinkedList.{State, ll_delete_head, ll_delete_tail}
use cs537_intro_to_os.LinkedList.Chain.{
  first_of, last_of, Without, Holds, Chain-update, last_of-append, Chain-append, Chain-split,
  Distinct-split, last-cases,
}
use cs537_intro_to_os.LinkedList.Insert.{node, not_in, front_stays}

-- `ll_delete_head` of a list that is not empty returns; the list holds the rest, and the first cell
-- is free.
pub ll_delete_head-Holds :
    (p x : ℕ) (s : State) (xs : List (ℕ × ℕ))
    → Holds ((p, x) ∷ xs) s
    → (s' : State) × (ll_delete_head s ≡ some s') × Holds xs s' × (s'.cells p ≡ none)
unfolding ll_delete_head
ll_delete_head-Holds p x s [] h =
    let s' : State = record { cells = update s.cells p none; head = none; tail = none } in
    (
      s',
      ground (arith, h.at_head, h.linked.0),
      record { at_head = refl; at_tail = refl; linked = tt; distinct = tt },
      ground arith,
    )
ll_delete_head-Holds p x s ((q, y) ∷ r) h =
    let c1 = update s.cells q (some (node none (first_of r none) y)) in
    let s' : State = record { cells = update c1 p none; head = some q; tail = s.tail } in
    (
      s',
      ground (arith, h.at_head, h.linked.0, h.linked.1.0, h.distinct.0.0),
      record {
        at_head = refl;
        at_tail = h.at_tail;
        linked = (
          ground (arith, h.distinct.0.0),
          Chain-update c1 p none (some q) r none h.distinct.0.1
              (Chain-update s.cells q _ (some q) r none h.distinct.1.0 h.linked.1.1),
        );
        distinct = h.distinct.1;
      },
      ground arith,
    )

-- `ll_delete_tail` of a list that is not empty returns; the list holds all but the last datum, and
-- the last cell is free.
pub ll_delete_tail-Holds :
    (q y : ℕ) (s : State) (ys : List (ℕ × ℕ))
    → Holds (ys ++ ((q, y) ∷ [])) s
    → (s' : State) × (ll_delete_tail s ≡ some s') × Holds ys s' × (s'.cells q ≡ none)
unfolding ll_delete_tail
ll_delete_tail-Holds q y s ys h = elim (last-cases ys) [
  | inl e ↦
      let h' : Holds ((q, y) ∷ []) s = rw e at h in
      let s' : State = record { cells = update s.cells q none; head = none; tail = none } in
      (
        s',
        ground (arith, h'.at_tail, h'.linked.0),
        rw e (record { at_head = refl; at_tail = refl; linked = tt; distinct = tt }),
        ground arith,
      )
  | inr (zs, o, w, e) ↦
      let (front, back) = Chain-split s.cells none ys ((q, y) ∷ []) none h.linked in
      let (d, _, apart) = Distinct-split ys ((q, y) ∷ []) h.distinct in
      let away : Without q ys = not_in q y ys apart in
      let (front', mid) = Chain-split s.cells none zs ((o, w) ∷ []) (some q) (rw e at front) in
      let (d', _, apart') = Distinct-split zs ((o, w) ∷ []) (rw e at d) in
      let (away_front, away_mid) = All-split (λ r. r.0 ≢ q) zs ((o, w) ∷ []) (rw e at away) in
      let before : last_of none ys ≡ some o =
        ap (last_of none) e ∙ last_of-append none zs ((o, w) ∷ []) in
      let tail : s.tail ≡ some q = h.at_tail ∙ last_of-append none ys ((q, y) ∷ []) in
      let c1 = update s.cells o (some (node (last_of none zs) none w)) in
      let s' : State = record { cells = update c1 q none; head = s.head; tail = some o } in
      (
        s',
        ground (arith, tail, back.0, before, mid.0, away_mid.0),
        rw e (record {
          at_head =
              h.at_head
              ∙ ap (λ (l : List (ℕ × ℕ)). first_of (l ++ ((q, y) ∷ [])) none) e
              ∙ front_stays zs o w ((q, y) ∷ []);
          at_tail = sym (last_of-append none zs ((o, w) ∷ []));
          linked =
              Chain-append s'.cells none zs ((o, w) ∷ []) none
                (Chain-update c1 q none none zs (some o) away_front
                  (Chain-update s.cells o _ none zs (some o) (not_in o w zs apart') front'))
                (ground (arith, away_mid.0), tt);
          distinct = rw e at d;
        }),
        ground arith,
      )
]
