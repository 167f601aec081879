-- ===== src/LinkedList/Insert.antt =====
-- Insertion at the two ends.
use cs537_intro_to_os.Prelude.{
  ℕ, ◌≡◌, ◌≢◌, refl, ◌∙◌, ap, sym, Option, none, some, List, [], ◌∷◌, ◌++◌, false, All, arith,
  update, All-split, inl, inr,
}
use cs537_intro_to_os.LinkedList.{Node, State, is_null, ll_insert_head, ll_insert_tail}
use cs537_intro_to_os.LinkedList.Chain.{
  first_of, last_of, Chain, Without, Holds, Chain-update, Chain-fresh, last_of-append, Chain-append,
  Chain-split, Distinct-append, Distinct-split, last-cases,
}

abbrev pub node : (prev next : Option ℕ) → (datum : ℕ) → Node
node b a x = record { prev = b; next = a; datum = x }

at_end : (p : ℕ) (r : List (ℕ × ℕ)) → is_null (last_of (some p) r) ≡ false
at_end p [] = refl
at_end p ((q, x) ∷ r) = at_end q r

-- With a fresh cell from `malloc`, `ll_insert_head` returns, and the list holds the new datum in
-- front of what it held.
pub ll_insert_head-Holds :
    (p x : ℕ) (s : State) (xs : List (ℕ × ℕ))
    → Holds xs s
    → s.cells p ≡ none
    → (s' : State) × (ll_insert_head (some p) x s ≡ some s') × Holds ((p, x) ∷ xs) s'
unfolding ll_insert_head
ll_insert_head-Holds p x s [] h fresh =
    let s' : State = record {
      cells = update s.cells p (some (node none none x));
      head = some p;
      tail = some p;
    } in
    (
      s',
      ground (arith, h.at_head),
      record { at_head = refl; at_tail = refl; linked = (ground arith, tt); distinct = (tt, tt) },
    )
ll_insert_head-Holds p x s ((q, y) ∷ r) h fresh =
    let apart : Without p ((q, y) ∷ r) =
      Chain-fresh s.cells p none ((q, y) ∷ r) none fresh h.linked in
    let c1 = update (update s.cells p (some (node none none x))) p (some (node none s.head x)) in
    let s' : State = record {
      cells = update c1 q (some (node (some p) (first_of r none) y));
      head = some p;
      tail = s.tail;
    } in
    let rest : Chain s'.cells (some q) r none = Chain-update c1 q _ (some q) r none h.distinct.0 (
      Chain-update _ p _ (some q) r none apart.1
        (Chain-update s.cells p _ (some q) r none apart.1 h.linked.1)) in
    (
      s',
      ground (arith, h.at_head, h.at_tail, h.linked.0, apart.0, at_end q r),
      record {
        at_head = refl;
        at_tail = h.at_tail;
        linked = (ground (arith, apart.0, h.at_head), (ground arith, rest));
        distinct = (apart, h.distinct);
      },
    )

-- the tail of a list that ends in `(q, y)`
pub front_exists :
    (ys : List (ℕ × ℕ)) (q y : ℕ) → is_null (first_of (ys ++ ((q, y) ∷ [])) none) ≡ false
front_exists [] q y = refl
front_exists ((p, x) ∷ ys) q y = refl

Without-snoc :
    (p x : ℕ) (xs : List (ℕ × ℕ)) → Without p xs → All (λ q. Without q.0 ((p, x) ∷ [])) xs
Without-snoc p x [] w = tt
Without-snoc p x ((q, y) ∷ r) w = ((λ e. w.0 (sym e), tt), Without-snoc p x r w.1)

pub front_stays :
    (ys : List (ℕ × ℕ)) (q y : ℕ) (zs : List (ℕ × ℕ))
    → first_of ((ys ++ ((q, y) ∷ [])) ++ zs) none ≡ first_of (ys ++ ((q, y) ∷ [])) none
front_stays [] q y zs = refl
front_stays ((p, x) ∷ ys) q y zs = refl

pub not_in : (q y : ℕ) (ys : List (ℕ × ℕ)) → All (λ r. Without r.0 ((q, y) ∷ [])) ys → Without q ys
not_in q y [] a = tt
not_in q y ((p, x) ∷ ys) a = (λ e. a.0.0 (sym e), not_in q y ys a.1)

-- With a fresh cell from `malloc`, `ll_insert_tail` returns, and the list holds the new datum behind
-- what it held.
pub ll_insert_tail-Holds :
    (p x : ℕ) (s : State) (xs : List (ℕ × ℕ))
    → Holds xs s
    → s.cells p ≡ none
    → (s' : State) × (ll_insert_tail (some p) x s ≡ some s') × Holds (xs ++ ((p, x) ∷ [])) s'
unfolding ll_insert_tail
ll_insert_tail-Holds p x s xs h fresh = elim (last-cases xs) [
  | inl e ↦
      let h' : Holds [] s = rw e at h in
      let s' : State = record {
        cells = update s.cells p (some (node none none x));
        head = some p;
        tail = some p;
      } in
      (
        s',
        ground (arith, h'.at_head),
        rw e (record {
          at_head = refl;
          at_tail = refl;
          linked = (ground arith, tt);
          distinct = (tt, tt);
        }),
      )
  | inr (ys, q, y, e) ↦
      let h' : Holds (ys ++ ((q, y) ∷ [])) s = rw e at h in
      let (front, back) = Chain-split s.cells none ys ((q, y) ∷ []) none h'.linked in
      let away = Chain-fresh s.cells p none (ys ++ ((q, y) ∷ [])) none fresh h'.linked in
      let (away_front, away_back) = All-split (λ r. r.0 ≢ p) ys ((q, y) ∷ []) away in
      let (d, _, apart) = Distinct-split ys ((q, y) ∷ []) h'.distinct in
      let tail : s.tail ≡ some q = h'.at_tail ∙ last_of-append none ys ((q, y) ∷ []) in
      let head_there : is_null s.head ≡ false = ap is_null h'.at_head ∙ front_exists ys q y in
      let c1 = update (update s.cells p (some (node none none x))) p (some (node s.tail none x)) in
      let s' : State = record {
        cells = update c1 q (some (node (last_of none ys) (some p) y));
        head = s.head;
        tail = some p;
      } in
      (
        s',
        ground (arith, head_there, tail, back.0, away_back.0),
        rw e (record {
          at_head = h'.at_head ∙ sym (front_stays ys q y ((p, x) ∷ []));
          at_tail = sym (last_of-append none (ys ++ ((q, y) ∷ [])) ((p, x) ∷ []));
          linked =
              Chain-append s'.cells none (ys ++ ((q, y) ∷ [])) ((p, x) ∷ []) none
                (Chain-append s'.cells none ys ((q, y) ∷ []) (some p)
                  (Chain-update c1 q _ none ys (some q) (not_in q y ys apart) (
                    Chain-update _ p _ none ys (some q) away_front
                      (Chain-update s.cells p _ none ys (some q) away_front front)))
                  (ground arith, tt))
                (ground (arith, away_back.0, tail, last_of-append none ys ((q, y) ∷ [])), tt);
          distinct =
              Distinct-append (ys ++ ((q, y) ∷ [])) ((p, x) ∷ []) h'.distinct (tt, tt)
                (Without-snoc p x (ys ++ ((q, y) ∷ [])) away);
        }),
      )
]
