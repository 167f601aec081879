-- ===== src/LinkedList/Remove.antt =====
-- Deletion by key.
use cs537_intro_to_os.Prelude.{
  ℕ, ◌<◌, ◌≡◌, ◌≢◌, refl, ◌∙◌, ap, sym, ◌==◌, none, some, List, [], ◌∷◌, ◌++◌, false, arith, inl,
  inr, length, length-append, Bool-cases,
}
use cs537_intro_to_os.LinkedList.{State, delete_loop, ll_delete_node}
use cs537_intro_to_os.LinkedList.Chain.{Holds, last_of-append, Chain-split, last-cases}
use cs537_intro_to_os.LinkedList.Delete.{ll_delete_head-Holds, ll_delete_tail-Holds}
use cs537_intro_to_os.LinkedList.Unlink.{
  erase, ends_in, but_last, starts_with, removed, LacksKey, erase-cases, loop_reaches, loop_misses,
  unlink-Holds,
}

ends_in-append :
    (key : ℕ) (ys : List (ℕ × ℕ)) (q y : ℕ) → ends_in key (ys ++ ((q, y) ∷ [])) ≡ (y == key)
ends_in-append key [] q y = refl
ends_in-append key (a ∷ []) q y = refl
ends_in-append key (a ∷ b ∷ ys) q y = ends_in-append key (b ∷ ys) q y

but_last-append : (ys : List (ℕ × ℕ)) (q y : ℕ) → but_last (ys ++ ((q, y) ∷ [])) ≡ ys
but_last-append [] q y = refl
but_last-append (a ∷ []) q y = refl
but_last-append (a ∷ b ∷ ys) q y = ap (λ zs. a ∷ zs) (but_last-append (b ∷ ys) q y)

starts-snoc :
    (key : ℕ) (pre : List (ℕ × ℕ)) (p : ℕ) (post : List (ℕ × ℕ))
    → starts_with key (pre ++ ((p, key) ∷ post)) ≡ false
    → pre ≢ []
starts-snoc key pre p post e empty = absurd (self (rw empty at e))
  where
    self : (key == key) ≡ false → ⊥
    self e = ground arith

ends-snoc :
    (key : ℕ) (pre : List (ℕ × ℕ)) (p : ℕ) (post : List (ℕ × ℕ))
    → ends_in key (pre ++ ((p, key) ∷ post)) ≡ false
    → post ≢ []
ends-snoc key pre p post e empty =
    absurd (self (sym (ends_in-append key pre p key) ∙ (rw empty at e)))
  where
    self : (key == key) ≡ false → ⊥
    self e = ground arith

-- Neither end has the key.
inner :
    (fuel key : ℕ) (s : State) (xs : List (ℕ × ℕ))
    → Holds xs s
    → length xs < fuel
    → starts_with key xs ≡ false
    → ends_in key xs ≡ false
    → (s' : State) × (delete_loop fuel s.head key s ≡ some s') × Holds (erase key xs) s'
inner fuel key s xs h enough starts ends = elim (erase-cases key xs) [
  | inl (lacks, e) ↦ (
    s,
    ap (λ a. delete_loop fuel a key s) h.at_head
        ∙ loop_misses fuel key s none xs h.linked lacks enough,
    rw e h,
  )
  | inr (pre, post, p, lacks, e, f) ↦ elim (last-cases pre) [
    | inl none_before ↦ absurd (starts-snoc key pre p post (rw e at starts) none_before)
    | inr (zs, o, w, g) ↦ between post zs o w p e f g (rw e at ends) (rw g at lacks)
  ]
]
  where
    between :
        (post zs : List (ℕ × ℕ)) (o w p : ℕ) {pre : List (ℕ × ℕ)}
        → xs ≡ pre ++ ((p, key) ∷ post)
        → erase key xs ≡ pre ++ post
        → pre ≡ zs ++ ((o, w) ∷ [])
        → ends_in key (pre ++ ((p, key) ∷ post)) ≡ false
        → LacksKey key (zs ++ ((o, w) ∷ []))
        → (s' : State) × (delete_loop fuel s.head key s ≡ some s') × Holds (erase key xs) s'
    between [] zs o w p {pre} e f g last lacks = absurd (ends-snoc key pre p [] last refl)
    between ((n, v) ∷ r) zs o w p {pre} e f g last lacks =
        let whole : xs ≡ (zs ++ ((o, w) ∷ [])) ++ ((p, key) ∷ (n, v) ∷ r) =
          e ∙ ap (λ l. l ++ ((p, key) ∷ (n, v) ∷ r)) g in
        let h' : Holds ((zs ++ ((o, w) ∷ [])) ++ ((p, key) ∷ (n, v) ∷ r)) s = rw whole at h in
        let (s', done, result) = unlink-Holds o w p key n v zs r s h' in
        let short : length (zs ++ ((o, w) ∷ [])) < fuel =
          omega
            (arith, ap length whole, length-append (zs ++ ((o, w) ∷ [])) ((p, key) ∷ (n, v) ∷ r)) in
        (
          s',
          ap (λ a. delete_loop fuel a key s) h'.at_head
              ∙ loop_reaches fuel key s none (zs ++ ((o, w) ∷ [])) p ((n, v) ∷ r) h'.linked lacks
                  short
              ∙ done,
          rw (f ∙ ap (λ l. l ++ ((n, v) ∷ r)) g) result,
        )

-- `ll_delete_node` returns, and the list holds what it held but for one datum with the key, if there
-- is one: the head if that has the key, else the tail if that has it, and else the first one. As many
-- rounds as the list is long, and one, are enough.
pub ll_delete_node-Holds :
    (fuel key : ℕ) (s : State) (xs : List (ℕ × ℕ))
    → Holds xs s
    → length xs < fuel
    → (s' : State) × (ll_delete_node fuel key s ≡ some s') × Holds (removed key xs) s'
unfolding ll_delete_node
ll_delete_node-Holds fuel key s [] h enough = (s, rw h.at_head refl, h)
ll_delete_node-Holds fuel key s ((p, x) ∷ r) h enough = elim (Bool-cases (x == key)) [
  | inl hit ↦
      let (s', done, result, _) = ll_delete_head-Holds p x s r h in
      (s', ground (arith, h.at_head, h.linked.0, done), rw hit result)
  | inr miss ↦ elim (last-cases ((p, x) ∷ r)) [
    | inl e ↦ absurd (cc)
    | inr (ys, q, y, e) ↦
        let h' : Holds (ys ++ ((q, y) ∷ [])) s = rw e at h in
        let back = (Chain-split s.cells none ys ((q, y) ∷ []) none h'.linked).1 in
        let tail : s.tail ≡ some q = h'.at_tail ∙ last_of-append none ys ((q, y) ∷ []) in
        let end : ends_in key ((p, x) ∷ r) ≡ (y == key) =
          ap (ends_in key) e ∙ ends_in-append key ys q y in
        let front : but_last ((p, x) ∷ r) ≡ ys = ap but_last e ∙ but_last-append ys q y in
        elim (Bool-cases (y == key)) [
          | inl last ↦
              let (s', done, result, _) = ll_delete_tail-Holds q y s ys h' in
              (
                s',
                ground (arith, h.at_head, h.linked.0, tail, back.0, done),
                rw (miss, end, last, front) result,
              )
          | inr other ↦
              let (s', done, result) = inner fuel key s ((p, x) ∷ r) h enough miss (end ∙ other) in
              (
                s',
                ground (arith, h.at_head, h.linked.0, tail, back.0, done),
                rw (miss, end, other) (rw miss at result),
              )
        ]
  ]
]
