-- ===== src/Server/Awake.antt =====
-- The main thread and the workers with their waits on `empty` and `full`.
use cs537_intro_to_os.Prelude.{
  ℕ, ◌+◌, ◌-◌, ◌≤◌, ◌<◌, ◌≡◌, ◌≢◌, ◌⊎◌, inl, inr, true, false, Bool-cases, none, some, arith, ap,
  sym, ◌∙◌, subst, ℕ_discrete,
}
use cs537_intro_to_os.Server.{
  Slot, Shared, init_buffer, passes, produce, consume, Program, signal_full, signal_empty,
  main_goes, main_turn, worker_goes, worker_turn,
}
use cs537_intro_to_os.Server.Slots.{IsValid, produce_lem, consume_lem}
use cs537_intro_to_os.Server.Pool.{IsUnissued, init-IsValid}

-- The program through any interleaving of its turns, with `w` worker threads; a thread takes a turn
-- only while it does not wait. `pthread_cond_wait` may also return without a signal.
pub data Reach (n w : ℕ) (heap : ℕ → Slot) : Program → Type 0 where
  starts : Reach n w heap (record { shared = init_buffer n heap; main_waits = false; idle = 0 })
  main_runs :
      {p q : Program} (connfd : ℕ)
      → Reach n w heap p
      → p.main_waits ≡ false
      → main_turn n connfd p ≡ some q
      → Reach n w heap q
  worker_runs :
      {p q : Program} → Reach n w heap p → p.idle < w → worker_turn n p ≡ some q → Reach n w heap q
  wakes_main : {p : Program} → Reach n w heap p → Reach n w heap (record p { main_waits = false })
  wakes_worker : {p : Program} → Reach n w heap p → Reach n w heap (record p { idle = p.idle - 1 })

-- The main thread waits only at a full buffer, and all workers only at an empty one.
record IsLive (n w : ℕ) (p : Program) : Type 0 where
  valid : IsValid n p.shared
  few : p.idle ≤ w
  full : p.main_waits ≡ true → p.shared.fill_count ≡ n
  empty : p.idle ≡ w → p.shared.fill_count ≡ 0

same : {A : Type 0} (a b : A) → some a ≡ some b → a ≡ b
same a b e = cc

main_turn-IsLive :
    (n w connfd : ℕ) (p q : Program)
    → 0 < w
    → IsLive n w p
    → p.main_waits ≡ false
    → main_turn n connfd p ≡ some q
    → IsLive n w q
unfolding main_turn
main_turn-IsLive n w connfd p q some_worker l free h = elim (ℕ_discrete p.shared.fill_count n) [
  | yes e ↦
      let stays = ap (main_goes p) ((produce_lem n connfd p.shared l.valid).0 e) in
      subst (IsLive n w) (same (record p { main_waits = true }) q (sym stays ∙ h))
        (record { valid = l.valid; few = l.few; full = λ t. e; empty = l.empty })
  | no ne ↦
      let (s, runs, stored) = (produce_lem n connfd p.shared l.valid).1 ne in
      let goes = ap (main_goes p) runs in
      let few = l.few in
      subst (IsLive n w) (same (signal_full (record p { shared = s })) q (sym goes ∙ h)) (record {
        valid = stored.valid;
        few = omega (arith, few);
        full = λ t. absurd (clash (sym t ∙ free));
        empty = λ t. omega (arith, few, t, some_worker);
      })
]
  where
    clash : true ≡ false → ⊥
    clash e = cc

worker_turn-IsLive :
    (n w : ℕ) (p q : Program) → IsLive n w p → p.idle < w → worker_turn n p ≡ some q → IsLive n w q
unfolding worker_turn
worker_turn-IsLive n w p q l free h = elim (ℕ_discrete p.shared.fill_count 0) [
  | yes e ↦
      let stays = ap (worker_goes p) ((consume_lem n p.shared l.valid).0 e) in
      subst (IsLive n w) (same (record p { idle = p.idle + 1 }) q (sym stays ∙ h))
        (record { valid = l.valid; few = omega (arith, free); full = l.full; empty = λ t. e })
  | no ne ↦
      let (c, s, runs, taken) = (consume_lem n p.shared l.valid).1 ne in
      let goes = ap (worker_goes p) runs in
      subst (IsLive n w) (same (signal_empty (record p { shared = s })) q (sym goes ∙ h)) (record {
        valid = taken.valid;
        few = l.few;
        full = λ t. absurd (clash t);
        empty = λ t. absurd (omega (arith, t, free));
      })
]
  where
    clash : false ≡ true → ⊥
    clash e = cc

Reach-IsLive :
    (n w : ℕ) (heap : ℕ → Slot) (p : Program)
    → 0 < w
    → IsUnissued n heap
    → Reach n w heap p
    → IsLive n w p
Reach-IsLive n w heap _ some_worker clear starts = record {
  valid = init-IsValid n heap clear;
  few = omega arith;
  full = λ t. absurd (clash t);
  empty = λ t. absurd (omega (arith, t, some_worker));
}
  where
    clash : false ≡ true → ⊥
    clash e = cc
Reach-IsLive n w heap q some_worker clear (main_runs {p} connfd run free h) =
    main_turn-IsLive n w connfd p q some_worker (Reach-IsLive n w heap p some_worker clear run) free
      h
Reach-IsLive n w heap q some_worker clear (worker_runs {p} run free h) =
    worker_turn-IsLive n w p q (Reach-IsLive n w heap p some_worker clear run) free h
Reach-IsLive n w heap _ some_worker clear (wakes_main {p} run) =
    let l = Reach-IsLive n w heap p some_worker clear run in
    record { valid = l.valid; few = l.few; full = λ t. absurd (clash t); empty = l.empty }
  where
    clash : false ≡ true → ⊥
    clash e = cc
Reach-IsLive n w heap _ some_worker clear (wakes_worker {p} run) =
    let l = Reach-IsLive n w heap p some_worker clear run in
    let few = l.few in
    record {
      valid = l.valid;
      few = omega (arith, few);
      full = l.full;
      empty = λ t. absurd (omega (arith, few, t, some_worker));
    }

main_turn-stays : (n connfd : ℕ) (p : Program) → IsValid n p.shared → main_turn n connfd p ≢ none
unfolding main_turn
main_turn-stays n connfd p v h = elim (ℕ_discrete p.shared.fill_count n) [
  | yes e ↦ clash (sym (ap (main_goes p) ((produce_lem n connfd p.shared v).0 e)) ∙ h)
  | no ne ↦
      let (s, runs, stored) = (produce_lem n connfd p.shared v).1 ne in
      clash (sym (ap (main_goes p) runs) ∙ h)
]
  where
    clash : {q : Program} → some q ≡ none → ⊥
    clash e = cc

worker_turn-stays : (n : ℕ) (p : Program) → IsValid n p.shared → worker_turn n p ≢ none
unfolding worker_turn
worker_turn-stays n p v h = elim (ℕ_discrete p.shared.fill_count 0) [
  | yes e ↦ clash (sym (ap (worker_goes p) ((consume_lem n p.shared v).0 e)) ∙ h)
  | no ne ↦
      let (c, s, runs, taken) = (consume_lem n p.shared v).1 ne in
      clash (sym (ap (worker_goes p) runs) ∙ h)
]
  where
    clash : {q : Program} → some q ≡ none → ⊥
    clash e = cc

-- In the invariant's states a thread that does not wait can pass its critical section.
someone-passes :
    (n w : ℕ) (p : Program)
    → 0 < n
    → IsLive n w p
    → ((p.main_waits ≡ false)
        × ((connfd : ℕ) → (s' : Shared) × (produce n connfd p.shared ≡ passes s')))
      ⊎ ((p.idle < w) × (connfd : ℕ) × (s' : Shared) × (consume n p.shared ≡ passes (connfd, s')))
someone-passes n w p room l = elim (ℕ_discrete p.shared.fill_count 0) [
  | yes e ↦ inl (
    elim (Bool-cases p.main_waits) [
      | inl t ↦ let f = l.full t in absurd (omega (arith, e, f, room))
      | inr f ↦ f
    ],
    λ connfd.
        let (s, runs, _) =
          (produce_lem n connfd p.shared l.valid).1 (λ f. omega (arith, e, f, room)) in
        (s, runs),
  )
  | no ne ↦
      let (c, s, runs, _) = (consume_lem n p.shared l.valid).1 ne in
      let few = l.few in
      inr (
        elim (ℕ_discrete p.idle w) [
          | yes e ↦ absurd (ne (l.empty e))
          | no le ↦ omega (arith, few, le)
        ],
        c,
        s,
        runs,
      )
]

-- If `malloc` returned slots with `issued` 0, and there is a slot and a worker: in every state that the
-- main thread and the workers reach, the main thread does not wait for a signal and can put any
-- connection into the buffer, or some worker does not wait for a signal and can take a connection out;
-- so they never all wait. No turn of theirs meets the invalid state in which the program exits.
pub Reach-progress :
    (n w : ℕ) (heap : ℕ → Slot) (p : Program)
    → 0 < n
    → 0 < w
    → IsUnissued n heap
    → Reach n w heap p
    → (((p.main_waits ≡ false)
          × ((connfd : ℕ) → (s' : Shared) × (produce n connfd p.shared ≡ passes s')))
        ⊎ ((p.idle < w)
            × (connfd : ℕ) × (s' : Shared) × (consume n p.shared ≡ passes (connfd, s'))))
      × ((connfd : ℕ) → main_turn n connfd p ≢ none)
      × (worker_turn n p ≢ none)
Reach-progress n w heap p room some_worker clear run =
    let l = Reach-IsLive n w heap p some_worker clear run in
    (
      someone-passes n w p room l,
      λ connfd. main_turn-stays n connfd p l.valid,
      worker_turn-stays n p l.valid,
    )
