-- ===== src/Threads/Join.antt =====
-- What a round of `sys_join` gives back, and the way of a thread from `thread_fork` to it.
use cs537_intro_to_os.Prelude.{
  ℕ, ◌<◌, ◌≡◌, ◌≢◌, ◌⊎◌, inl, inr, refl, Bool, true, false, ◌&&◌, some, arith, update_self,
  update_ne, ap, ◌∙◌, sym, ℕ_discrete, ◌∷◌, find_from, find_from-hit, IsFirst,
}
use cs537_intro_to_os.Proc.Table.{unused, kfree, freevm, nproc, is_unused, is_zombie, points_to}
use cs537_intro_to_os.Threads.Table.{ThreadInfo, Proc, Ptable}
use cs537_intro_to_os.Threads.{
  WaitEnd, reaped, freed, reap, wait_round, join_thread, is_child, is_child_thread, join_round,
  thread_fork, exit,
}
use cs537_intro_to_os.Threads.Search.{zombie_at, round-reaps}
use cs537_intro_to_os.Threads.Clone.{thread_fork-Cloned}
use cs537_intro_to_os.Threads.Exit.{Kept, exit-thread}

-- A zombie thread of `cur` in slot `i`.
abbrev pub zombie_thread : (cur : ℕ) → Ptable → ℕ → Bool
zombie_thread cur t = zombie_at (is_child_thread cur t) t

-- What a round of `sys_join` does with the zombie thread in `slot`.
pub record Joined (cur stack : ℕ) (t : Ptable) (slot : ℕ) (r : WaitEnd × Ptable) : Type 0 where
  pub returns : r.0 ≡ reaped (t.procs slot).pid
  pub stack_word : r.1.user (t.procs cur).pgdir stack ≡ (t.procs slot).thread_info.stack
  pub freed : (r.1.procs slot).state ≡ unused
  pub no_thread : (r.1.procs slot).thread_info.is_thread ≡ false
  -- the shared memory is not freed
  pub calls : r.1.calls ≡ kfree (t.procs slot).kstack ∷ t.calls
  pub others : (x : ℕ) → x ≢ slot → r.1.procs x ≡ t.procs x

join-Joined :
    (cur stack : ℕ) (t : Ptable) (i : ℕ)
    → find_from nproc 0 (zombie_thread cur t) ≡ some i
    → Joined cur stack t i (join_round cur stack t)
unfolding join_round
join-Joined cur stack t i found =
    rw (round-reaps cur (join_thread cur stack) (is_child_thread cur t) t i found) (record {
      returns = refl;
      stack_word =
          ap (λ f. f stack) (update_self t.user (t.procs cur).pgdir _)
          ∙ update_self (t.user (t.procs cur).pgdir) stack _;
      freed = ap (λ p. p.state) (update_self t.procs i _);
      no_thread = ap (λ p. p.thread_info.is_thread) (update_self t.procs i _);
      calls = refl;
      others = λ x ne. update_ne t.procs i _ x ne;
    })

-- With a zombie thread among the children of `cur`, a round of `sys_join` gives back the first one: it
-- returns its id, stores the address of its stack where it is told, frees its kernel stack and its slot
-- and nothing else, and leaves every other entry alone.
pub join_round-Joined :
    (cur stack : ℕ) (t : Ptable) (x : ℕ)
    → x < nproc
    → zombie_thread cur t x ≡ true
    → (i : ℕ) × IsFirst (zombie_thread cur t) 0 nproc i
      × Joined cur stack t i (join_round cur stack t)
join_round-Joined cur stack t x lt z =
    let (i, found, first) = find_from-hit nproc 0 (zombie_thread cur t) x (omega arith) lt z in
    (i, first, join-Joined cur stack t i found)

-- Another entry that was no zombie thread of `cur` is none after an exit.
stays_other :
    (cur np init : ℕ) (p q : Proc)
    → init ≢ cur
    → Kept np init p q
    → (points_to p.parent cur && p.thread_info.is_thread && is_zombie p.state) ≡ false
    → (points_to q.parent cur && q.thread_info.is_thread && is_zombie q.state) ≡ false
stays_other cur np init p q ne k off = elim k.parent [
  | inl e ↦ rw (e, k.info, k.same_zombie) off
  | inr (c, e) ↦ let test : points_to (some init) cur ≡ false = ground arith in rw (e, test) refl
]

-- The way of a thread: a process `cur` other than init that has no zombie thread clones one, which runs
-- and exits. Then a round of `sys_join` in `cur` returns the id that the clone got, stores the stack
-- that was passed to it, and frees its kernel stack; nothing else was freed on the way, and no file was
-- closed.
pub clone-exit-join :
    (cur : ℕ) (tinfo : ThreadInfo) (kstack stack : ℕ) (t : Ptable) (free : ℕ)
    → is_unused (t.procs cur).state ≡ false
    → is_unused (t.procs t.init).state ≡ false
    → cur ≢ t.init
    → kstack ≢ 0
    → free < nproc
    → is_unused (t.procs free).state ≡ true
    → ((x : ℕ) → x < nproc → zombie_thread cur t x ≡ false)
    → (slot : ℕ) × (u : Ptable) × ((thread_fork cur tinfo kstack t).0 ≡ some t.next_pid)
      × (exit slot (thread_fork cur tinfo kstack t).1 ≡ some u)
      × ((join_round cur stack u).0 ≡ reaped t.next_pid)
      × ((join_round cur stack u).1.user (u.procs cur).pgdir stack ≡ tinfo.stack)
      × ((join_round cur stack u).1.calls ≡ kfree kstack ∷ t.calls)
clone-exit-join cur tinfo kstack stack t free alive init_alive not_init page lt unused_free
      none_yet =
    let t1 = (thread_fork cur tinfo kstack t).1 in
    let c = thread_fork-Cloned cur tinfo kstack t free alive page lt unused_free in
    let np = c.slot in
    let apart : cur ≢ np =
      λ e. clash _ (ap (λ x. is_unused (t.procs x).state) e ∙ c.was_unused) alive in
    let not_np : np ≢ t1.init = λ e.
      clash _ (ap (λ x. is_unused (t.procs x).state) (sym (e ∙ c.same_init)) ∙ c.was_unused)
        init_alive in
    let (u, runs, ex) = exit-thread np t1 not_np (ap (λ i. i.is_thread) c.info) in
    let info = ex.info ∙ c.info in
    let mine : zombie_thread cur u np ≡ true =
      zombie_now cur np t1.init (t1.procs np) (u.procs np) c.parent (ap (λ i. i.is_thread) info)
        ex.dead ex.parent apart in
    let (i, first, joined) = join_round-Joined cur stack u np c.in_range mine in
    let only : i ≡ np = elim (ℕ_discrete i np) [
      | yes e ↦ e
      | no ne ↦
          let other =
            stays_other cur np t1.init (t1.procs i) (u.procs i)
              (λ e. not_init (sym (sym c.same_init ∙ e))) (ex.others i ne)
              (reorder
                (ap (λ p. points_to p.parent cur && p.thread_info.is_thread && is_zombie p.state)
                  (c.others i ne))
                (none_yet i first.below)) in
          absurd (clash _ first.passes other)
    ] in
    (
      np,
      u,
      c.returns,
      runs,
      joined.returns ∙ ap (λ x. reaped (u.procs x).pid) only ∙ ap reaped (ex.pid ∙ c.pid),
      joined.stack_word ∙ ap (λ x. (u.procs x).thread_info.stack) only ∙ ap (λ i. i.stack) info,
      joined.calls
          ∙ ap (λ x. kfree (u.procs x).kstack ∷ u.calls) only
          ∙ ap (λ k. kfree k ∷ u.calls) (ex.kstack ∙ c.kstack_of)
          ∙ ap (λ l. kfree kstack ∷ l) (ex.calls ∙ c.calls),
    )
  where
    clash : (b : Bool) → b ≡ true → b ≡ false → ⊥
    clash b f g = cc

    reorder : {a b : Bool} → a ≡ b → b ≡ false → a ≡ false
    reorder e f = e ∙ f

    zombie_now :
        (cur np init : ℕ) (p q : Proc)
        → p.parent ≡ some cur
        → q.thread_info.is_thread ≡ true
        → is_zombie q.state ≡ true
        → (q.parent ≡ p.parent) ⊎ ((points_to p.parent np ≡ true) × (q.parent ≡ some init))
        → cur ≢ np
        → (points_to q.parent cur && q.thread_info.is_thread && is_zombie q.state) ≡ true
    zombie_now cur np init p q parent thread dead (inl e) ne =
        rw (e, parent, thread, dead) (ground arith)
    zombie_now cur np init p q parent thread dead (inr (c, e)) ne =
        let c' = rw parent at c in absurd (ground arith)

-- A round of `wait` does not ask whether a zombie child is a thread: it frees the page table of the
-- first zombie child, which a thread shares with its parent, and leaves `is_thread` in the slot.
pub wait_round-frees :
    (cur : ℕ) (t : Ptable) (x : ℕ)
    → x < nproc
    → zombie_at (is_child cur t) t x ≡ true
    → (i : ℕ) × IsFirst (zombie_at (is_child cur t) t) 0 nproc i
      × ((wait_round cur t).0 ≡ reaped (t.procs i).pid)
      × ((wait_round cur t).1.calls ≡ freevm (t.procs i).pgdir ∷ kfree (t.procs i).kstack ∷ t.calls)
      × (((wait_round cur t).1.procs i).thread_info ≡ (t.procs i).thread_info)
unfolding wait_round
wait_round-frees cur t x lt z =
    let (i, found, first) =
      find_from-hit nproc 0 (zombie_at (is_child cur t) t) x (omega arith) lt z in
    let ends = round-reaps cur reap (is_child cur t) t i found in
    (
      i,
      first,
      ap (λ r. r.0) ends,
      ap (λ r. r.1.calls) ends,
      ap (λ r. (r.1.procs i).thread_info) ends
          ∙ ap (λ p. p.thread_info) (update_self t.procs i (freed (t.procs i))),
    )
