-- ===== src/Proc/Sched/Serve.antt =====
-- What `scheduler` does when the process that it ran comes back.
use cs537_intro_to_os.Prelude.{
  ℕ, zero, suc, ◌+◌, ◌<◌, ◌≡◌, ◌≢◌, refl, Option, none, some, arith, ◌==◌, true, false, update, ◌⊎◌,
}
use cs537_intro_to_os.Proc.Table.{Ptable, nproc, set_proc, set_queue}
use cs537_intro_to_os.Proc.Queue.{enqueue, Enqueued, enqueue-Enqueued}
use cs537_intro_to_os.Proc.Sched.Pick.{pick-Stage}
use cs537_intro_to_os.Proc.Sched.{
  Found, idle, found, slice, after_run, after_run_last, serve, start_of, pick, round,
}

-- A process that has used up the slice of a level above the last one.
pub record Demoted (level i p : ℕ) (t u : Ptable) : Type 0 where
  pub priority : (u.procs p).priority ≡ (t.procs p).priority + 1
  pub fresh_ticks : (u.procs p).ticks level ≡ 0
  pub others : (x : ℕ) → x ≢ p → u.procs x ≡ t.procs x
  pub left : u.queues level i ≡ none
  pub slot : ℕ
  pub in_range : slot < nproc
  pub was_free : t.queues (level + 1) slot ≡ none
  pub entered : u.queues (level + 1) slot ≡ some p
  pub same_entries :
      (l x : ℕ) → (l ≢ level) ⊎ (x ≢ i) → (l ≢ level + 1) ⊎ (x ≢ slot) → u.queues l x ≡ t.queues l x

-- the table between leaving the one level and entering the next
abbrev demoted : (level i p : ℕ) → Ptable → Ptable
demoted level i p t =
    let c = t.procs p in
    set_queue
      (set_proc t p (record c { ticks = update c.ticks level 0; priority = c.priority + 1 })) level
      i none

-- Taking an entry out of a level frees no place of the next one.
left_free :
    (level i : ℕ) (t : Ptable) (slot : ℕ)
    → (set_queue t level i none).queues (level + 1) slot ≡ none
    → t.queues (level + 1) slot ≡ none
left_free level i t slot h = ground arith

Demoted-at :
    (level i p : ℕ) (t : Ptable) (slot : ℕ)
    → slot < nproc
    → t.queues (level + 1) slot ≡ none
    → Demoted level i p t (set_queue (demoted level i p t) (level + 1) slot (some p))
Demoted-at level i p t slot lt free = record {
  priority = ground arith;
  fresh_ticks = ground arith;
  others = λ x o. ground arith;
  left = ground arith;
  slot = slot;
  in_range = lt;
  was_free = free;
  entered = ground arith;
  same_entries = λ l x a b. ground arith;
}

-- If the slice is used up and the next level has a free place `j`, the process moves there: its
-- priority number grows by one, its ticks at the level start again at 0, and no other process and
-- no other entry of the queues changes. If the slice is not used up, nothing changes.
pub after_run-Demoted :
    (level i p : ℕ) (t : Ptable) (j : ℕ)
    → j < nproc
    → t.queues (level + 1) j ≡ none
    → ((t.procs p).ticks level ≡ slice level → Demoted level i p t (after_run level i p t))
      × ((t.procs p).ticks level ≢ slice level → after_run level i p t ≡ t)
unfolding after_run
after_run-Demoted level i p t j lt free =
    let c = t.procs p in
    let t1 = demoted level i p t in
    let e : Enqueued (level + 1) p t1 (enqueue (level + 1) p t1) =
      enqueue-Enqueued (level + 1) p t1 j lt (ground arith) in
    (
      λ used.
          let yes_used : (c.ticks level == slice level) ≡ true = ground arith in
          rw (yes_used, after_run, e.result)
            (Demoted-at level i p t e.slot e.in_range (left_free level i t _ e.was_free)),
      λ part.
          let not_used : (c.ticks level == slice level) ≡ false = ground arith in
          rw (not_used, after_run) refl,
    )

-- The round-robin pointer stays inside the last level.
abbrev pub InRange : Option ℕ → Type 0
InRange last_rr = start_of last_rr < nproc

serve-InRange :
    (run : Ptable → ℕ → Ptable) (now : ℕ) (last_rr : Option ℕ) (r : Found × Ptable)
    → ((l i p : ℕ) → r.0 ≡ found l i p → i < nproc)
    → InRange last_rr
    → InRange (serve run now last_rr r).1
unfolding after_run_last
serve-InRange run now last_rr (idle, t) at h = h
serve-InRange run now last_rr (found zero i p, t) at h = h
serve-InRange run now last_rr (found (suc zero) i p, t) at h = h
serve-InRange run now last_rr (found (suc (suc zero)) i p, t) at h = h
serve-InRange run now last_rr (found (suc (suc (suc l))) i p, t) at h =
    ground (arith, at (suc (suc (suc l))) i p refl)

-- A whole round keeps the round-robin pointer inside the last level, whatever ran meanwhile.
pub round-InRange :
    (run : Ptable → ℕ → Ptable) (now : ℕ) (t : Ptable) (last_rr : Option ℕ)
    → InRange last_rr
    → InRange (round run now (t, last_rr)).1
unfolding round
round-InRange run now t last_rr h =
    serve-InRange run now last_rr (pick last_rr t)
      (λ l i p e. ((pick-Stage last_rr t (omega arith)).hit l i p e).2) h
