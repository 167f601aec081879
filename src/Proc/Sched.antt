-- ===== src/Proc/Sched.antt =====
-- One round of `scheduler` of Project2b/xv6/kernel/proc.c. What runs between `swtch` to a process
-- and the return to the scheduler is the argument `run`, a function of the table and the process;
-- `now` is `sys_uptime()`.
pub mod Scan
pub mod Pick
pub mod Serve
use cs537_intro_to_os.Prelude.{
  ℕ, zero, suc, ◌+◌, ◌-◌, ◌==◌, Option, none, some, if◌then◌else◌, update,
}
use cs537_intro_to_os.Proc.Table.{
  State, unused, embryo, sleeping, runnable, running, zombie, Proc, Ptable, nproc, set_proc,
  set_queue,
}
use cs537_intro_to_os.Proc.Queue.{enqueue}

-- What the scan of the queues finds.
pub data Found : Type 0 where
  idle : Found
  found : (level i p : ℕ) → Found

-- What the loop body does with the process `p` at `queues[level][i]`, by its state: `*q = NULL` and
-- `continue`, or run it, or `continue`.
pub data Action : Type 0 where
  forget run_it skip : Action

abbrev pub action : State → Action
action unused = forget
action runnable = run_it
action _ = skip

abbrev pub entry_action : Ptable → Option ℕ → Action
entry_action t none = skip
entry_action t (some p) = action (t.procs p).state

abbrev pub slot_of : Option ℕ → ℕ
slot_of none = 0
slot_of (some p) = p

-- The loop over `queues[level]` from index `i`, for `k` rounds, up to the process to run.
unfoldable pub scan : (k level i : ℕ) → Ptable → Found × Ptable
scan zero level i t = (idle, t)
scan (suc k) level i t =
    let skipped = scan k level (i + 1) t in
    let cleared = scan k level (i + 1) (set_queue t level i none) in
    elim (entry_action t (t.queues level i)) [
      | forget ↦ cleared
      | run_it ↦ (found level i (slot_of (t.queues level i)), t)
      | skip ↦ skipped
    ]

-- Go on with another loop if the one before ran to its end.
abbrev pub or_then : Found × Ptable → (Ptable → Found × Ptable) → Found × Ptable
or_then (idle, t) next = next t
or_then (found level i p, t) next = (found level i p, t)

-- `lastRR` as an index into the last level; NULL is `none`.
abbrev pub start_of : Option ℕ → ℕ
start_of none = 0
start_of (some i) = i

-- The last level, round robin: from `lastRR` to the end, then from the start up to `lastRR`.
unfoldable pub pick_last : (last_rr : Option ℕ) → Ptable → Found × Ptable
unfolding scan
pick_last last_rr t =
    or_then (scan (nproc - start_of last_rr) 3 (start_of last_rr) t) (scan (start_of last_rr) 3 0)

unfoldable pub pick : (last_rr : Option ℕ) → Ptable → Found × Ptable
unfolding scan pick_last
pick last_rr t =
    or_then (scan nproc 0 0 t)
      λ t. or_then (scan nproc 1 0 t) λ t. or_then (scan nproc 2 0 t) (pick_last last_rr)

-- `p->state = RUNNING; p->lastTick = sys_uptime();`
abbrev pub dispatch : (now p : ℕ) → Ptable → Ptable
dispatch now p t = set_proc t p (record (t.procs p) { state = running; last_tick = now })

-- The time slice of a level, in ticks.
abbrev pub slice : ℕ → ℕ
slice zero = 5
slice (suc zero) = 5
slice (suc (suc zero)) = 10
slice (suc (suc (suc _))) = 20

-- Levels 0 to 2, once the process is back: a used-up slice moves it one level down.
unfoldable pub after_run : (level i p : ℕ) → Ptable → Ptable
after_run level i p t =
    let c = t.procs p in
    let demoted =
      set_proc t p (record c { ticks = update c.ticks level 0; priority = c.priority + 1 }) in
    if c.ticks level == slice level
    then enqueue (level + 1) p (set_queue demoted level i none)
    else t

-- Level 3: a used-up slice moves `lastRR` past the process.
unfoldable pub after_run_last : (last_rr : Option ℕ) → (i p : ℕ) → Ptable → Ptable × Option ℕ
after_run_last last_rr i p t =
    let c = t.procs p in
    if c.ticks 3 == slice 3
    then (
      set_proc t p (record c { ticks = update c.ticks 3 0 }),
      some (if i == nproc - 1 then 0 else i + 1),
    )
    else (t, last_rr)

abbrev pub serve :
    (run : Ptable → ℕ → Ptable) (now : ℕ) (last_rr : Option ℕ) → Found × Ptable → Ptable × Option ℕ
serve run now last_rr (idle, t) = (t, last_rr)
serve run now last_rr (found (suc (suc (suc l))) i p, t) =
    after_run_last last_rr i p (run (dispatch now p t) p)
serve run now last_rr (found level i p, t) =
    (after_run level i p (run (dispatch now p t) p), last_rr)

-- One turn of the endless loop of `scheduler`.
unfoldable pub round : (run : Ptable → ℕ → Ptable) (now : ℕ) → Ptable × Option ℕ → Ptable × Option ℕ
unfolding pick after_run after_run_last
round run now (t, last_rr) = serve run now last_rr (pick last_rr t)
