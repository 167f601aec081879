-- ===== src/Proc/Tick/Boost.antt =====
-- Whom the boost moves, and what the tick counts.
use cs537_intro_to_os.Prelude.{
  ℕ, ◌+◌, ◌-◌, ◌^◌, ◌<◌, ◌≤◌, ◌≡◌, ◌&&◌, ltb, leb, ◌==◌, if◌then◌else◌, for_each, for_each-slots,
  arith, Bool-cases, inl, inr, ap, ◌∙◌, suc, subst, true, ◌||◌, ◌≢◌, for_each-split, refl, sym,
}
use cs537_intro_to_os.Proc.Table.{Proc, Ptable, State, nproc, runnable, is_runnable}
use cs537_intro_to_os.Proc.Queue.{dequeue, enqueue-frame, dequeue-frame}
use cs537_intro_to_os.Proc.Tick.Places.{
  places, free_places, Moved, boost_one-raises, boost_one-stays, boost_loop-others,
}
use cs537_intro_to_os.Proc.Tick.{starves, raise, boost_one, boost_all, timer_tick}

abbrev pub boosted : (now : ℕ) → Proc → Proc
boosted now p = if starves now p && ltb 0 p.priority then raise p else p

boost_one-at :
    (now i : ℕ) (t : Ptable) (x : ℕ)
    → (boost_one now i t).procs x ≡ (if x == i then boosted now (t.procs i) else t.procs x)
unfolding boost_one
boost_one-at now i t x = elim (Bool-cases (starves now (t.procs i) && ltb 0 (t.procs i).priority)) [
  | inl up ↦
      let p = t.procs i in
      let frame =
        ap (λ (f : ℕ → Proc). f x)
          ((enqueue-frame (p.priority - 1) i (dequeue p.priority i t)).0
            ∙ (dequeue-frame p.priority i t).0) in
      rw (up, boost_one) (ap (λ r. if x == i then raise p else r) frame)
  | inr stay ↦ rw (stay, boost_one) (own x i)
]
  where
    own : (x i : ℕ) → t.procs x ≡ (if x == i then t.procs i else t.procs x)
    own x i = ground arith

boost_loop :
    (now k i : ℕ) (t : Ptable) (x : ℕ)
    → (for_each k i (boost_one now) t).procs x
      ≡ (if leb i x && ltb x (i + k) then boosted now (t.procs x) else t.procs x)
boost_loop now = for_each-slots (λ t. t.procs) (boost_one now) (boosted now) (boost_one-at now)

-- A process that the boost raises, and its entries in the queues of the levels.
pub record Raised (now x : ℕ) (t u : Ptable) : Type 0 where
  pub priority : (u.procs x).priority + 1 ≡ (t.procs x).priority
  pub ticks :
      (j : ℕ)
      → (u.procs x).ticks j ≡ (
          if j == (u.procs x).priority || j == (t.procs x).priority then 0 else (t.procs x).ticks j)
  pub same :
      record (u.procs x) { priority = (t.procs x).priority; ticks = (t.procs x).ticks } ≡ t.procs x
  pub left : places (t.procs x).priority x u ≡ places (t.procs x).priority x t - 1
  pub entered :
      let before = for_each x 0 (boost_one now) t in
      places (u.procs x).priority x u
      ≡ places (u.procs x).priority x t
        + (if ltb 0 (free_places (u.procs x).priority before) then 1 else 0)
  pub elsewhere :
      (l : ℕ) → l ≢ (t.procs x).priority → l ≢ (u.procs x).priority → places l x u ≡ places l x t

-- A process that is ready, that has not run for more than 100 ticks, and that is below the top level.
pub record IsStarving (now : ℕ) (p : Proc) : Type 0 where
  pub ready : p.state ≡ runnable
  pub old : p.last_tick + 100 < now
  pub below : 0 < p.priority

IsStarving-starves :
    (now : ℕ) (p : Proc)
    → 100 ≤ now
    → now < 2 ^ 32
    → IsStarving now p
    → (starves now p && ltb 0 p.priority) ≡ true
IsStarving-starves now p past word s =
    let ready = ap is_runnable s.ready in
    let old = s.old in let below = s.below in rw ready (ground (arith, old, below))

starves-IsStarving :
    (now : ℕ) (p : Proc)
    → 100 ≤ now
    → now < 2 ^ 32
    → (starves now p && ltb 0 p.priority) ≡ true
    → IsStarving now p
starves-IsStarving now p past word e = record {
  ready = is_runnable-state p.state (ground arith);
  old = ground arith;
  below = ground arith;
}
  where
    is_runnable-state : (s : State) → is_runnable s ≡ true → s ≡ runnable
    is_runnable-state s h = ground arith

boost_all-split :
    (now : ℕ) (t : Ptable) (x : ℕ)
    → x < nproc
    → boost_all now t
      ≡ for_each
          (nproc - 1 - x)
          (x + 1)
          (boost_one now)
          (boost_one now x (for_each x 0 (boost_one now) t))
unfolding boost_all
boost_all-split now t x lt =
    let whole : nproc ≡ x + suc (nproc - 1 - x) = omega arith in
    let at : 0 + x ≡ x = omega arith in
    ap (λ k. for_each k 0 (boost_one now) t) whole
    ∙ for_each-split (boost_one now) x (nproc - 1 - x) 0 t
    ∙ ap
        (λ y.
          for_each (nproc - 1 - x) (y + 1) (boost_one now)
            (boost_one now y (for_each x 0 (boost_one now) t)))
        at

-- The entries of a process after the whole loop are those after its own round.
boost_all-places :
    (now : ℕ) (t : Ptable) (x l : ℕ)
    → x < nproc
    → places l x (boost_all now t) ≡ places l x (boost_one now x (for_each x 0 (boost_one now) t))
boost_all-places now t x l lt =
    ap (λ u. places l x u) (boost_all-split now t x lt)
    ∙ boost_loop-others now (nproc - 1 - x) (x + 1)
        (boost_one now x (for_each x 0 (boost_one now) t)) l x (inl (omega arith))

-- before its own round a process and its entries are as they were
before-same :
    (now : ℕ) (t : Ptable) (x : ℕ)
    → ((for_each x 0 (boost_one now) t).procs x ≡ t.procs x)
      × ((l : ℕ) → places l x (for_each x 0 (boost_one now) t) ≡ places l x t)
before-same now t x =
    (boost_loop now x 0 t x ∙ unreached, λ l. boost_loop-others now x 0 t l x (inr (omega arith)))
  where
    unreached :
        (if leb 0 x && ltb x (0 + x) then boosted now (t.procs x) else t.procs x) ≡ t.procs x
    unreached = ground arith

boost_all-proc :
    (now : ℕ) (t : Ptable) (x : ℕ) → x < nproc → (boost_all now t).procs x ≡ boosted now (t.procs x)
unfolding boost_all
boost_all-proc now t x lt = boost_loop now nproc 0 t x ∙ reached
  where
    reached :
        (if leb 0 x && ltb x (0 + nproc) then boosted now (t.procs x) else t.procs x)
        ≡ boosted now (t.procs x)
    reached = ground arith

boost_all-Raised :
    (now : ℕ) (t : Ptable) (x : ℕ)
    → x < nproc
    → (starves now (t.procs x) && ltb 0 (t.procs x).priority) ≡ true
    → 0 < (t.procs x).priority
    → Raised now x t (boost_all now t)
boost_all-Raised now t x lt up below =
    let p = t.procs x in
    let before = for_each x 0 (boost_one now) t in
    let (own, kept) = before-same now t x in
    let moved : Moved p.priority x before (boost_one now x before) =
      subst (λ level. Moved level x before (boost_one now x before)) (ap (λ q. q.priority) own)
        (boost_one-raises now x before (rw own up) (rw own below)) in
    let here : (boost_all now t).procs x ≡ raise p = boost_all-proc now t x lt ∙ rw up refl in
    let room = if ltb 0 (free_places (p.priority - 1) before) then 1 else 0 in
    let level : ((boost_all now t).procs x).priority ≡ p.priority - 1 = ap (λ q. q.priority) here in
    record {
      priority = omega (arith, level, below);
      ticks = λ j. rw here (ground arith);
      same = rw here refl;
      left =
          boost_all-places now t x p.priority lt ∙ moved.left ∙ ap (λ n. n - 1) (kept p.priority);
      entered = rw level (
          boost_all-places now t x (p.priority - 1) lt
          ∙ moved.entered
          ∙ ap (λ n. n + room) (kept (p.priority - 1)));
      elsewhere = λ l a b.
          boost_all-places now t x l lt ∙ moved.elsewhere l a (λ e. b (e ∙ sym level)) ∙ kept l;
    }

-- From the hundredth tick on and before the 32-bit clock wraps: the boost raises each process of the
-- table that is ready, has not run for more than 100 ticks, and is below the top level. Its priority
-- number falls by one, its ticks at the old and at the new level start again at 0, and nothing else of
-- the process changes. One entry for it leaves the queue of its old level, and one enters the queue of
-- its new level, unless that level is full when its turn in the table comes; no other level gains or
-- loses an entry for it. Each other process of the table is as it was, and so is the number of entries
-- for it in each level.
pub boost_all-procs :
    (now : ℕ) (t : Ptable) (x : ℕ)
    → 100 ≤ now
    → now < 2 ^ 32
    → x < nproc
    → (IsStarving now (t.procs x) → Raised now x t (boost_all now t))
      × (¬ IsStarving now (t.procs x)
          → ((boost_all now t).procs x ≡ t.procs x)
            × ((l : ℕ) → places l x (boost_all now t) ≡ places l x t))
boost_all-procs now t x past word lt = (
  λ s. boost_all-Raised now t x lt (IsStarving-starves now (t.procs x) past word s) s.below,
  λ no. elim (Bool-cases (starves now (t.procs x) && ltb 0 (t.procs x).priority)) [
    | inl up ↦ absurd (no (starves-IsStarving now (t.procs x) past word up))
    | inr stay ↦
        let (own, kept) = before-same now t x in
        let stays = boost_one-stays now x (for_each x 0 (boost_one now) t) (rw own stay) in
        (
          boost_all-proc now t x lt ∙ rw stay refl,
          λ l. boost_all-places now t x l lt ∙ ap (λ u. places l x u) stays ∙ kept l,
        )
  ],
)

-- In the first 100 ticks after the boot `now - 100` wraps round, so that every runnable process
-- below the top level is raised, however recently it has run.
pub boost_all-early :
    (now : ℕ) (t : Ptable) (x : ℕ)
    → now < 100
    → x < nproc
    → (t.procs x).state ≡ runnable
    → (t.procs x).last_tick ≤ now
    → 0 < (t.procs x).priority
    → ((boost_all now t).procs x).priority + 1 ≡ (t.procs x).priority
unfolding boost_all
boost_all-early now t x young lt ready past below = ground (arith, boost_loop now nproc 0 t x)

-- A tick that is not a hundredth one charges the running process one tick at its level, in both
-- counts, leaves it runnable and the queues alone, and advances the starvation counter.
pub timer_tick-counts :
    (cur now starv : ℕ) (t : Ptable)
    → starv + 1 < 100
    → let p = t.procs cur in
      let (starv', u) = timer_tick cur now starv t in
      (starv' ≡ starv + 1)
      × ((u.procs cur).ticks p.priority ≡ p.ticks p.priority + 1)
      × ((u.procs cur).accumulated_ticks p.priority ≡ p.accumulated_ticks p.priority + 1)
      × ((u.procs cur).state ≡ runnable)
      × (u.queues ≡ t.queues)
unfolding timer_tick
timer_tick-counts cur now starv t small = ground arith
