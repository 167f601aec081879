-- ===== src/Proc/Wakeup.antt =====
-- `wakeup1`, `kill`, `sleep` and `yield` of proc.c.
use cs537_intro_to_os.Prelude.{
  ℕ, ◌<◌, ◌≡◌, ◌≢◌, refl, Bool, true, false, ◌&&◌, Option, none, some, arith, ◌==◌, if◌then◌else◌,
  find_from, find_from-some, find_from-none, IsFirst, inl, inr, Option-cases, Bool-cases, ap, ◌⊎◌,
  ◌∙◌, leb, ltb, ◌+◌, for_slots, for_slots-at, for_each, ==_iff,
}
use cs537_intro_to_os.Proc.Table.{sleeping, runnable, Proc, Ptable, nproc, is_sleeping, set_proc}

-- one round of the loop of `wakeup1`
abbrev pub wake_one : (chan : ℕ) → Proc → Proc
wake_one chan p =
    if is_sleeping p.state && (p.chan == chan) then record p { state = runnable } else p

unfoldable pub wakeup1 : (chan : ℕ) → Ptable → Ptable
unfolding for_each
wakeup1 chan t = record t { procs = for_slots nproc 0 (wake_one chan) t.procs }

abbrev pub has_pid : (pid : ℕ) → Ptable → ℕ → Bool
has_pid pid t i = (t.procs i).pid == pid

-- `kill`: 0 (`true`) if a process has that id, -1 (`false`) otherwise.
unfoldable pub kill : (pid : ℕ) → Ptable → Bool × Ptable
kill pid t = elim (find_from nproc 0 (has_pid pid t)) [
  | none ↦ (false, t)
  | some i ↦ (
    true,
    set_proc t i (
        if is_sleeping (t.procs i).state
        then record (t.procs i) { killed = true; state = runnable }
        else record (t.procs i) { killed = true }),
  )
]

-- `sleep` up to its call of `sched`: `none` is the panic without a process.
unfoldable pub sleep_enter : (cur : Option ℕ) → (chan : ℕ) → Ptable → Option Ptable
sleep_enter none chan t = none
sleep_enter (some p) chan t =
    some (set_proc t p (record (t.procs p) { chan = chan; state = sleeping }))

-- `sleep` once it runs again
unfoldable pub sleep_leave : (cur : ℕ) → Ptable → Ptable
sleep_leave p t = set_proc t p (record (t.procs p) { chan = 0 })

-- `yield` up to its call of `sched`
unfoldable pub yield : (cur : ℕ) → Ptable → Ptable
yield p t = set_proc t p (record (t.procs p) { state = runnable })

-- `wakeup1` makes runnable exactly the processes that sleep on the channel, and leaves all other
-- processes, the queues and the rest of the table alone.
pub wakeup1_lem :
    (chan : ℕ) (t : Ptable) (i : ℕ)
    → i < nproc
    → ((wakeup1 chan t).procs i ≡ (
        if is_sleeping (t.procs i).state && ((t.procs i).chan == chan)
        then record (t.procs i) { state = runnable }
        else t.procs i))
      × ((wakeup1 chan t).queues ≡ t.queues)
      × ((wakeup1 chan t).next_pid ≡ t.next_pid)
unfolding wakeup1
wakeup1_lem chan t i lt =
    (ground (arith, for_slots-at nproc 0 (wake_one chan) t.procs i), refl, refl)

-- A process that has entered `sleep` on a channel is runnable after `wakeup1` on that channel, and
-- not made so by a wakeup on another one.
pub wakeup1-sleep_enter :
    (p chan other : ℕ) (t : Ptable) {u : Ptable}
    → p < nproc
    → sleep_enter (some p) chan t ≡ some u
    → (((wakeup1 chan u).procs p).state ≡ runnable)
      × (other ≢ chan → ((wakeup1 other u).procs p).state ≡ sleeping)
unfolding sleep_enter
wakeup1-sleep_enter p chan other t {u} lt e =
    ground (arith, wakeup1_lem chan u p lt, wakeup1_lem other u p lt)

-- What `kill` does when some process of the table has the id.
pub record Killed (pid : ℕ) (t : Ptable) (r : Bool × Ptable) : Type 0 where
  pub slot : ℕ
  pub in_range : slot < nproc
  pub named : (t.procs slot).pid ≡ pid
  pub done : r.0 ≡ true
  pub marked : (r.1.procs slot).killed ≡ true
  pub awake : is_sleeping (r.1.procs slot).state ≡ false
  pub others : (i : ℕ) → i ≢ slot → r.1.procs i ≡ t.procs i

-- If a process has the id, `kill` marks one such process as killed, leaves it not sleeping, and
-- leaves every other process alone.
pub kill-Killed :
    (pid : ℕ) (t : Ptable) (i : ℕ) → i < nproc → (t.procs i).pid ≡ pid → Killed pid t (kill pid t)
unfolding kill
kill-Killed pid t i lt e = elim (Option-cases (find_from nproc 0 (has_pid pid t))) [
  | inl miss ↦
      let no_hit = find_from-none nproc 0 (has_pid pid t) miss i (omega arith) (omega arith) in
      ground arith
  | inr (j, hit) ↦
      let first : IsFirst (has_pid pid t) 0 nproc j = find_from-some nproc 0 (has_pid pid t) hit in
      let name : (t.procs j).pid ≡ pid = (==_iff _ _).0 first.passes in
      rw (hit, kill)
        (record {
          slot = j;
          in_range = first.below;
          named = name;
          done = refl;
          marked = ground arith;
          awake = ground arith;
          others = λ x ne. ground arith;
        })
]

-- If no process has the id, `kill` reports failure and changes nothing.
pub kill-none :
    (pid : ℕ) (t : Ptable) → ((i : ℕ) → i < nproc → (t.procs i).pid ≢ pid) → kill pid t ≡ (false, t)
unfolding kill
kill-none pid t no_one = elim (Option-cases (find_from nproc 0 (has_pid pid t))) [
  | inl miss ↦ rw (miss, kill)
  | inr (j, hit) ↦
      let first : IsFirst (has_pid pid t) 0 nproc j = find_from-some nproc 0 (has_pid pid t) hit in
      absurd (no_one j first.below ((==_iff _ _).0 first.passes))
]

wake_one-frame :
    (chan : ℕ) (p : Proc)
    → (wake_one chan p ≡ record p { state = (wake_one chan p).state })
      × (is_sleeping p.state ≡ false → wake_one chan p ≡ p)
wake_one-frame chan p = elim (Bool-cases (is_sleeping p.state && (p.chan == chan))) [
  | inl yes_it ↦ (rw yes_it refl, λ awake. ground arith)
  | inr not_it ↦ (rw not_it refl, λ awake. rw not_it refl)
]

wakeup1-at :
    (chan : ℕ) (t : Ptable) (i : ℕ)
    → ((wakeup1 chan t).procs i ≡ wake_one chan (t.procs i))
      ⊎ ((wakeup1 chan t).procs i ≡ t.procs i)
unfolding wakeup1
wakeup1-at chan t i = elim (Bool-cases (leb 0 i && ltb i (0 + nproc))) [
  | inl here ↦ inl (for_slots-at nproc 0 (wake_one chan) t.procs i ∙ rw here refl)
  | inr out ↦ inr (for_slots-at nproc 0 (wake_one chan) t.procs i ∙ rw out refl)
]

-- `wakeup1` changes nothing of a process but its state, and no state but a sleeping one.
pub wakeup1-frame :
    (chan : ℕ) (t : Ptable) (i : ℕ)
    → ((wakeup1 chan t).procs i ≡ record (t.procs i) { state = ((wakeup1 chan t).procs i).state })
      × (is_sleeping (t.procs i).state ≡ false → (wakeup1 chan t).procs i ≡ t.procs i)
wakeup1-frame chan t i =
    let frame = wake_one-frame chan (t.procs i) in
    elim (wakeup1-at chan t i) [ inl e ↦ rw e frame | inr e ↦ rw e (refl, λ awake. refl) ]

pub wakeup1-init : (chan : ℕ) (t : Ptable) → (wakeup1 chan t).init ≡ t.init
unfolding wakeup1
wakeup1-init chan t = refl

pub wakeup1-parent :
    (chan : ℕ) (t : Ptable) (i : ℕ) → ((wakeup1 chan t).procs i).parent ≡ (t.procs i).parent
wakeup1-parent chan t i = ap (λ p. p.parent) (wakeup1-frame chan t i).0

pub wakeup1-calls : (chan : ℕ) (t : Ptable) → (wakeup1 chan t).calls ≡ t.calls
unfolding wakeup1
wakeup1-calls chan t = refl

pub wakeup1-cwd : (chan : ℕ) (t : Ptable) (i : ℕ) → ((wakeup1 chan t).procs i).cwd ≡ (t.procs i).cwd
wakeup1-cwd chan t i = ap (λ p. p.cwd) (wakeup1-frame chan t i).0

pub wakeup1-ofile :
    (chan : ℕ) (t : Ptable) (i : ℕ) → ((wakeup1 chan t).procs i).ofile ≡ (t.procs i).ofile
wakeup1-ofile chan t i = ap (λ p. p.ofile) (wakeup1-frame chan t i).0

pub wakeup1-chan :
    (chan : ℕ) (t : Ptable) (i : ℕ) → ((wakeup1 chan t).procs i).chan ≡ (t.procs i).chan
wakeup1-chan chan t i = ap (λ p. p.chan) (wakeup1-frame chan t i).0

pub wakeup1-awake :
    (chan : ℕ) (t : Ptable) (i : ℕ)
    → is_sleeping (t.procs i).state ≡ false
    → ((wakeup1 chan t).procs i).state ≡ (t.procs i).state
wakeup1-awake chan t i awake = ap (λ p. p.state) ((wakeup1-frame chan t i).1 awake)

-- Nobody sleeps on the channel after a wakeup.
pub wakeup1-wakes :
    (chan : ℕ) (t : Ptable) (i : ℕ)
    → i < nproc
    → (t.procs i).chan ≡ chan
    → is_sleeping ((wakeup1 chan t).procs i).state ≡ false
wakeup1-wakes chan t i lt waits = rw (wakeup1_lem chan t i lt).0 (woken (t.procs i) waits)
  where
    woken :
        (p : Proc)
        → p.chan ≡ chan
        → is_sleeping
            (if is_sleeping p.state && (p.chan == chan)
              then record p { state = runnable }
              else p).state
          ≡ false
    woken p e = ground arith
