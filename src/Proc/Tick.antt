-- ===== src/Proc/Tick.antt =====
-- The timer tick of Project2b/xv6/kernel/trap.c: it counts the tick, and every hundredth tick it
-- moves starving processes up one level.
pub mod Places
pub mod Boost
use cs537_intro_to_os.Prelude.{
  ℕ, ◌+◌, ◌-◌, ◌%◌, ◌^◌, Bool, ◌&&◌, ltb, leb, ◌==◌, if◌then◌else◌, update, for_each,
}
use cs537_intro_to_os.Proc.Table.{Proc, Ptable, nproc, is_runnable, set_proc}
use cs537_intro_to_os.Proc.Queue.{enqueue, dequeue}
use cs537_intro_to_os.Proc.Wakeup.{yield}

-- `p->state == RUNNABLE && now - 100 > p->lastTick`, in 32-bit unsigned arithmetic
abbrev pub starves : (now : ℕ) → Proc → Bool
starves now p = is_runnable p.state && ltb p.last_tick ((now + 2 ^ 32 - 100) % 2 ^ 32)

-- `p->priority--`, and `for (; j <= currPrio; j++) p->ticks[j] = 0;` from the new priority on: two
-- levels start again.
abbrev pub raise : Proc → Proc
raise p = record p {
  priority = p.priority - 1;
  ticks = update (update p.ticks (p.priority - 1) 0) p.priority 0;
}

-- the body of the loop over the table
unfoldable pub boost_one : (now : ℕ) → ℕ → Ptable → Ptable
boost_one now i t =
    let p = t.procs i in
    let lower = dequeue p.priority i t in
    let moved = enqueue (p.priority - 1) i lower in
    if starves now p && ltb 0 p.priority then set_proc moved i (raise p) else t

unfoldable pub boost_all : (now : ℕ) → Ptable → Ptable
boost_all now t = for_each nproc 0 (boost_one now) t

-- The process `cur` was running: `starv` is `starvTicks`, `now` is `sys_uptime()`.
unfoldable pub timer_tick : (cur now starv : ℕ) → Ptable → ℕ × Ptable
unfolding yield
timer_tick cur now starv t =
    let c = t.procs cur in
    let counted = set_proc t cur (record c {
      ticks = update c.ticks c.priority (c.ticks c.priority + 1);
      accumulated_ticks =
          update c.accumulated_ticks c.priority (c.accumulated_ticks c.priority + 1);
    }) in
    if starv + 1 == 100
    then (0, yield cur (boost_all now counted))
    else (starv + 1, yield cur counted)
