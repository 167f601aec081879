-- ===== src/Proc/Tests.antt =====
-- The theorems on processes at a concrete table.
use cs537_intro_to_os.Prelude.{ℕ, ◌+◌, ◌<◌, ◌≡◌, ◌≢◌, refl, false, none, some, [], arith, update}
use cs537_intro_to_os.Proc.Table.{
  unused, sleeping, runnable, running, zombie, Proc, Ptable, nproc, addr,
}
use cs537_intro_to_os.Proc.Wakeup.{sleep_enter}
use cs537_intro_to_os.Proc.Life.{fork, exit, wait_round}
use cs537_intro_to_os.Proc.Life.Alloc.{IsNumbered}
use cs537_intro_to_os.Proc.Life.Fork.{Forked, fork-Forked}
use cs537_intro_to_os.Proc.Life.Exit.{Exited, exit-Exited}
use cs537_intro_to_os.Proc.Life.Wait.{is_zombie_child, Reaped, wait_round-Reaped}
use cs537_intro_to_os.Proc.Sched.{found, idle, pick, slice, after_run}
use cs537_intro_to_os.Proc.Sched.Scan.{ready}
use cs537_intro_to_os.Proc.Sched.Pick.{pick-highest, pick-idle}
use cs537_intro_to_os.Proc.Sched.Serve.{Demoted, after_run-Demoted}
use cs537_intro_to_os.Proc.Tick.{boost_all}
use cs537_intro_to_os.Proc.Tick.Boost.{Raised, IsStarving, boost_all-procs, boost_all-early}
use cs537_intro_to_os.Proc.Tick.Places.{places}

abbrev empty_slot : Proc
empty_slot = record {
  sz = 0;
  pgdir = 0;
  kstack = 0;
  state = unused;
  pid = 0;
  parent = none;
  tf = record { eax = 0; others = [] };
  chan = 0;
  killed = false;
  ofile = λ fd. none;
  cwd = none;
  name = [];
  priority = 0;
  ticks = λ l. 0;
  accumulated_ticks = λ l. 0;
  last_tick = 0;
}

-- init, asleep in `wait`; a process with two open files; its zombie child; one at level 2
abbrev init_proc : Proc
init_proc = record empty_slot { state = sleeping; pid = 1; chan = addr 0 }

abbrev shell : Proc
shell = record empty_slot {
  state = running;
  pid = 2;
  parent = some 0;
  ofile = update (update (λ fd. none) 0 (some 4)) 1 (some 5);
  ticks = update (λ l. 0) 0 5;
}

abbrev corpse : Proc
corpse = record empty_slot { state = zombie; pid = 3; parent = some 1; kstack = 4096; pgdir = 8192 }

abbrev starving : Proc
starving = record empty_slot {
  state = runnable;
  pid = 4;
  parent = some 0;
  priority = 2;
  last_tick = 10;
}

abbrev table : Ptable
table = record {
  procs =
      update (update (update (update (λ i. empty_slot) 0 init_proc) 1 shell) 2 corpse) 3 starving;
  queues =
      update (update (λ l i. none) 0 (update (λ i. none) 0 (some 1))) 2
        (update (λ i. none) 0 (some 3));
  next_pid = 5;
  init = 0;
  calls = [];
}

abbrev asleep : Ptable
asleep = record table {
  procs = update table.procs 1 (record shell { chan = 70; state = sleeping });
}

sleeps : sleep_enter (some 1) 70 table ≡ some asleep
unfolding sleep_enter
sleeps = refl

abbrev two_procs : Ptable
two_procs = record table { procs = update (update (λ i. empty_slot) 1 shell) 2 corpse }

two_procs-IsNumbered : IsNumbered two_procs
two_procs-IsNumbered = record {
  old = λ i lt u. ground arith;
  apart = λ i j lt lt' u u' e. ground arith;
}

fork-Forked_example : Forked 1 4096 8192 table (fork 1 4096 8192 table)
fork-Forked_example =
    fork-Forked 1 4096 8192 table 4 (λ e. cc) (λ e. omega arith) (λ e. omega arith) (omega arith)
      refl

exit-Exited_example :
    let cur : ℕ = 1 in
    (cur ≡ 0 → exit 1 table ≡ none)
    × (cur ≢ 0 → (u : Ptable) × (exit 1 table ≡ some u) × Exited 1 table u)
exit-Exited_example = exit-Exited 1 table

wait_round-Reaped_example : Reaped 1 table (wait_round 1 table)
wait_round-Reaped_example = wait_round-Reaped 1 table 2 (omega arith) refl

-- init's children are alive
no_dead_child : (i : ℕ) → i < nproc → is_zombie_child 0 table i ≡ false
no_dead_child i lt = ground arith

picked : (pick none table).0 ≡ found 2 0 3
unfolding pick
picked = refl

pick-highest_example :
    (2 < 4)
    × (table.queues 2 0 ≡ some 3)
    × ((table.procs 3).state ≡ runnable)
    × ((l' x : ℕ) → l' < 2 → x < nproc → ready table l' x ≡ false)
pick-highest_example = pick-highest none table 2 0 3 (omega arith) picked

abbrev quiet : Ptable
quiet = record table { queues = update (λ l i. none) 3 (update (λ i. none) 7 (some 1)) }

quiet-idle : (pick (some 9) quiet).0 ≡ idle
unfolding pick
quiet-idle = refl

pick-idle_example : ready quiet 3 7 ≡ false
pick-idle_example =
    pick-idle (some 9) quiet (omega arith) quiet-idle 3 7 (omega arith) (omega arith)

after_run-Demoted_example :
    (5 ≡ slice 0 → Demoted 0 0 1 table (after_run 0 0 1 table))
    × (5 ≢ slice 0 → after_run 0 0 1 table ≡ table)
after_run-Demoted_example = after_run-Demoted 0 0 1 table 0 (omega arith) refl

boost_all-procs_example :
    (IsStarving 200 starving → Raised 200 3 table (boost_all 200 table))
    × (¬ IsStarving 200 starving
        → ((boost_all 200 table).procs 3 ≡ starving)
          × ((l : ℕ) → places l 3 (boost_all 200 table) ≡ places l 3 table))
boost_all-procs_example = boost_all-procs 200 table 3 (omega arith) (omega arith) (omega arith)

boost_all-early_example : ((boost_all 20 table).procs 3).priority + 1 ≡ 2
boost_all-early_example =
    boost_all-early 20 table 3 (omega arith) (omega arith) refl (omega arith) (omega arith)
