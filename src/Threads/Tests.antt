-- ===== src/Threads/Tests.antt =====
-- The theorems on threads at a table of init and one process.
use cs537_intro_to_os.Prelude.{
  ℕ, ◌≡◌, refl, true, false, none, some, [], ◌∷◌, arith, update, Option, if◌then◌else◌, ◌==◌,
  IsFirst,
}
use cs537_intro_to_os.Proc.Table.{State, unused, running, zombie, kfree, freevm, nproc}
use cs537_intro_to_os.Threads.Table.{ThreadInfo, Proc, Ptable}
use cs537_intro_to_os.Threads.{reaped, is_child, thread_fork, exit, wait_round, join_round}
use cs537_intro_to_os.Threads.Search.{zombie_at}
use cs537_intro_to_os.Threads.Join.{clone-exit-join, wait_round-frees}

abbrev no_thread : ThreadInfo
no_thread = record { func = 0; arg = 0; stack = 0; is_thread = false }

abbrev entry : (state : State) → (pid : ℕ) → (parent : Option ℕ) → ThreadInfo → Proc
entry state pid parent info = record {
  sz = 4096;
  pgdir = 77;
  kstack = 9;
  state = state;
  pid = pid;
  parent = parent;
  tf = record { eax = 0; eip = 0; esp = 0; ebp = 0; others = [] };
  chan = 0;
  killed = false;
  ofile = λ fd. none;
  cwd = some 1;
  name = [];
  thread_info = info;
}

abbrev two_procs : Ptable
two_procs = record {
  procs = λ x.
      if x == 0
      then entry running 1 none no_thread
      else if x == 1
      then entry running 2 (some 0) no_thread
      else entry unused 0 none no_thread;
  next_pid = 3;
  init = 0;
  user = λ m a. 0;
  calls = [];
}

abbrev worker : ThreadInfo
worker = record { func = 100; arg = 5; stack = 8192; is_thread = false }

clone-exit-join_example :
    (slot : ℕ) × (u : Ptable) × ((thread_fork 1 worker 55 two_procs).0 ≡ some 3)
    × (exit slot (thread_fork 1 worker 55 two_procs).1 ≡ some u)
    × ((join_round 1 300 u).0 ≡ reaped 3)
    × ((join_round 1 300 u).1.user (u.procs 1).pgdir 300 ≡ 8192)
    × ((join_round 1 300 u).1.calls ≡ kfree 55 ∷ [])
clone-exit-join_example =
    clone-exit-join 1 worker 55 300 two_procs 9 refl refl (λ e. omega arith) (λ e. omega arith)
      (omega arith) refl (λ x lt. ground arith)

-- Slot 2 holds a zombie thread of the process in slot 1.
abbrev with_zombie : Ptable
with_zombie = record two_procs {
  procs = update two_procs.procs 2 (entry zombie 3 (some 1) (record worker { is_thread = true }));
}

wait_round-frees_example :
    (i : ℕ) × IsFirst (zombie_at (is_child 1 with_zombie) with_zombie) 0 nproc i
    × ((wait_round 1 with_zombie).0 ≡ reaped (with_zombie.procs i).pid)
    × ((wait_round 1 with_zombie).1.calls
        ≡ freevm (with_zombie.procs i).pgdir ∷ kfree (with_zombie.procs i).kstack ∷ [])
    × (((wait_round 1 with_zombie).1.procs i).thread_info ≡ (with_zombie.procs i).thread_info)
wait_round-frees_example = wait_round-frees 1 with_zombie 2 (omega arith) refl
