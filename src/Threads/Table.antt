-- ===== src/Threads/Table.antt =====
-- The data of Project4b/xv6/kernel/proc.h, and `wakeup1` of proc.c beside it.
use cs537_intro_to_os.Prelude.{
  ℕ, Bool, ◌&&◌, Option, List, ◌∷◌, ◌==◌, if◌then◌else◌, update, for_slots,
}
use cs537_intro_to_os.Proc.Table.{State, runnable, Call, nproc, is_sleeping}

-- `thread_t`; `is_thread` as a Boolean. A function and a stack are user addresses.
pub record ThreadInfo : Type 0 where
  pub func : ℕ
  pub arg : ℕ
  pub stack : ℕ
  pub is_thread : Bool

-- the saved registers: those that `thread_fork` sets, and the others
pub record Trapframe : Type 0 where
  pub eax : ℕ
  pub eip : ℕ
  pub esp : ℕ
  pub ebp : ℕ
  pub others : List ℕ

-- `struct proc`, as in Proc.Table; `context` is left out.
pub record Proc : Type 0 where
  pub sz : ℕ
  pub pgdir : ℕ
  pub kstack : ℕ
  pub state : State
  pub pid : ℕ
  pub parent : Option ℕ
  pub tf : Trapframe
  pub chan : ℕ
  pub killed : Bool
  pub ofile : ℕ → Option ℕ
  pub cwd : Option ℕ
  pub name : List ℕ
  pub thread_info : ThreadInfo

-- `ptable`, `nextpid` and `initproc`; the words of user memory by page table and address; and the
-- calls into other parts of the kernel, the latest first.
pub record Ptable : Type 0 where
  pub procs : ℕ → Proc
  pub next_pid : ℕ
  pub init : ℕ
  pub user : ℕ → ℕ → ℕ
  pub calls : List Call

abbrev pub set_proc : Ptable → ℕ → Proc → Ptable
set_proc t i p = record t { procs = update t.procs i p }

abbrev pub log : Call → Ptable → Ptable
log c t = record t { calls = c ∷ t.calls }

-- `*(uint *) address = word` in an address space
abbrev pub put_word : (pgdir address word : ℕ) → Ptable → Ptable
put_word pgdir address word t = record t {
  user = update t.user pgdir (update (t.user pgdir) address word);
}

abbrev pub wake_one : (chan : ℕ) → Proc → Proc
wake_one chan p =
    if is_sleeping p.state && (p.chan == chan) then record p { state = runnable } else p

abbrev pub wakeup1 : (chan : ℕ) → Ptable → Ptable
wakeup1 chan t = record t { procs = for_slots nproc 0 (wake_one chan) t.procs }
