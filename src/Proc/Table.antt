-- ===== src/Proc/Table.antt =====
-- The data of proc.h and proc.c.
use cs537_intro_to_os.Prelude.{
  ℕ, ◌+◌, Bool, true, false, Option, none, some, List, ◌∷◌, ◌==◌, update,
}

pub data State : Type 0 where
  unused embryo sleeping runnable running zombie : State

-- The process's saved registers: `eax` apart, since `fork` sets it.
pub record Trapframe : Type 0 where
  pub eax : ℕ
  pub others : List ℕ

-- `struct proc`. An address is a number, 0 is NULL; `ofile` and `cwd` hold indices of the file
-- table and of the inode cache. The kernel stack's contents (`context`, and where `tf` points) are
-- left out.
pub record Proc : Type 0 where
  pub sz : ℕ
  pub pgdir : ℕ
  pub kstack : ℕ
  pub state : State
  pub pid : ℕ
  pub parent : Option ℕ
  pub tf : Trapframe
  pub chan : ℕ
  pub killed : Bool
  pub ofile : ℕ → Option ℕ
  pub cwd : Option ℕ
  pub name : List ℕ
  pub priority : ℕ
  pub ticks : ℕ → ℕ
  pub accumulated_ticks : ℕ → ℕ
  pub last_tick : ℕ

-- A call that an operation makes into another part of the kernel, for its effect.
pub data Call : Type 0 where
  kfree : ℕ → Call
  freevm : ℕ → Call
  filedup : ℕ → Call
  fileclose : ℕ → Call
  idup : Option ℕ → Call
  iput : Option ℕ → Call

abbrev pub nproc : ℕ
nproc = 64

abbrev pub nofile : ℕ
nofile = 16

-- `ptable`, `nextpid` and `initproc`; `calls` logs the calls made, the latest first.
pub record Ptable : Type 0 where
  pub procs : ℕ → Proc
  pub queues : ℕ → ℕ → Option ℕ
  pub next_pid : ℕ
  pub init : ℕ
  pub calls : List Call

-- `p->state == UNUSED`, and so on
abbrev pub is_unused : State → Bool
is_unused unused = true
is_unused _ = false

abbrev pub is_sleeping : State → Bool
is_sleeping sleeping = true
is_sleeping _ = false

abbrev pub is_runnable : State → Bool
is_runnable runnable = true
is_runnable _ = false

abbrev pub is_zombie : State → Bool
is_zombie zombie = true
is_zombie _ = false

-- `q == p` for a pointer `q` that may be NULL
abbrev pub points_to : Option ℕ → ℕ → Bool
points_to none p = false
points_to (some q) p = q == p

-- The address of slot `p`, as a sleep channel; other channels are numbers above `nproc`.
abbrev pub addr : ℕ → ℕ
addr p = p + 1

-- `ptable.proc[i] = p`
abbrev pub set_proc : Ptable → ℕ → Proc → Ptable
set_proc t i p = record t { procs = update t.procs i p }

-- `ptable.queues[level][i] = q`
abbrev pub set_queue : Ptable → (level i : ℕ) → Option ℕ → Ptable
set_queue t level i q = record t { queues = update t.queues level (update (t.queues level) i q) }

abbrev pub log : Call → Ptable → Ptable
log c t = record t { calls = c ∷ t.calls }
