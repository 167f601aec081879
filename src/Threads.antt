-- ===== src/Threads.antt =====
-- The threads of Project4b/xv6/kernel/proc.c: a thread is an entry of the process table that shares
-- the page table, the open files and the directory of its parent. What `kalloc` and `allocuvm` return
-- is an argument, 0 for a failure; an argument of a system call is `none` where `argptr` refuses it.
pub mod Table
pub mod Search
pub mod Clone
pub mod Exit
pub mod Join
mod Tests
use cs537_intro_to_os.Prelude.{
  ℕ, zero, suc, ◌+◌, ◌-◌, ◌%◌, ◌^◌, Bool, true, false, not, ◌&&◌, ◌||◌, Option, none, some, List,
  [], ◌∷◌, ◌==◌, if◌then◌else◌, update, find_from, for_each, for_slots,
}
use cs537_intro_to_os.Proc.Table.{
  State, unused, embryo, runnable, zombie, kfree, freevm, fileclose, iput, nproc, nofile, is_unused,
  is_zombie, points_to, addr,
}
use cs537_intro_to_os.Threads.Table.{
  ThreadInfo, Trapframe, Proc, Ptable, set_proc, log, put_word, wakeup1,
}

-- `KSTACKSIZE`
abbrev pub kstacksize : ℕ
kstacksize = 4096

-- `allocthread`, and `allocproc` beside it, which has the same text.
unfoldable pub allocthread : (kstack : ℕ) → Ptable → Option ℕ × Ptable
allocthread kstack t = elim (find_from nproc 0 (λ i. is_unused (t.procs i).state)) [
  | none ↦ (none, t)
  | some i ↦
      let t' = record t { next_pid = t.next_pid + 1 } in
      let p = record (t.procs i) { state = embryo; pid = t.next_pid; kstack = kstack } in
      if kstack == 0
      then (none, set_proc t' i (record p { state = unused }))
      else (some i, set_proc t' i p)
]

-- `if(parent_proc->ofile[i]) np->ofile[i] = parent_proc->ofile[i];` for all descriptors
abbrev pub shared_files : (parent child : ℕ → Option ℕ) → ℕ → Option ℕ
shared_files parent child =
    for_each nofile 0
      (λ fd files. elim (parent fd) [ none ↦ files | some f ↦ update files fd (some f) ]) child

-- The words that `thread_fork` puts on the thread's stack: its argument, and a return address.
abbrev pub stack_top : ThreadInfo → ℕ
stack_top tinfo = (tinfo.stack + kstacksize) % 2 ^ 32

abbrev pub below : (address bytes : ℕ) → ℕ
below address bytes = (address + (2 ^ 32 - bytes)) % 2 ^ 32

-- `thread_fork` with the slot that `allocthread` found
unfoldable pub thread_fork_into : (parent : ℕ) → ThreadInfo → (np : ℕ) → Ptable → Option ℕ × Ptable
thread_fork_into parent tinfo np t =
    let me = t.procs parent in
    let child = t.procs np in
    let top = stack_top tinfo in
    let words =
      put_word me.pgdir (below top 8) 0xffff_ffff (put_word me.pgdir (below top 4) tinfo.arg t) in
    let p : Proc = record child {
      pgdir = me.pgdir;
      sz = me.sz;
      parent = some parent;
      tf = record me.tf { eip = tinfo.func; esp = below top 8; ebp = top; eax = 0 };
      ofile = shared_files me.ofile child.ofile;
      cwd = me.cwd;
      thread_info = record tinfo { is_thread = true };
      state = runnable;
      name = me.name;
    } in
    (some child.pid, set_proc words np p)

abbrev pub thread_fork_with : (parent : ℕ) → ThreadInfo → Option ℕ × Ptable → Option ℕ × Ptable
thread_fork_with parent tinfo (none, t) = (none, t)
thread_fork_with parent tinfo (some np, t) = thread_fork_into parent tinfo np t

unfoldable pub thread_fork : (parent : ℕ) → ThreadInfo → (kstack : ℕ) → Ptable → Option ℕ × Ptable
thread_fork parent tinfo kstack t = thread_fork_with parent tinfo (allocthread kstack t)

-- The result is the thread's id, or `none` for -1; `is_thread` of the copy is set by `thread_fork`.
unfoldable pub sys_clone :
    (cur : ℕ) → (func arg stack : Option ℕ) → (kstack : ℕ) → Ptable → Option ℕ × Ptable
sys_clone cur (some func) (some arg) (some stack) kstack t =
    thread_fork cur (record { func = func; arg = arg; stack = stack; is_thread = false }) kstack t
sys_clone cur (some func) (some arg) none kstack t = (none, t)
sys_clone cur (some func) none stack kstack t = (none, t)
sys_clone cur none arg stack kstack t = (none, t)

-- `exit` for a process closes the files and leaves the directory; for a thread it does not.
unfoldable pub close_file : (cur fd : ℕ) → Ptable → Ptable
close_file cur fd t = elim ((t.procs cur).ofile fd) [
  | none ↦ t
  | some f ↦
      let p = t.procs cur in
      log (fileclose f) (set_proc t cur (record p { ofile = update p.ofile fd none }))
]

unfoldable pub drop_files : (cur : ℕ) → Ptable → Ptable
drop_files cur t =
    let closed = for_each nofile 0 (close_file cur) t in
    let left =
      if (t.procs cur).thread_info.is_thread then t else log (iput (t.procs cur).cwd) closed in
    set_proc left cur (record (left.procs cur) { cwd = none })

abbrev pub addr_of : Option ℕ → ℕ
addr_of none = 0
addr_of (some p) = addr p

unfoldable pub adopt : (cur : ℕ) → ℕ → Ptable → Ptable
adopt cur i t =
    let t' = set_proc t i (record (t.procs i) { parent = some t.init }) in
    if points_to (t.procs i).parent cur
    then (if is_zombie (t.procs i).state then wakeup1 (addr t.init) t' else t')
    else t

unfoldable pub pass_children : (cur : ℕ) → Ptable → Ptable
pass_children cur t = for_each nproc 0 (adopt cur) (wakeup1 (addr_of (t.procs cur).parent) t)

-- `exit` up to its call of `sched`; `none` is the panic "init exiting".
unfoldable pub exit : (cur : ℕ) → Ptable → Option Ptable
exit cur t =
    let u = pass_children cur (drop_files cur t) in
    if cur == t.init then none else some (set_proc u cur (record (u.procs cur) { state = zombie }))

-- The scan of `wait` and of `sys_join`: whether it met a child of the kind that is asked for, and the
-- first zombie among these.
unfoldable pub scan_children :
    (rounds i : ℕ) → (child : ℕ → Bool) → (kids : Bool) → Ptable → Bool × Option ℕ
scan_children zero i child kids t = (kids, none)
scan_children (suc k) i child kids t =
    let rest = scan_children k (i + 1) child (child i || kids) t in
    if child i && is_zombie (t.procs i).state then (true, some i) else rest

-- How one round of the loop of `wait` or `sys_join` ends; `blocked` goes to sleep on the process's own
-- address.
pub data WaitEnd : Type 0 where
  reaped : (pid : ℕ) → WaitEnd
  no_child blocked : WaitEnd

abbrev pub freed : Proc → Proc
freed p = record p { kstack = 0; state = unused; pid = 0; parent = none; name = []; killed = false }

abbrev pub end_round :
    (cur : ℕ) → (reap : ℕ → Ptable → Ptable) → Ptable → Bool × Option ℕ → WaitEnd × Ptable
end_round cur reap t (kids, some i) = (reaped (t.procs i).pid, reap i t)
end_round cur reap t (kids, none) =
    if not kids || (t.procs cur).killed then (no_child, t) else (blocked, t)

-- what `wait` does with the slot of a zombie child
abbrev pub reap : ℕ → Ptable → Ptable
reap i t = let p = t.procs i in log (freevm p.pgdir) (log (kfree p.kstack) (set_proc t i (freed p)))

abbrev pub is_child : (cur : ℕ) → Ptable → ℕ → Bool
is_child cur t i = points_to (t.procs i).parent cur

unfoldable pub wait_round : (cur : ℕ) → Ptable → WaitEnd × Ptable
wait_round cur t = end_round cur reap t (scan_children nproc 0 (is_child cur t) false t)

-- What `sys_join` does with the slot of a zombie thread; `stack` is the address that it is given.
abbrev pub join_thread : (cur stack : ℕ) → ℕ → Ptable → Ptable
join_thread cur stack i t =
    let p = t.procs i in
    let info = record p.thread_info { is_thread = false } in
    put_word (t.procs cur).pgdir stack p.thread_info.stack
      (log (kfree p.kstack) (set_proc t i (record (freed p) { thread_info = info })))

-- `p->parent == proc && p->thread_info.is_thread`
abbrev pub is_child_thread : (cur : ℕ) → Ptable → ℕ → Bool
is_child_thread cur t i = is_child cur t i && (t.procs i).thread_info.is_thread

-- One round of the loop of `sys_join`.
unfoldable pub join_round : (cur stack : ℕ) → Ptable → WaitEnd × Ptable
join_round cur stack t =
    end_round cur (join_thread cur stack) t (scan_children nproc 0 (is_child_thread cur t) false t)

-- `growproc` for the process `cur`; `grown` is the size that `allocuvm` or `deallocuvm` returns, or the
-- old one where neither is called, and `none` for a failure. `false` is the result -1.
abbrev pub grow_one : (pid sz : ℕ) → Proc → Proc
grow_one pid sz p = if pid == p.pid then record p { sz = sz } else p

unfoldable pub growproc : (cur : ℕ) → (grown : Option ℕ) → Ptable → Bool × Ptable
growproc cur none t = (false, t)
growproc cur (some sz) t =
    let me = set_proc t cur (record (t.procs cur) { sz = sz }) in
    (true, record me { procs = for_slots nproc 0 (grow_one (t.procs cur).pid sz) me.procs })
