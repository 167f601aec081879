-- ===== src/Proc/Life.antt =====
-- The life of a process: `allocproc`, `fork`, `exit` and `wait` of proc.c. What `kalloc` and
-- `copyuvm` return is an argument, 0 for a failure.
pub mod Alloc
pub mod Calls
pub mod Fork
pub mod Exit
pub mod Wait
use cs537_intro_to_os.Prelude.{
  ℕ, zero, suc, ◌+◌, Bool, true, false, not, ◌&&◌, ◌||◌, Option, none, some, [], ◌==◌,
  if◌then◌else◌, update, find_from, for_each,
}
use cs537_intro_to_os.Proc.Table.{
  unused, embryo, runnable, zombie, kfree, freevm, filedup, fileclose, idup, iput, nproc, nofile,
  Ptable, is_unused, is_zombie, points_to, addr, set_proc, log,
}
use cs537_intro_to_os.Proc.Queue.{enqueue}
use cs537_intro_to_os.Proc.Wakeup.{wakeup1}

abbrev pub unused_at : Ptable → ℕ → Bool
unused_at t i = is_unused (t.procs i).state

-- `kstack` is what `kalloc` returns.
unfoldable pub allocproc : (kstack : ℕ) → Ptable → Option ℕ × Ptable
allocproc kstack t = elim (find_from nproc 0 (unused_at t)) [
  | none ↦ (none, t)
  | some i ↦
      let t' = record t { next_pid = t.next_pid + 1 } in
      let p = record (t.procs i) { state = embryo; pid = t.next_pid; kstack = kstack } in
      if kstack == 0
      then (none, set_proc t' i (record p { state = unused }))
      else (some i, set_proc t' i p)
]

-- `if(proc->ofile[i]) np->ofile[i] = filedup(proc->ofile[i]);`
unfoldable pub dup_file : (cur np : ℕ) → ℕ → Ptable → Ptable
dup_file cur np fd t = elim ((t.procs cur).ofile fd) [
  | none ↦ t
  | some f ↦
      let c = t.procs np in
      log (filedup f) (set_proc t np (record c { ofile = update c.ofile fd (some f) }))
]

-- `fork` from its second guard on, with the slot that `allocproc` found. `pgdir` is what `copyuvm`
-- returns. The result is the child's id, or `none` for -1.
unfoldable pub fork_into : (cur pgdir : ℕ) → ℕ → Ptable → Option ℕ × Ptable
unfolding dup_file
fork_into cur pgdir np t =
    let child = t.procs np in
    let me = t.procs cur in
    let t0 = set_proc t np (record child { pgdir = 0; kstack = 0; state = unused }) in
    let t1 = enqueue 0 np (set_proc t np (record child { pgdir = pgdir; priority = 0 })) in
    let t2 =
      set_proc t1 np
        (record (t1.procs np) { sz = me.sz; parent = some cur; tf = record me.tf { eax = 0 } }) in
    let t3 = for_each nofile 0 (dup_file cur np) t2 in
    let t4 =
      set_proc t3 np (record (t3.procs np) { cwd = me.cwd; state = runnable; name = me.name }) in
    if pgdir == 0
    then (none, log (kfree child.kstack) t0)
    else (some child.pid, log (idup me.cwd) t4)

abbrev pub fork_with : (cur pgdir : ℕ) → Option ℕ × Ptable → Option ℕ × Ptable
fork_with cur pgdir (none, t) = (none, t)
fork_with cur pgdir (some np, t) = fork_into cur pgdir np t

unfoldable pub fork : (cur kstack pgdir : ℕ) → Ptable → Option ℕ × Ptable
fork cur kstack pgdir t = fork_with cur pgdir (allocproc kstack t)

-- `if(proc->ofile[fd]){ fileclose(proc->ofile[fd]); proc->ofile[fd] = 0; }`
unfoldable pub close_file : (cur : ℕ) → ℕ → Ptable → Ptable
close_file cur fd t = elim ((t.procs cur).ofile fd) [
  | none ↦ t
  | some f ↦
      let c = t.procs cur in
      log (fileclose f) (set_proc t cur (record c { ofile = update c.ofile fd none }))
]

abbrev pub addr_of : Option ℕ → ℕ
addr_of none = 0
addr_of (some p) = addr p

-- one round of the loop that passes abandoned children to init
unfoldable pub adopt : (cur : ℕ) → ℕ → Ptable → Ptable
adopt cur i t =
    let t' = set_proc t i (record (t.procs i) { parent = some t.init }) in
    if points_to (t.procs i).parent cur
    then (if is_zombie (t.procs i).state then wakeup1 (addr t.init) t' else t')
    else t

-- the first part of `exit`, before it takes the lock: close all files, and leave the directory
unfoldable pub drop_files : (cur : ℕ) → Ptable → Ptable
unfolding close_file
drop_files cur t =
    let t1 = for_each nofile 0 (close_file cur) t in
    log (iput (t1.procs cur).cwd) (set_proc t1 cur (record (t1.procs cur) { cwd = none }))

-- the second part: wake the parent, and pass the children to init
unfoldable pub pass_children : (cur : ℕ) → Ptable → Ptable
unfolding adopt
pass_children cur t = for_each nproc 0 (adopt cur) (wakeup1 (addr_of (t.procs cur).parent) t)

-- `exit` up to its call of `sched`; `none` is the panic "init exiting".
unfoldable pub exit : (cur : ℕ) → Ptable → Option Ptable
unfolding drop_files pass_children
exit cur t =
    let u = pass_children cur (drop_files cur t) in
    if cur == t.init then none else some (set_proc u cur (record (u.procs cur) { state = zombie }))

-- The scan of `wait`: whether it met a child, and the first zombie among the children.
unfoldable pub scan_children : (rounds i cur : ℕ) → (kids : Bool) → Ptable → Bool × Option ℕ
scan_children zero i cur kids t = (kids, none)
scan_children (suc k) i cur kids t =
    let child = points_to (t.procs i).parent cur in
    let rest = scan_children k (i + 1) cur (child || kids) t in
    if child && is_zombie (t.procs i).state then (true, some i) else rest

-- the slot that `wait` gives back
unfoldable pub reap : ℕ → Ptable → Ptable
reap i t =
    let p = t.procs i in
    log (freevm p.pgdir) (
      log (kfree p.kstack) (
        set_proc t i (record p {
          kstack = 0;
          state = unused;
          pid = 0;
          parent = none;
          name = [];
          killed = false;
        })))

-- How one round of the loop of `wait` ends; `blocked` goes to sleep on the process's own address.
pub data WaitEnd : Type 0 where
  reaped : (pid : ℕ) → WaitEnd
  no_child blocked : WaitEnd

abbrev pub wait_result : (cur : ℕ) → Ptable → Bool × Option ℕ → WaitEnd × Ptable
wait_result cur t (kids, some i) = (reaped (t.procs i).pid, reap i t)
wait_result cur t (kids, none) =
    if not kids || (t.procs cur).killed then (no_child, t) else (blocked, t)

unfoldable pub wait_round : (cur : ℕ) → Ptable → WaitEnd × Ptable
wait_round cur t = wait_result cur t (scan_children nproc 0 cur false t)
