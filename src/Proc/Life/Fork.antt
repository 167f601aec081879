-- ===== src/Proc/Life/Fork.antt =====
-- What `fork` leaves in the table.
use cs537_intro_to_os.Prelude.{
  ℕ, zero, suc, ◌+◌, ◌<◌, ◌≡◌, ◌≢◌, refl, ◌∙◌, false, Option, none, some, ◌∷◌, update_ne, ap, arith,
  ◌==◌, for_each, ltb, leb, if◌then◌else◌, ◌&&◌,
}
use cs537_intro_to_os.Proc.Table.{
  filedup, idup, unused, runnable, Proc, Ptable, nproc, nofile, set_proc,
}
use cs537_intro_to_os.Proc.Queue.{enqueue, enqueue-frame, enqueue-queues}
use cs537_intro_to_os.Proc.Life.{allocproc, dup_file, fork_into, fork_with, fork}
use cs537_intro_to_os.Proc.Life.Calls.{file_call, file_calls}
use cs537_intro_to_os.Proc.Life.Alloc.{Allocated, allocproc-Allocated}

abbrev pub or_else : Option ℕ → Option ℕ → Option ℕ
or_else none b = b
or_else (some a) b = some a

-- The loop over the open files from descriptor `i` on, for `k` rounds: only the child's `ofile`
-- changes.
record Dups (cur np k i : ℕ) (t u : Ptable) : Type 0 where
  others : (x : ℕ) → x ≢ np → u.procs x ≡ t.procs x
  files :
      (fd : ℕ)
      → (u.procs np).ofile fd ≡ (
          if leb i fd && ltb fd (i + k)
          then or_else ((t.procs cur).ofile fd) ((t.procs np).ofile fd)
          else (t.procs np).ofile fd)
  rest : u.procs np ≡ record (t.procs np) { ofile = (u.procs np).ofile }
  queues : u.queues ≡ t.queues
  next : u.next_pid ≡ t.next_pid
  init : u.init ≡ t.init
  calls : u.calls ≡ file_calls filedup k i (t.procs cur).ofile t.calls

dup_file-calls :
    (cur np i : ℕ) (t : Ptable)
    → cur ≢ np
    → ((dup_file cur np i t).procs cur ≡ t.procs cur)
      × ((dup_file cur np i t).calls ≡ file_call filedup ((t.procs cur).ofile i) t.calls)
unfolding dup_file
dup_file-calls cur np i t ne = (ground arith, ground arith)

dup_loop :
    (cur np k i : ℕ) (t : Ptable) → cur ≢ np → Dups cur np k i t (for_each k i (dup_file cur np) t)
unfolding for_each dup_file file_calls
dup_loop cur np zero i t ne = record {
  others = λ x o. refl;
  files = λ fd. ground arith;
  rest = refl;
  queues = refl;
  next = refl;
  init = refl;
  calls = refl;
}
dup_loop cur np (suc k) i t ne =
    let ih : Dups cur np k (i + 1) (dup_file cur np i t)
        (for_each k (i + 1) (dup_file cur np) (dup_file cur np i t)) =
      dup_loop cur np k (i + 1) (dup_file cur np i t) ne in
    record {
      others = λ x o. ground (arith, ih.others x o);
      files = λ fd. ground (arith, ih.files fd, ih.others cur ne);
      rest = ground (arith, ih.rest);
      queues = ground (arith, ih.queues);
      next = ground (arith, ih.next);
      init = ground (arith, ih.init);
      calls =
          ih.calls ∙ rw ((dup_file-calls cur np i t ne).0, (dup_file-calls cur np i t ne).1) refl;
    }

-- What a successful `fork` leaves: a child in a slot that was unused.
pub record Forked (cur kstack pgdir : ℕ) (t : Ptable) (r : Option ℕ × Ptable) : Type 0 where
  pub slot : ℕ
  pub in_range : slot < nproc
  pub was_unused : (t.procs slot).state ≡ unused
  pub returns : r.0 ≡ some t.next_pid
  pub id : (r.1.procs slot).pid ≡ t.next_pid
  pub next : r.1.next_pid ≡ t.next_pid + 1
  pub state : (r.1.procs slot).state ≡ runnable
  pub parent : (r.1.procs slot).parent ≡ some cur
  pub memory :
      ((r.1.procs slot).pgdir ≡ pgdir)
      × ((r.1.procs slot).sz ≡ (t.procs cur).sz)
      × ((r.1.procs slot).kstack ≡ kstack)
  pub place :
      ((r.1.procs slot).cwd ≡ (t.procs cur).cwd) × ((r.1.procs slot).name ≡ (t.procs cur).name)
  pub registers : (r.1.procs slot).tf ≡ record (t.procs cur).tf { eax = 0 }
  pub files :
      (fd : ℕ)
      → fd < nofile
      → (r.1.procs slot).ofile fd ≡ or_else ((t.procs cur).ofile fd) ((t.procs slot).ofile fd)
  pub top : (r.1.procs slot).priority ≡ 0
  pub queued : r.1.queues ≡ (enqueue 0 slot t).queues
  pub others : (x : ℕ) → x ≢ slot → r.1.procs x ≡ t.procs x
  -- the counts, the channel and the mark of a killed process are those that the slot's last process left
  pub ticks : (r.1.procs slot).ticks ≡ (t.procs slot).ticks
  pub kept :
      ((r.1.procs slot).accumulated_ticks ≡ (t.procs slot).accumulated_ticks)
      × ((r.1.procs slot).last_tick ≡ (t.procs slot).last_tick)
      × ((r.1.procs slot).chan ≡ (t.procs slot).chan)
      × ((r.1.procs slot).killed ≡ (t.procs slot).killed)
  pub same_init : r.1.init ≡ t.init
  -- one `filedup` for each open file, then `idup`
  pub calls :
      r.1.calls ≡ idup (t.procs cur).cwd ∷ file_calls filedup nofile 0 (t.procs cur).ofile t.calls

enqueue-set_proc :
    (level p : ℕ) (t : Ptable) (c : Proc)
    → (enqueue level p (set_proc t p c)).queues ≡ (enqueue level p t).queues
unfolding enqueue
enqueue-set_proc level p t c = ground arith

-- The part of `fork` behind `allocproc`, on a slot other than the parent's.
record Into (cur pgdir np : ℕ) (t : Ptable) (r : Option ℕ × Ptable) : Type 0 where
  returns : r.0 ≡ some (t.procs np).pid
  child : r.1.procs np ≡ record (t.procs np) {
    pgdir = pgdir;
    priority = 0;
    sz = (t.procs cur).sz;
    parent = some cur;
    tf = record (t.procs cur).tf { eax = 0 };
    ofile = (r.1.procs np).ofile;
    cwd = (t.procs cur).cwd;
    state = runnable;
    name = (t.procs cur).name;
  }
  files :
      (fd : ℕ)
      → fd < nofile
      → (r.1.procs np).ofile fd ≡ or_else ((t.procs cur).ofile fd) ((t.procs np).ofile fd)
  queued : r.1.queues ≡ (enqueue 0 np t).queues
  others : (x : ℕ) → x ≢ np → r.1.procs x ≡ t.procs x
  next : r.1.next_pid ≡ t.next_pid
  init : r.1.init ≡ t.init
  calls :
      r.1.calls ≡ idup (t.procs cur).cwd ∷ file_calls filedup nofile 0 (t.procs cur).ofile t.calls

fork_into-Into :
    (cur pgdir np : ℕ) (t : Ptable)
    → cur ≢ np
    → pgdir ≢ 0
    → Into cur pgdir np t (fork_into cur pgdir np t)
unfolding fork_into
fork_into-Into cur pgdir np t ne some_pages =
    let real : (pgdir == 0) ≡ false = ground arith in
    let placed = set_proc t np (record (t.procs np) { pgdir = pgdir; priority = 0 }) in
    let t1 = enqueue 0 np placed in
    let t2 = set_proc t1 np (record (t1.procs np) {
      sz = (t.procs cur).sz;
      parent = some cur;
      tf = record (t.procs cur).tf { eax = 0 };
    }) in
    let frame = enqueue-frame 0 np placed in
    let same_queues =
      enqueue-set_proc 0 np t (record (t.procs np) { pgdir = pgdir; priority = 0 }) in
    let dups : Dups cur np nofile 0 t2 (for_each nofile 0 (dup_file cur np) t2) =
      dup_loop cur np nofile 0 t2 ne in
    rw (real, fork_into)
      (record {
        returns = refl;
        child = ground (arith, dups.rest);
        files = λ fd lt. ground (arith, dups.files fd);
        queued = dups.queues ∙ same_queues;
        others = λ x o. ground (arith, dups.others x o);
        next = ground (arith, dups.next);
        init = ground (arith, dups.init);
        calls =
            let me : t2.procs cur ≡ t.procs cur =
              update_ne t1.procs np _ cur ne
              ∙ ap (λ f. f cur) frame.0
              ∙ update_ne t.procs np _ cur ne in
            ap (λ l. idup (t.procs cur).cwd ∷ l) (dups.calls ∙ rw (me, frame.3) refl);
      })

Forked-of :
    (cur kstack pgdir : ℕ) (t : Ptable) (r : Option ℕ × Ptable)
    → (t.procs cur).state ≢ unused
    → pgdir ≢ 0
    → Allocated kstack t r
    → Forked cur kstack pgdir t (fork_with cur pgdir r)
Forked-of cur kstack pgdir t (none, u) alive pages a = absurd (not_found a.found)
  where
    not_found : {i : ℕ} → none ≡ some i → ⊥
    not_found e = cc
Forked-of cur kstack pgdir t (some np, u) alive pages a =
    let here : np ≡ a.slot = ground (arith, a.found) in
    let was : (t.procs np).state ≡ unused = rw here a.was_unused in
    let ne : cur ≢ np = λ e. alive (rw e was) in
    let me : u.procs cur ≡ t.procs cur = a.others cur (rw (← here) ne) in
    let v : Into cur pgdir np u (fork_into cur pgdir np u) =
      fork_into-Into cur pgdir np u ne pages in
    record {
      slot = np;
      in_range = rw here a.in_range;
      was_unused = was;
      returns = ground (arith, v.returns, a.taken);
      id = ground (arith, v.child, a.taken);
      next = ground (arith, v.next, a.next);
      state = ground (arith, v.child);
      parent = ground (arith, v.child);
      memory = ground (arith, v.child, a.taken);
      place = ground (arith, v.child);
      registers = ground (arith, v.child);
      files = λ fd lt. ground (arith, v.files fd lt, a.taken);
      top = ground (arith, v.child);
      queued = v.queued ∙ enqueue-queues 0 np u t a.same_queues;
      others = λ x o. v.others x o ∙ a.others x (rw (← here) o);
      ticks = ground (arith, v.child, a.taken);
      kept = (
        ground (arith, v.child, a.taken),
        ground (arith, v.child, a.taken),
        ground (arith, v.child, a.taken),
        ground (arith, v.child, a.taken),
      );
      same_init = v.init ∙ a.same_init;
      calls = v.calls ∙ rw (me, a.same_calls) refl;
    }

-- If the caller's slot is used, another is unused, and `kalloc` and `copyuvm` succeed, `fork` returns the
-- next id and leaves a runnable child with that id, in a slot that was unused and, as far as it has room,
-- in the queue of level 0: with the parent's memory size, directory, name and open files, and with its
-- registers but for `eax`, which is 0. It calls `filedup` once for each open file of the parent, then
-- `idup` for the directory. No other process changes. The tick counts, the last tick, the channel and the
-- mark of a killed process are those that the slot's last process left, as are the files of descriptors
-- that are closed in the parent.
pub fork-Forked :
    (cur kstack pgdir : ℕ) (t : Ptable) (i : ℕ)
    → (t.procs cur).state ≢ unused
    → kstack ≢ 0
    → pgdir ≢ 0
    → i < nproc
    → (t.procs i).state ≡ unused
    → Forked cur kstack pgdir t (fork cur kstack pgdir t)
unfolding fork
fork-Forked cur kstack pgdir t i alive stack pages lt free =
    Forked-of cur kstack pgdir t (allocproc kstack t) alive pages
      (allocproc-Allocated kstack t i stack lt free)
