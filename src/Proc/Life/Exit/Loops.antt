-- ===== src/Proc/Life/Exit/Loops.antt =====
-- The loops of `exit`: closing the files, and passing the children to init.
use cs537_intro_to_os.Prelude.{
  ℕ, zero, suc, ◌+◌, ◌<◌, ◌≤◌, ◌≡◌, ◌≢◌, refl, false, none, some, arith, ◌==◌, for_each, ltb, leb,
  if◌then◌else◌, ◌&&◌, inl, inr, Bool-cases, ap, ◌∙◌, ℕ_discrete,
}
use cs537_intro_to_os.Proc.Table.{
  fileclose, zombie, Ptable, nproc, addr, points_to, set_proc, is_sleeping, is_zombie,
}
use cs537_intro_to_os.Proc.Wakeup.{
  wakeup1, wakeup1-init, wakeup1-calls, wakeup1-cwd, wakeup1-parent, wakeup1-awake, wakeup1-chan,
  wakeup1-ofile, wakeup1-wakes,
}
use cs537_intro_to_os.Proc.Life.{close_file, adopt}
use cs537_intro_to_os.Proc.Life.Calls.{file_call, file_calls, file_calls-cong}

-- The loop that closes the files from descriptor `i` on, for `k` rounds.
pub record Closed (cur k i : ℕ) (t u : Ptable) : Type 0 where
  pub others : (x : ℕ) → x ≢ cur → u.procs x ≡ t.procs x
  pub files :
      (fd : ℕ)
      → (u.procs cur).ofile fd
        ≡ (if leb i fd && ltb fd (i + k) then none else (t.procs cur).ofile fd)
  pub rest : u.procs cur ≡ record (t.procs cur) { ofile = (u.procs cur).ofile }
  pub init : u.init ≡ t.init
  pub queues : u.queues ≡ t.queues
  pub calls : u.calls ≡ file_calls fileclose k i (t.procs cur).ofile t.calls

close_file-calls :
    (cur i : ℕ) (t : Ptable)
    → ((close_file cur i t).calls ≡ file_call fileclose ((t.procs cur).ofile i) t.calls)
      × ((fd : ℕ) → i < fd → ((close_file cur i t).procs cur).ofile fd ≡ (t.procs cur).ofile fd)
unfolding close_file
close_file-calls cur i t = (ground arith, λ fd lt. ground arith)

pub close_loop : (cur k i : ℕ) (t : Ptable) → Closed cur k i t (for_each k i (close_file cur) t)
unfolding for_each close_file file_calls
close_loop cur zero i t = record {
  others = λ x o. refl;
  files = λ fd. ground arith;
  rest = refl;
  init = refl;
  queues = refl;
  calls = refl;
}
close_loop cur (suc k) i t =
    let ih : Closed cur k (i + 1) (close_file cur i t)
        (for_each k (i + 1) (close_file cur) (close_file cur i t)) =
      close_loop cur k (i + 1) (close_file cur i t) in
    record {
      others = λ x o. ground (arith, ih.others x o);
      files = λ fd. ground (arith, ih.files fd);
      rest = ground (arith, ih.rest);
      init = ground (arith, ih.init);
      queues = ground (arith, ih.queues);
      calls =
          let (log, later) = close_file-calls cur i t in
          ih.calls
          ∙ file_calls-cong fileclose k (i + 1) _ (t.procs cur).ofile _
              (λ fd le. later fd (omega arith))
          ∙ ap (λ l. file_calls fileclose k (i + 1) (t.procs cur).ofile l) log;
    }

-- One round of the adoption loop, seen at slot `x`: what it does to the parent and to the state.
pub record Adopted (cur i : ℕ) (t : Ptable) (x : ℕ) (u : Ptable) : Type 0 where
  pub parent :
      (u.procs x).parent
      ≡ (if (x == i) && points_to (t.procs x).parent cur then some t.init else (t.procs x).parent)
  pub awake : is_sleeping (t.procs x).state ≡ false → (u.procs x).state ≡ (t.procs x).state
  pub rest : (u.procs x).ofile ≡ (t.procs x).ofile
  pub chan : (u.procs x).chan ≡ (t.procs x).chan
  pub init : u.init ≡ t.init
  pub calls : u.calls ≡ t.calls
  pub cwd : (u.procs x).cwd ≡ (t.procs x).cwd

adopt-Adopted : (cur i : ℕ) (t : Ptable) (x : ℕ) → Adopted cur i t x (adopt cur i t)
unfolding adopt
adopt-Adopted cur i t x =
    let t' = set_proc t i (record (t.procs i) { parent = some t.init }) in
    let keeps_parent = wakeup1-parent (addr t.init) t' x in
    let keeps_awake = wakeup1-awake (addr t.init) t' x in
    let keeps_chan = wakeup1-chan (addr t.init) t' x in
    let keeps_files = wakeup1-ofile (addr t.init) t' x in
    elim (Bool-cases (points_to (t.procs i).parent cur)) [
      | inl mine ↦ elim (Bool-cases (is_zombie (t.procs i).state)) [
        | inl dead ↦
            rw (mine, dead, adopt)
              (record {
                parent = keeps_parent ∙ ground arith;
                awake = λ h. keeps_awake (ground arith) ∙ ground arith;
                rest = keeps_files ∙ ground arith;
                chan = keeps_chan ∙ ground arith;
                init = wakeup1-init (addr t.init) t';
                calls = wakeup1-calls (addr t.init) t';
                cwd = wakeup1-cwd (addr t.init) t' x ∙ ground arith;
              })
        | inr live ↦
            rw (mine, live, adopt)
              (record {
                parent = ground arith;
                awake = λ h. ground arith;
                rest = ground arith;
                chan = ground arith;
                init = refl;
                calls = refl;
                cwd = ground arith;
              })
      ]
      | inr other ↦
          rw (other, adopt)
            (record {
              parent = ground arith;
              awake = λ h. refl;
              rest = refl;
              chan = refl;
              init = refl;
              calls = refl;
              cwd = refl;
            })
    ]

-- A zombie child that is passed on wakes init.
adopt-wakes :
    (cur i : ℕ) (t : Ptable) (n : ℕ)
    → t.init ≡ n
    → n < nproc
    → (t.procs i).parent ≡ some cur
    → (t.procs i).state ≡ zombie
    → (t.procs n).chan ≡ addr n
    → is_sleeping ((adopt cur i t).procs n).state ≡ false
unfolding adopt
adopt-wakes cur i t n own lt mine dead waits =
    let t' = set_proc t i (record (t.procs i) { parent = some t.init }) in
    let woken : is_sleeping ((wakeup1 (addr t.init) t').procs n).state ≡ false =
      wakeup1-wakes (addr t.init) t' n lt (ground arith) in
    ground arith

-- The loop from slot `i` on, for `k` rounds, seen at slot `x`.
pub record Loop (cur k i : ℕ) (t : Ptable) (x : ℕ) (u : Ptable) : Type 0 where
  pub parent : (u.procs x).parent ≡ (
      if leb i x && ltb x (i + k) && points_to (t.procs x).parent cur
      then some t.init
      else (t.procs x).parent)
  pub awake : is_sleeping (t.procs x).state ≡ false → (u.procs x).state ≡ (t.procs x).state
  pub rest : (u.procs x).ofile ≡ (t.procs x).ofile
  pub init : u.init ≡ t.init
  pub calls : u.calls ≡ t.calls
  pub cwd : (u.procs x).cwd ≡ (t.procs x).cwd

pub adopt-Loop : (cur k i : ℕ) (t : Ptable) (x : ℕ) → Loop cur k i t x (for_each k i (adopt cur) t)
unfolding for_each
adopt-Loop cur zero i t x = record {
  parent = ground arith;
  awake = λ h. refl;
  rest = refl;
  init = refl;
  calls = refl;
  cwd = refl;
}
adopt-Loop cur (suc k) i t x =
    let t1 = adopt cur i t in
    let one : Adopted cur i t x t1 = adopt-Adopted cur i t x in
    let ih : Loop cur k (i + 1) t1 x (for_each k (i + 1) (adopt cur) t1) =
      adopt-Loop cur k (i + 1) t1 x in
    record {
      parent = ground (arith, one.parent, one.init, ih.parent);
      awake = λ h. ih.awake (ap is_sleeping (one.awake h) ∙ h) ∙ one.awake h;
      rest = ih.rest ∙ one.rest;
      init = ih.init ∙ one.init;
      calls = ih.calls ∙ one.calls;
      cwd = ih.cwd ∙ one.cwd;
    }

pub adopt_loop-wakes :
    (cur k i : ℕ) (t : Ptable) (n j : ℕ)
    → t.init ≡ n
    → n < nproc
    → i ≤ j
    → j < i + k
    → (t.procs j).parent ≡ some cur
    → (t.procs j).state ≡ zombie
    → (t.procs n).chan ≡ addr n
    → is_sleeping ((for_each k i (adopt cur) t).procs n).state ≡ false
unfolding for_each
adopt_loop-wakes cur zero i t n j own lt lo hi mine dead waits = absurd (omega arith)
adopt_loop-wakes cur (suc k) i t n j own lt lo hi mine dead waits =
    let t1 = adopt cur i t in
    elim (ℕ_discrete j i) [
      | yes here ↦
          let woken = adopt-wakes cur i t n own lt (rw (← here) mine) (rw (← here) dead) waits in
          ap is_sleeping ((adopt-Loop cur k (i + 1) t1 n).awake woken) ∙ woken
      | no later ↦
          let one : Adopted cur i t j t1 = adopt-Adopted cur i t j in
          let at_init : Adopted cur i t n t1 = adopt-Adopted cur i t n in
          adopt_loop-wakes cur k (i + 1) t1 n j (one.init ∙ own) lt (omega arith) (omega arith)
            (ground (arith, one.parent)) (one.awake (ap is_sleeping dead) ∙ dead)
            (at_init.chan ∙ waits)
    ]
