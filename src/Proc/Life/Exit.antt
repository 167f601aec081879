-- ===== src/Proc/Life/Exit.antt =====
-- What `exit` leaves in the table.
pub mod Loops
use cs537_intro_to_os.Prelude.{
  ℕ, zero, suc, ◌+◌, ◌<◌, ◌≤◌, ◌≡◌, ◌≢◌, refl, false, none, some, List, ◌∷◌, arith, ◌==◌, for_each,
  ltb, leb, if◌then◌else◌, ◌&&◌, inl, inr, Bool-cases, ap, ◌∙◌, ℕ_discrete,
}
use cs537_intro_to_os.Proc.Table.{
  fileclose, iput, zombie, Ptable, nproc, nofile, addr, points_to, set_proc, is_sleeping, is_zombie,
}
use cs537_intro_to_os.Proc.Wakeup.{
  wakeup1, wakeup1-init, wakeup1-calls, wakeup1-cwd, wakeup1-parent, wakeup1-awake, wakeup1-chan,
  wakeup1-ofile, wakeup1-wakes,
}
use cs537_intro_to_os.Proc.Life.Calls.{file_calls}
use cs537_intro_to_os.Proc.Life.{close_file, adopt, addr_of, drop_files, pass_children, exit}
use cs537_intro_to_os.Proc.Life.Exit.Loops.{Closed, close_loop, Loop, adopt-Loop, adopt_loop-wakes}

-- What `exit` leaves.
pub record Exited (cur : ℕ) (t u : Ptable) : Type 0 where
  pub dead : (u.procs cur).state ≡ zombie
  pub closed : (fd : ℕ) → fd < nofile → (u.procs cur).ofile fd ≡ none
  pub left : (u.procs cur).cwd ≡ none
  -- one `fileclose` for each open file, then `iput`
  pub calls :
      u.calls ≡ iput (t.procs cur).cwd ∷ file_calls fileclose nofile 0 (t.procs cur).ofile t.calls
  pub no_child : (i : ℕ) → i < nproc → (u.procs i).parent ≢ some cur
  pub adopted :
      (i : ℕ) → i < nproc → (t.procs i).parent ≡ some cur → (u.procs i).parent ≡ some t.init
  pub others : (i : ℕ) → (t.procs i).parent ≢ some cur → (u.procs i).parent ≡ (t.procs i).parent
  pub parent_woken :
      (p : ℕ)
      → (t.procs cur).parent ≡ some p
      → p < nproc
      → p ≢ cur
      → (t.procs p).chan ≡ addr p
      → is_sleeping (u.procs p).state ≡ false
  pub init_woken :
      (i : ℕ)
      → i < nproc
      → (t.procs i).parent ≡ some cur
      → (t.procs i).state ≡ zombie
      → t.init < nproc
      → (t.procs t.init).chan ≡ addr t.init
      → is_sleeping (u.procs t.init).state ≡ false

record Dropped (cur : ℕ) (t u : Ptable) : Type 0 where
  others : (x : ℕ) → x ≢ cur → u.procs x ≡ t.procs x
  closed : (fd : ℕ) → fd < nofile → (u.procs cur).ofile fd ≡ none
  parent : (u.procs cur).parent ≡ (t.procs cur).parent
  state : (u.procs cur).state ≡ (t.procs cur).state
  chan : (u.procs cur).chan ≡ (t.procs cur).chan
  init : u.init ≡ t.init
  cwd : (u.procs cur).cwd ≡ none
  calls :
      u.calls ≡ iput (t.procs cur).cwd ∷ file_calls fileclose nofile 0 (t.procs cur).ofile t.calls

drop_files-Dropped : (cur : ℕ) (t : Ptable) → Dropped cur t (drop_files cur t)
unfolding drop_files
drop_files-Dropped cur t =
    let c : Closed cur nofile 0 t (for_each nofile 0 (close_file cur) t) =
      close_loop cur nofile 0 t in
    record {
      others = λ x o. ground (arith, c.others x o);
      closed = λ fd lt. ground (arith, c.files fd);
      parent = ground (arith, c.rest);
      state = ground (arith, c.rest);
      chan = ground (arith, c.rest);
      init = c.init;
      cwd = ground arith;
      calls =
          ap (λ d. iput d ∷ (for_each nofile 0 (close_file cur) t).calls) (ap (λ p. p.cwd) c.rest)
          ∙ ap (λ l. iput (t.procs cur).cwd ∷ l) c.calls;
    }

record Passed (cur : ℕ) (t u : Ptable) : Type 0 where
  parent :
      (x : ℕ)
      → (u.procs x).parent ≡ (
          if ltb x nproc && points_to (t.procs x).parent cur
          then some t.init
          else (t.procs x).parent)
  files : (x : ℕ) → (u.procs x).ofile ≡ (t.procs x).ofile
  cwd : (x : ℕ) → (u.procs x).cwd ≡ (t.procs x).cwd
  calls : u.calls ≡ t.calls
  parent_woken :
      (p : ℕ)
      → (t.procs cur).parent ≡ some p
      → p < nproc
      → (t.procs p).chan ≡ addr p
      → is_sleeping (u.procs p).state ≡ false
  init_woken :
      (n i : ℕ)
      → t.init ≡ n
      → i < nproc
      → (t.procs i).parent ≡ some cur
      → (t.procs i).state ≡ zombie
      → n < nproc
      → (t.procs n).chan ≡ addr n
      → is_sleeping (u.procs n).state ≡ false

pass_children-Passed : (cur : ℕ) (t : Ptable) → Passed cur t (pass_children cur t)
unfolding pass_children
pass_children-Passed cur t =
    let c = addr_of (t.procs cur).parent in
    let t1 = wakeup1 c t in
    let loop : (x : ℕ) → Loop cur nproc 0 t1 x (pass_children cur t) = adopt-Loop cur nproc 0 t1 in
    record {
      parent = λ x. ground (arith, (loop x).parent, wakeup1-parent c t x, wakeup1-init c t);
      files = λ x. (loop x).rest ∙ wakeup1-ofile c t x;
      cwd = λ x. (loop x).cwd ∙ wakeup1-cwd c t x;
      calls = (loop 0).calls ∙ wakeup1-calls c t;
      parent_woken = λ p mine lt waits.
          let woken = wakeup1-wakes c t p lt (ground arith) in
          ap is_sleeping ((loop p).awake woken) ∙ woken;
      init_woken = λ n i own lt mine dead small waits.
          adopt_loop-wakes cur nproc 0 t1 n i (wakeup1-init c t ∙ own) small (omega arith) lt
            (wakeup1-parent c t i ∙ mine) (wakeup1-awake c t i (ap is_sleeping dead) ∙ dead)
            (wakeup1-chan c t n ∙ waits);
    }

Dropped-parent :
    (cur : ℕ) (t u : Ptable) → Dropped cur t u → (x : ℕ) → (u.procs x).parent ≡ (t.procs x).parent
Dropped-parent cur t u d x = elim (ℕ_discrete x cur) [
  | yes here ↦ rw here d.parent
  | no other ↦ ap (λ p. p.parent) (d.others x other)
]

Dropped-state :
    (cur : ℕ) (t u : Ptable) → Dropped cur t u → (x : ℕ) → (u.procs x).state ≡ (t.procs x).state
Dropped-state cur t u d x = elim (ℕ_discrete x cur) [
  | yes here ↦ rw here d.state
  | no other ↦ ap (λ p. p.state) (d.others x other)
]

Dropped-chan :
    (cur : ℕ) (t u : Ptable) → Dropped cur t u → (x : ℕ) → (u.procs x).chan ≡ (t.procs x).chan
Dropped-chan cur t u d x = elim (ℕ_discrete x cur) [
  | yes here ↦ rw here d.chan
  | no other ↦ ap (λ p. p.chan) (d.others x other)
]

-- `exit` of init is a panic. Any other process calls `fileclose` once for each of its open files, then
-- `iput` for its directory, and becomes a zombie with no open file and no directory; its children, and
-- no one else's, now have init as their parent; its own parent (another process), and init if a zombie
-- is passed on, are not left sleeping in `wait`.
pub exit-Exited :
    (cur : ℕ) (t : Ptable)
    → (cur ≡ t.init → exit cur t ≡ none)
      × (cur ≢ t.init → (u : Ptable) × (exit cur t ≡ some u) × Exited cur t u)
unfolding exit
exit-Exited cur t = (
  λ e. ground arith,
  λ ne.
      let t1 = drop_files cur t in
      let d : Dropped cur t t1 = drop_files-Dropped cur t in
      let p : Passed cur t1 (pass_children cur t1) = pass_children-Passed cur t1 in
      let parent = Dropped-parent cur t t1 d in
      let alive : (cur == t.init) ≡ false = ground arith in
      rw (alive, exit)
        (
          _,
          refl,
          record {
            dead = ground arith;
            closed = λ fd lt. ground (arith, p.files cur, d.closed fd lt);
            left = ground (arith, p.cwd cur, d.cwd);
            calls = p.calls ∙ d.calls;
            no_child = λ i lt e. ground (arith, p.parent i, d.init);
            adopted = λ i lt mine. ground (arith, p.parent i, d.init, parent i);
            others = λ i other. ground (arith, p.parent i, parent i);
            parent_woken = λ q mine lt o waits.
                let woken =
                  p.parent_woken q (parent cur ∙ mine) lt (Dropped-chan cur t t1 d q ∙ waits) in
                ground arith;
            init_woken = λ i lt mine dead small waits.
                let woken =
                  p.init_woken t.init i d.init lt (parent i ∙ mine)
                    (Dropped-state cur t t1 d i ∙ dead) small
                    (Dropped-chan cur t t1 d t.init ∙ waits) in
                ground arith;
          },
        ),
)
