-- ===== src/Threads/Clone.antt =====
-- What `thread_fork` makes.
use cs537_intro_to_os.Prelude.{
  ℕ, zero, suc, ◌+◌, ◌<◌, ◌≡◌, ◌≢◌, refl, Bool, true, false, ◌&&◌, ◌==◌, ltb, leb, Option, none,
  some, arith, if◌then◌else◌, update, update_self, update_ne, ap, ◌∙◌, sym, find_from,
  find_from-hit, IsFirst, for_each, ℕ_discrete,
}
use cs537_intro_to_os.Proc.Table.{embryo, runnable, nproc, nofile, is_unused}
use cs537_intro_to_os.Threads.Table.{ThreadInfo, Proc, Ptable, set_proc}
use cs537_intro_to_os.Threads.{allocthread, stack_top, below, thread_fork_into, thread_fork}

-- `f` if there is one, else `g`
abbrev pub or_old : Option ℕ → Option ℕ → Option ℕ
or_old none g = g
or_old (some f) g = some f

abbrev share_one : (parent : ℕ → Option ℕ) → ℕ → (ℕ → Option ℕ) → ℕ → Option ℕ
share_one parent fd files = elim (parent fd) [ none ↦ files | some f ↦ update files fd (some f) ]

share_one-at :
    (parent : ℕ → Option ℕ) (fd : ℕ) (files : ℕ → Option ℕ) (x : ℕ)
    → share_one parent fd files x ≡ (if x == fd then or_old (parent x) (files x) else files x)
share_one-at parent fd files x = elim (ℕ_discrete x fd) [
  | yes e ↦ rw e (here (parent fd))
  | no ne ↦ let test : (x == fd) ≡ false = ground arith in rw test (there (parent fd) ne)
]
  where
    here :
        (o : Option ℕ)
        → (elim o as (λ o. ℕ → Option ℕ) [ none ↦ files | some f ↦ update files fd (some f) ]) fd
          ≡ (if fd == fd then or_old o (files fd) else files fd)
    here none = ground arith
    here (some f) = ground arith

    there :
        (o : Option ℕ)
        → x ≢ fd
        → (elim o as (λ o. ℕ → Option ℕ) [ none ↦ files | some f ↦ update files fd (some f) ]) x
          ≡ files x
    there none ne = refl
    there (some f) ne = update_ne files fd (some f) x ne

share-at :
    (k i : ℕ) (parent files : ℕ → Option ℕ) (x : ℕ)
    → for_each k i (share_one parent) files x
      ≡ (if leb i x && ltb x (i + k) then or_old (parent x) (files x) else files x)
unfolding for_each
share-at zero i parent files x = ground arith
share-at (suc k) i parent files x =
    ground
      (arith, share_one-at parent i files x, share-at k (i + 1) parent (share_one parent i files) x)

-- A thread that `thread_fork` has made for `cur`, in table `t`.
pub record Cloned (cur : ℕ) (tinfo : ThreadInfo) (kstack : ℕ) (t : Ptable) (r : Option ℕ × Ptable)
    : Type 0 where
  pub slot : ℕ
  pub in_range : slot < nproc
  pub was_unused : is_unused (t.procs slot).state ≡ true
  pub first : (x : ℕ) → x < slot → is_unused (t.procs x).state ≡ false
  pub returns : r.0 ≡ some t.next_pid
  pub pid : (r.1.procs slot).pid ≡ t.next_pid
  pub kstack_of : (r.1.procs slot).kstack ≡ kstack
  pub state : (r.1.procs slot).state ≡ runnable
  pub parent : (r.1.procs slot).parent ≡ some cur
  pub same_memory :
      ((r.1.procs slot).pgdir ≡ (t.procs cur).pgdir) × ((r.1.procs slot).sz ≡ (t.procs cur).sz)
  pub info : (r.1.procs slot).thread_info ≡ record tinfo { is_thread = true }
  -- it starts at `func`, on its stack, with its argument above a return address
  pub eip : (r.1.procs slot).tf.eip ≡ tinfo.func
  pub esp : (r.1.procs slot).tf.esp ≡ below (stack_top tinfo) 8
  pub ebp : (r.1.procs slot).tf.ebp ≡ stack_top tinfo
  -- the other registers are those of `cur`, but that `eax` is 0
  pub eax : (r.1.procs slot).tf.eax ≡ 0
  pub registers : (r.1.procs slot).tf.others ≡ (t.procs cur).tf.others
  pub return_word : r.1.user (t.procs cur).pgdir (below (stack_top tinfo) 8) ≡ 0xffff_ffff
  pub arg_word : r.1.user (t.procs cur).pgdir (below (stack_top tinfo) 4) ≡ tinfo.arg
  -- no other word of memory changes
  pub words :
      (a : ℕ)
      → a ≢ below (stack_top tinfo) 8
      → a ≢ below (stack_top tinfo) 4
      → r.1.user (t.procs cur).pgdir a ≡ t.user (t.procs cur).pgdir a
  pub spaces : (m : ℕ) → m ≢ (t.procs cur).pgdir → r.1.user m ≡ t.user m
  pub files :
      (fd : ℕ)
      → fd < nofile
      → (r.1.procs slot).ofile fd ≡ or_old ((t.procs cur).ofile fd) ((t.procs slot).ofile fd)
  pub cwd : (r.1.procs slot).cwd ≡ (t.procs cur).cwd
  pub name : (r.1.procs slot).name ≡ (t.procs cur).name
  -- these are left as the slot had them
  pub kept :
      ((r.1.procs slot).chan ≡ (t.procs slot).chan)
      × ((r.1.procs slot).killed ≡ (t.procs slot).killed)
  -- no reference is counted for the files and the directory
  pub calls : r.1.calls ≡ t.calls
  pub others : (x : ℕ) → x ≢ slot → r.1.procs x ≡ t.procs x
  pub same_init : r.1.init ≡ t.init
  pub next : r.1.next_pid ≡ t.next_pid + 1

allocthread-found :
    (kstack : ℕ) (t : Ptable) (i : ℕ)
    → kstack ≢ 0
    → find_from nproc 0 (λ i. is_unused (t.procs i).state) ≡ some i
    → allocthread kstack t ≡ (
      some i,
      set_proc
          (record t { next_pid = t.next_pid + 1 })
          i
          (record (t.procs i) { state = embryo; pid = t.next_pid; kstack = kstack }),
    )
unfolding allocthread
allocthread-found kstack t i ne found =
    let test : (kstack == 0) ≡ false = ground arith in rw (found, allocthread, test) refl

thread_fork-unfold :
    (cur : ℕ) (tinfo : ThreadInfo) (kstack : ℕ) (t : Ptable) (i : ℕ)
    → kstack ≢ 0
    → find_from nproc 0 (λ i. is_unused (t.procs i).state) ≡ some i
    → thread_fork cur tinfo kstack t
      ≡ thread_fork_into cur tinfo i (
          set_proc
            (record t { next_pid = t.next_pid + 1 })
            i
            (record (t.procs i) { state = embryo; pid = t.next_pid; kstack = kstack }))
unfolding thread_fork
thread_fork-unfold cur tinfo kstack t i ne found = rw (allocthread-found kstack t i ne found) refl

-- A word below another.
two_words :
    (a b : ℕ) (user : ℕ → ℕ → ℕ) (m v w : ℕ)
    → a ≢ b
    → let first = update user m (update (user m) a v) in
      let second = update first m (update (first m) b w) in (second m b ≡ w) × (second m a ≡ v)
two_words a b user m v w ne =
    let first = update user m (update (user m) a v) in
    (
      ap (λ f. f b) (update_self first m (update (first m) b w)) ∙ update_self (first m) b w,
      ap (λ f. f a) (update_self first m (update (first m) b w))
          ∙ update_ne (first m) b w a ne
          ∙ ap (λ f. f a) (update_self user m (update (user m) a v))
          ∙ update_self (user m) a v,
    )

other_word :
    (a b : ℕ) (user : ℕ → ℕ → ℕ) (m v w x : ℕ)
    → x ≢ a
    → x ≢ b
    → let first = update user m (update (user m) a v) in
      let second = update first m (update (first m) b w) in second m x ≡ user m x
other_word a b user m v w x off_a off_b =
    let first = update user m (update (user m) a v) in
    ap (λ f. f x) (update_self first m (update (first m) b w))
    ∙ update_ne (first m) b w x off_b
    ∙ ap (λ f. f x) (update_self user m (update (user m) a v))
    ∙ update_ne (user m) a v x off_a

other_space :
    (a b : ℕ) (user : ℕ → ℕ → ℕ) (m v w n : ℕ)
    → n ≢ m
    → let first = update user m (update (user m) a v) in
      update first m (update (first m) b w) n ≡ user n
other_space a b user m v w n off =
    let first = update user m (update (user m) a v) in
    update_ne first m (update (first m) b w) n off ∙ update_ne user m (update (user m) a v) n off

into-Cloned :
    (cur : ℕ) (tinfo : ThreadInfo) (kstack : ℕ) (t : Ptable) (i : ℕ)
    → cur ≢ i
    → IsFirst (λ i. is_unused (t.procs i).state) 0 nproc i
    → Cloned cur tinfo kstack t (
        thread_fork_into cur tinfo i (
          set_proc
            (record t { next_pid = t.next_pid + 1 })
            i
            (record (t.procs i) { state = embryo; pid = t.next_pid; kstack = kstack })))
unfolding thread_fork_into
into-Cloned cur tinfo kstack t i ne first =
    let q = record (t.procs i) { state = embryo; pid = t.next_pid; kstack = kstack } in
    let procs = update t.procs i q in
    let me = update_ne t.procs i q cur ne in
    let old = update_self t.procs i q in
    let top = stack_top tinfo in
    let apart : below top 4 ≢ below top 8 = λ e. omega arith in
    let words =
      two_words (below top 4) (below top 8) t.user (procs cur).pgdir tinfo.arg 0xffff_ffff apart in
    let user =
      (thread_fork_into cur tinfo i
        (set_proc (record t { next_pid = t.next_pid + 1 }) i q)).1.user in
    let here = ap (λ p. p.pgdir) (sym me) in
    let new : (v : Proc) → update procs i v i ≡ v = λ v. update_self procs i v in
    record {
      slot = i;
      in_range = first.below;
      was_unused = first.passes;
      first = λ x lt. first.first x (omega arith) lt;
      returns = ap (λ p. some p.pid) old;
      pid = ap (λ p. p.pid) (new _) ∙ ap (λ p. p.pid) old;
      kstack_of = ap (λ p. p.kstack) (new _) ∙ ap (λ p. p.kstack) old;
      state = ap (λ p. p.state) (new _);
      parent = ap (λ p. p.parent) (new _);
      same_memory = (
        ap (λ p. p.pgdir) (new _) ∙ ap (λ p. p.pgdir) me,
        ap (λ p. p.sz) (new _) ∙ ap (λ p. p.sz) me,
      );
      info = ap (λ p. p.thread_info) (new _);
      eip = ap (λ p. p.tf.eip) (new _);
      esp = ap (λ p. p.tf.esp) (new _);
      ebp = ap (λ p. p.tf.ebp) (new _);
      eax = ap (λ p. p.tf.eax) (new _);
      registers = ap (λ p. p.tf.others) (new _) ∙ ap (λ p. p.tf.others) me;
      words = λ a off8 off4.
          ap (λ m. user m a) here
          ∙ other_word (below top 4) (below top 8) t.user (procs cur).pgdir tinfo.arg 0xffff_ffff a
              off4 off8
          ∙ ap (λ m. t.user m a) (sym here);
      spaces = λ m off.
          let off' : m ≢ (procs cur).pgdir = λ e. off (e ∙ sym here) in
          other_space (below top 4) (below top 8) t.user (procs cur).pgdir tinfo.arg 0xffff_ffff m
            off';
      return_word = ap (λ m. user m (below top 8)) here ∙ words.0;
      arg_word = ap (λ m. user m (below top 4)) here ∙ words.1;
      files = λ fd lt.
          ap (λ p. p.ofile fd) (new _)
          ∙ share-at nofile 0 (procs cur).ofile (procs i).ofile fd
          ∙ shared (or_old ((procs cur).ofile fd) ((procs i).ofile fd)) ((procs i).ofile fd) fd lt
          ∙ ap (λ p. or_old (p.ofile fd) ((procs i).ofile fd)) me
          ∙ ap (λ p. or_old ((t.procs cur).ofile fd) (p.ofile fd)) old;
      cwd = ap (λ p. p.cwd) (new _) ∙ ap (λ p. p.cwd) me;
      name = ap (λ p. p.name) (new _) ∙ ap (λ p. p.name) me;
      kept = (
        ap (λ p. p.chan) (new _) ∙ ap (λ p. p.chan) old,
        ap (λ p. p.killed) (new _) ∙ ap (λ p. p.killed) old,
      );
      calls = refl;
      others = λ x other. update_ne procs i _ x other ∙ update_ne t.procs i q x other;
      same_init = refl;
      next = refl;
    }
  where
    shared :
        (a b : Option ℕ) (fd : ℕ)
        → fd < nofile
        → (if leb 0 fd && ltb fd (0 + nofile) then a else b) ≡ a
    shared a b fd lt = ground arith

pub thread_fork-Cloned :
    (cur : ℕ) (tinfo : ThreadInfo) (kstack : ℕ) (t : Ptable) (free : ℕ)
    → is_unused (t.procs cur).state ≡ false
    → kstack ≢ 0
    → free < nproc
    → is_unused (t.procs free).state ≡ true
    → Cloned cur tinfo kstack t (thread_fork cur tinfo kstack t)
thread_fork-Cloned cur tinfo kstack t free alive page lt unused_free =
    let (i, found, first) =
      find_from-hit nproc 0 (λ i. is_unused (t.procs i).state) free (omega arith) lt unused_free in
    let ne : cur ≢ i =
      λ e. clash _ (ap (λ x. is_unused (t.procs x).state) e ∙ first.passes) alive in
    rw (thread_fork-unfold cur tinfo kstack t i page found)
      (into-Cloned cur tinfo kstack t i ne first)
  where
    clash : (b : Bool) → b ≡ true → b ≡ false → ⊥
    clash b f g = cc
