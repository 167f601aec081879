-- ===== src/Threads/Exit.antt =====
-- What `exit` leaves when a thread runs it.
use cs537_intro_to_os.Prelude.{
  ℕ, ◌+◌, ◌≡◌, ◌≢◌, ◌⊎◌, inl, inr, refl, true, false, ◌&&◌, ◌==◌, ltb, leb, none, some, arith,
  update_self, update_ne, ap, ◌∙◌, sym, Bool-cases, ℕ_discrete, for_each-inv, for_slots-at, subst,
}
use cs537_intro_to_os.Proc.Table.{
  State, zombie, runnable, nproc, is_zombie, is_sleeping, points_to, addr,
}
use cs537_intro_to_os.Threads.Table.{Proc, Ptable, set_proc, wake_one, wakeup1}
use cs537_intro_to_os.Threads.{drop_files, addr_of, adopt, pass_children, exit}

-- What an exit of `np` keeps of an entry: only a child of `np` gets another parent.
pub record Kept (np init : ℕ) (p q : Proc) : Type 0 where
  pub pid : q.pid ≡ p.pid
  pub kstack : q.kstack ≡ p.kstack
  pub info : q.thread_info ≡ p.thread_info
  pub same_zombie : is_zombie q.state ≡ is_zombie p.state
  pub same_killed : q.killed ≡ p.killed
  pub same_pgdir : q.pgdir ≡ p.pgdir
  pub parent : (q.parent ≡ p.parent) ⊎ ((points_to p.parent np ≡ true) × (q.parent ≡ some init))

pub record KeptAll (np : ℕ) (t u : Ptable) : Type 0 where
  pub procs : (x : ℕ) → Kept np t.init (t.procs x) (u.procs x)
  pub same_init : u.init ≡ t.init
  pub calls : u.calls ≡ t.calls

Kept-refl : (np init : ℕ) (p : Proc) → Kept np init p p
Kept-refl np init p = record {
  pid = refl;
  kstack = refl;
  info = refl;
  same_zombie = refl;
  same_killed = refl;
  same_pgdir = refl;
  parent = inl refl;
}

Kept-trans : (np init : ℕ) (p q r : Proc) → Kept np init p q → Kept np init q r → Kept np init p r
Kept-trans np init p q r a b = record {
  pid = b.pid ∙ a.pid;
  kstack = b.kstack ∙ a.kstack;
  info = b.info ∙ a.info;
  same_zombie = b.same_zombie ∙ a.same_zombie;
  same_killed = b.same_killed ∙ a.same_killed;
  same_pgdir = b.same_pgdir ∙ a.same_pgdir;
  parent = elim a.parent [
    | inl e ↦ elim b.parent [
      | inl f ↦ inl (f ∙ e)
      | inr (c, f) ↦ inr (ap (λ o. points_to o np) (sym e) ∙ c, f)
    ]
    | inr (c, e) ↦ elim b.parent [ inl f ↦ inr (c, f ∙ e) | inr (d, f) ↦ inr (c, f) ]
  ];
}

KeptAll-trans : (np : ℕ) (t u v : Ptable) → KeptAll np t u → KeptAll np u v → KeptAll np t v
KeptAll-trans np t u v a b = record {
  procs = λ x.
      Kept-trans np t.init (t.procs x) (u.procs x) (v.procs x) (a.procs x)
        (subst (λ i. Kept np i (u.procs x) (v.procs x)) a.same_init (b.procs x));
  same_init = b.same_init ∙ a.same_init;
  calls = b.calls ∙ a.calls;
}

-- One entry is replaced by one that is kept.
set-KeptAll :
    (np : ℕ) (t : Ptable) (i : ℕ) (q : Proc)
    → Kept np t.init (t.procs i) q
    → KeptAll np t (set_proc t i q)
set-KeptAll np t i q k = record {
  procs = λ x. elim (ℕ_discrete x i) [
    | yes e ↦ rw (e, update_self t.procs i q) k
    | no ne ↦ rw (update_ne t.procs i q x ne) (Kept-refl np t.init (t.procs x))
  ];
  same_init = refl;
  calls = refl;
}

wake_one-Kept : (np init chan : ℕ) (p : Proc) → Kept np init p (wake_one chan p)
wake_one-Kept np init chan p = elim (Bool-cases (is_sleeping p.state && (p.chan == chan))) [
  | inl e ↦ rw e (record {
    pid = refl;
    kstack = refl;
    info = refl;
    same_zombie = asleep p.state (ground arith);
    same_killed = refl;
    same_pgdir = refl;
    parent = inl refl;
  })
  | inr e ↦ rw e (Kept-refl np init p)
]
  where
    asleep : (s : State) → is_sleeping s ≡ true → is_zombie runnable ≡ is_zombie s
    asleep s e = ground arith

wakeup1-KeptAll : (np chan : ℕ) (t : Ptable) → KeptAll np t (wakeup1 chan t)
wakeup1-KeptAll np chan t = record {
  procs = λ x.
      rw (for_slots-at nproc 0 (wake_one chan) t.procs x)
        (elim (Bool-cases (leb 0 x && ltb x (0 + nproc))) [
          | inl e ↦ rw e (wake_one-Kept np t.init chan (t.procs x))
          | inr e ↦ rw e (Kept-refl np t.init (t.procs x))
        ]);
  same_init = refl;
  calls = refl;
}

adopt-KeptAll : (np i : ℕ) (t : Ptable) → KeptAll np t (adopt np i t)
unfolding adopt
adopt-KeptAll np i t = elim (Bool-cases (points_to (t.procs i).parent np)) [
  | inr e ↦
      rw e (record { procs = λ x. Kept-refl np t.init (t.procs x); same_init = refl; calls = refl })
  | inl e ↦
      let t' = set_proc t i (record (t.procs i) { parent = some t.init }) in
      let moved =
        set-KeptAll np t i (record (t.procs i) { parent = some t.init })
          (record {
            pid = refl;
            kstack = refl;
            info = refl;
            same_zombie = refl;
            same_killed = refl;
            same_pgdir = refl;
            parent = inr (e, refl);
          }) in
      elim (Bool-cases (is_zombie (t.procs i).state)) [
        | inl z ↦
            rw (e, z)
              (KeptAll-trans np t t' (wakeup1 (addr t.init) t') moved
                (wakeup1-KeptAll np (addr t.init) t'))
        | inr z ↦ rw (e, z) moved
      ]
]

pass_children-KeptAll : (np : ℕ) (t : Ptable) → KeptAll np t (pass_children np t)
unfolding pass_children
pass_children-KeptAll np t =
    for_each-inv (KeptAll np t) (adopt np)
      (λ i s k. KeptAll-trans np t s (adopt np i s) k (adopt-KeptAll np i s)) nproc 0
      (wakeup1 (addr_of (t.procs np).parent) t) (wakeup1-KeptAll np (addr_of (t.procs np).parent) t)

drop_files-KeptAll :
    (np : ℕ) (t : Ptable)
    → (t.procs np).thread_info.is_thread ≡ true
    → KeptAll np t (drop_files np t)
unfolding drop_files
drop_files-KeptAll np t thread = rw thread (
    set-KeptAll np t np (record (t.procs np) { cwd = none })
      (record {
        pid = refl;
        kstack = refl;
        info = refl;
        same_zombie = refl;
        same_killed = refl;
        same_pgdir = refl;
        parent = inl refl;
      }))

-- The table after the exit of thread `np`.
pub record Exited (np : ℕ) (t u : Ptable) : Type 0 where
  pub dead : is_zombie (u.procs np).state ≡ true
  pub pid : (u.procs np).pid ≡ (t.procs np).pid
  pub kstack : (u.procs np).kstack ≡ (t.procs np).kstack
  pub info : (u.procs np).thread_info ≡ (t.procs np).thread_info
  pub parent :
      ((u.procs np).parent ≡ (t.procs np).parent)
      ⊎ ((points_to (t.procs np).parent np ≡ true) × ((u.procs np).parent ≡ some t.init))
  pub others : (x : ℕ) → x ≢ np → Kept np t.init (t.procs x) (u.procs x)
  pub calls : u.calls ≡ t.calls

-- The exit of a thread other than init leaves a zombie, which keeps its id, its kernel stack and its
-- thread data, and hands the children of the thread to init. It closes no file and makes no other call
-- that would drop a reference; no other entry becomes a zombie or stops being one.
pub exit-thread :
    (np : ℕ) (t : Ptable)
    → np ≢ t.init
    → (t.procs np).thread_info.is_thread ≡ true
    → (u : Ptable) × (exit np t ≡ some u) × Exited np t u
unfolding exit
exit-thread np t ne thread =
    let test : (np == t.init) ≡ false = ground arith in
    let v = pass_children np (drop_files np t) in
    let k =
      KeptAll-trans np t (drop_files np t) v (drop_files-KeptAll np t thread)
        (pass_children-KeptAll np (drop_files np t)) in
    let q = record (v.procs np) { state = zombie } in
    let here = update_self v.procs np q in
    let me = k.procs np in
    (
      set_proc v np q,
      rw test refl,
      record {
        dead = ap (λ p. is_zombie p.state) here;
        pid = ap (λ p. p.pid) here ∙ me.pid;
        kstack = ap (λ p. p.kstack) here ∙ me.kstack;
        info = ap (λ p. p.thread_info) here ∙ me.info;
        parent = elim me.parent [
          | inl e ↦ inl (ap (λ p. p.parent) here ∙ e)
          | inr (c, e) ↦ inr (c, ap (λ p. p.parent) here ∙ e)
        ];
        others = λ x other.
            subst (λ p. Kept np t.init (t.procs x) p) (sym (update_ne v.procs np q x other))
              (k.procs x);
        calls = k.calls;
      },
    )
