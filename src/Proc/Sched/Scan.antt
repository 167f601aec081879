-- ===== src/Proc/Sched/Scan.antt =====
-- What the scan of a level of the queues finds, and what it forgets.
use cs537_intro_to_os.Prelude.{
  ℕ, zero, suc, ◌+◌, ◌<◌, ◌≤◌, ◌≡◌, refl, Bool, false, true, Option, none, some, arith, inl, inr,
  ◌⊎◌, ap, ◌∙◌, sym, ℕ_discrete,
}
use cs537_intro_to_os.Proc.Table.{Proc, State, runnable, Ptable, nproc, set_queue}
use cs537_intro_to_os.Proc.Sched.{
  Found, idle, found, Action, forget, run_it, skip, action, entry_action, slot_of, scan,
}

abbrev pub is_run : Action → Bool
is_run run_it = true
is_run _ = false

-- `queues[level][i]` points to a runnable process.
abbrev pub ready : Ptable → (level i : ℕ) → Bool
ready t level i = is_run (entry_action t (t.queues level i))

-- What `*q = NULL` does to an entry that points to an unused slot.
clear-ready :
    (t : Ptable) (level i l x : ℕ)
    → entry_action t (t.queues level i) ≡ forget
    → ready (set_queue t level i none) l x ≡ ready t l x
clear-ready t level i l x e = ground arith

-- A scan forgets pointers to unused slots at most.
pub record Kept (t u : Ptable) : Type 0 where
  pub same_ready : (l x : ℕ) → ready u l x ≡ ready t l x
  pub same_procs : u.procs ≡ t.procs
  pub from : (l x p : ℕ) → u.queues l x ≡ some p → t.queues l x ≡ some p

-- One round of the scan, by what its entry asks for.
module _ (k level i : ℕ) (t : Ptable) where
  scan-forget :
      entry_action t (t.queues level i) ≡ forget
      → scan (suc k) level i t ≡ scan k level (i + 1) (set_queue t level i none)
  unfolding scan
  scan-forget e = rw (e, scan) refl

  scan-run :
      entry_action t (t.queues level i) ≡ run_it
      → scan (suc k) level i t ≡ (found level i (slot_of (t.queues level i)), t)
  unfolding scan
  scan-run e = rw (e, scan) refl

  scan-skip :
      entry_action t (t.queues level i) ≡ skip → scan (suc k) level i t ≡ scan k level (i + 1) t
  unfolding scan
  scan-skip e = rw (e, scan) refl

Action-cases : (a : Action) → (a ≡ forget) ⊎ (a ≡ run_it) ⊎ (a ≡ skip)
Action-cases forget = inl refl
Action-cases run_it = inr (inl refl)
Action-cases skip = inr (inr refl)

Kept-refl : (t : Ptable) → Kept t t
Kept-refl t = record { same_ready = λ l x. refl; same_procs = refl; from = λ l x p e. e }

Kept-trans : (t u v : Ptable) → Kept t u → Kept u v → Kept t v
Kept-trans t u v a b = record {
  same_ready = λ l x. b.same_ready l x ∙ a.same_ready l x;
  same_procs = b.same_procs ∙ a.same_procs;
  from = λ l x p e. a.from l x p (b.from l x p e);
}

clear-Kept :
    (t : Ptable) (level i : ℕ)
    → entry_action t (t.queues level i) ≡ forget
    → Kept t (set_queue t level i none)
clear-Kept t level i e = record {
  same_ready = λ l x. clear-ready t level i l x e;
  same_procs = refl;
  from = λ l x p h. ground arith;
}

scan-Kept : (k level i : ℕ) (t : Ptable) → Kept t (scan k level i t).1
unfolding scan
scan-Kept zero level i t = Kept-refl t
scan-Kept (suc k) level i t = elim (Action-cases (entry_action t (t.queues level i))) [
  | inl e ↦
      let t' = set_queue t level i none in
      rw (scan-forget k level i t e) (
        Kept-trans t t' (scan k level (i + 1) t').1 (clear-Kept t level i e)
          (scan-Kept k level (i + 1) t'))
  | inr (inl e) ↦ rw (scan-run k level i t e) (Kept-refl t)
  | inr (inr e) ↦ rw (scan-skip k level i t e) (scan-Kept k level (i + 1) t)
]

-- What a scan of places `lo` to `hi` of some levels from `first` to `last` finds.
pub record Stage (first last lo hi : ℕ) (t : Ptable) (r : Found × Ptable) : Type 0 where
  pub kept : Kept t r.1
  pub hit :
      (l i p : ℕ)
      → r.0 ≡ found l i p
      → (first ≤ l)
        × (l < last)
        × (i < nproc)
        × (t.queues l i ≡ some p)
        × ((t.procs p).state ≡ runnable)
        × ((l' x : ℕ) → first ≤ l' → l' < l → x < nproc → ready t l' x ≡ false)
  pub miss : r.0 ≡ idle → (l x : ℕ) → first ≤ l → l < last → lo ≤ x → x < hi → ready t l x ≡ false

-- A stage on a table from which pointers to unused slots are gone is one on the table itself.
pub Stage-Kept :
    (first last lo hi : ℕ) (t u : Ptable) (r : Found × Ptable)
    → Kept t u
    → Stage first last lo hi u r
    → Stage first last lo hi t r
Stage-Kept first last lo hi t u r k s = record {
  kept = Kept-trans t u r.1 k s.kept;
  hit = λ l i p e.
      let (a, b, c, d, f, g) = s.hit l i p e in
      (
        a,
        b,
        c,
        k.from l i p d,
        ap (λ (h : ℕ → Proc). (h p).state) (sym k.same_procs) ∙ f,
        λ l' x lo hi lt. sym (k.same_ready l' x) ∙ g l' x lo hi lt,
      );
  miss = λ e l x a b c d. sym (k.same_ready l x) ∙ s.miss e l x a b c d;
}

run-entry :
    (t : Ptable) (q : Option ℕ)
    → entry_action t q ≡ run_it
    → (q ≡ some (slot_of q)) × ((t.procs (slot_of q)).state ≡ runnable)
run-entry t none e = absurd (cc)
run-entry t (some p) e = (refl, runs (t.procs p).state e)
  where
    runs : (s : State) → action s ≡ run_it → s ≡ runnable
    runs runnable h = refl
    runs _ h = cc

found-parts : {l i p l' i' p' : ℕ} → found l i p ≡ found l' i' p' → (l ≡ l') × (i ≡ i') × (p ≡ p')
found-parts e = ground arith

not_found : {l i p : ℕ} → idle ≡ found l i p → ⊥
not_found e = cc

pub not_idle : {l i p : ℕ} → found l i p ≡ idle → ⊥
not_idle e = cc

-- One place more in front, which is not ready.
Stage-cons :
    (level i hi : ℕ) (t : Ptable) (r : Found × Ptable)
    → ready t level i ≡ false
    → Stage level (level + 1) (i + 1) hi t r
    → Stage level (level + 1) i hi t r
Stage-cons level i hi t r n s = record {
  kept = s.kept;
  hit = s.hit;
  miss = λ e l x a b c d. elim (ℕ_discrete x i) [
    | yes here ↦ let same : l ≡ level = omega arith in rw (here, same) n
    | no later ↦ s.miss e l x a b (omega arith) d
  ];
}

pub scan-Stage :
    (k level i hi : ℕ) (t : Ptable)
    → hi ≡ i + k
    → hi ≤ nproc
    → Stage level (level + 1) i hi t (scan k level i t)
unfolding scan
scan-Stage zero level i hi t h small = record {
  kept = Kept-refl t;
  hit = λ l j p e. absurd (not_found e);
  miss = λ e l x a b c d. absurd (omega arith);
}
scan-Stage (suc k) level i hi t h small = elim (Action-cases (entry_action t (t.queues level i))) [
  | inl e ↦
      let t' = set_queue t level i none in
      rw (scan-forget k level i t e) (
        Stage-cons level i hi t (scan k level (i + 1) t') (ap is_run e) (
          Stage-Kept level (level + 1) (i + 1) hi t t' (scan k level (i + 1) t')
            (clear-Kept t level i e) (scan-Stage k level (i + 1) hi t' (omega arith) small)))
  | inr (inl e) ↦
      let entry = run-entry t (t.queues level i) e in
      rw (scan-run k level i t e) (record {
        kept = Kept-refl t;
        hit = λ l j p f.
            let (same_l, same_j, same_p) = found-parts f in
            (
              omega arith,
              omega arith,
              omega arith,
              rw (← same_l, ← same_j) (entry.0 ∙ ap some same_p),
              rw (← same_p) entry.1,
              λ l' x lo less lt. absurd (omega arith),
            );
        miss = λ f. absurd (not_idle f);
      })
  | inr (inr e) ↦ rw (scan-skip k level i t e) (
      Stage-cons level i hi t (scan k level (i + 1) t) (ap is_run e)
        (scan-Stage k level (i + 1) hi t (omega arith) small))
]
