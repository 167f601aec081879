-- ===== src/Proc/Life/Alloc.antt =====
-- What `allocproc` does, and the invariant of process ids.
use cs537_intro_to_os.Prelude.{
  Bool, ℕ, ◌+◌, ◌<◌, ◌≡◌, ◌≢◌, refl, false, true, Option, none, some, arith, ◌==◌, find_from,
  find_from-some, find_from-none, IsFirst, inl, inr, Option-cases, Bool-cases,
}
use cs537_intro_to_os.Proc.Table.{unused, embryo, Ptable, nproc, is_unused, State}
use cs537_intro_to_os.Proc.Life.{allocproc, unused_at}

-- Slot `i` holds a process.
abbrev pub Used : Ptable → ℕ → Type 0
Used t i = unused_at t i ≡ false

-- No two processes share an id, and the next id is new.
pub record IsNumbered (t : Ptable) : Type 0 where
  pub old : (i : ℕ) → i < nproc → Used t i → (t.procs i).pid < t.next_pid
  pub apart :
      (i j : ℕ)
      → i < nproc
      → j < nproc
      → Used t i
      → Used t j
      → (t.procs i).pid ≡ (t.procs j).pid
      → i ≡ j

-- A successful `allocproc`: the first unused slot is an embryo with the next id.
pub record Allocated (kstack : ℕ) (t : Ptable) (r : Option ℕ × Ptable) : Type 0 where
  pub slot : ℕ
  pub found : r.0 ≡ some slot
  pub in_range : slot < nproc
  pub was_unused : (t.procs slot).state ≡ unused
  pub lower_used : (x : ℕ) → x < slot → Used t x
  pub taken :
      r.1.procs slot ≡ record (t.procs slot) { state = embryo; pid = t.next_pid; kstack = kstack }
  pub next : r.1.next_pid ≡ t.next_pid + 1
  pub others : (x : ℕ) → x ≢ slot → r.1.procs x ≡ t.procs x
  pub same_queues : r.1.queues ≡ t.queues
  pub same_init : r.1.init ≡ t.init
  pub same_calls : r.1.calls ≡ t.calls

state_unused : (s : State) → is_unused s ≡ true → s ≡ unused
state_unused unused h = refl
state_unused _ h = cc

-- If some slot is unused and `kalloc` gives a stack, `allocproc` succeeds: it takes the first
-- unused slot, changes its state, id and stack only, and leaves every other process and the queues
-- alone.
pub allocproc-Allocated :
    (kstack : ℕ) (t : Ptable) (i : ℕ)
    → kstack ≢ 0
    → i < nproc
    → (t.procs i).state ≡ unused
    → Allocated kstack t (allocproc kstack t)
unfolding allocproc
allocproc-Allocated kstack t i ne lt free = elim (Option-cases (find_from nproc 0 (unused_at t))) [
  | inl e ↦
      let used = find_from-none nproc 0 (unused_at t) e i (omega arith) (omega arith) in
      ground arith
  | inr (j, e) ↦
      let first : IsFirst (unused_at t) 0 nproc j = find_from-some nproc 0 (unused_at t) e in
      let real : (kstack == 0) ≡ false = ground arith in
      rw (e, real, allocproc)
        (record {
          slot = j;
          found = refl;
          in_range = first.below;
          was_unused = state_unused _ first.passes;
          lower_used = λ x less. first.first x (omega arith) less;
          taken = ground arith;
          next = refl;
          others = λ x other. ground arith;
          same_queues = refl;
          same_init = refl;
          same_calls = refl;
        })
]

-- `allocproc` fails when every slot is used, and then changes nothing; it also fails when `kalloc`
-- has no stack, and then the same slots are used as before.
pub allocproc-fails :
    (kstack : ℕ) (t : Ptable)
    → (((i : ℕ) → i < nproc → Used t i) → allocproc kstack t ≡ (none, t))
      × (kstack ≡ 0
          → ((allocproc kstack t).0 ≡ none)
            × ((i : ℕ) → unused_at (allocproc kstack t).1 i ≡ unused_at t i))
unfolding allocproc
allocproc-fails kstack t = elim (Option-cases (find_from nproc 0 (unused_at t))) [
  | inl e ↦ rw (e, allocproc) (λ used. refl, λ z. (refl, λ i. refl))
  | inr (j, e) ↦
      let first : IsFirst (unused_at t) 0 nproc j = find_from-some nproc 0 (unused_at t) e in
      rw (e, allocproc)
        (
          λ used. absurd (clash _ (used j first.below) first.passes),
          λ z. (ground arith, λ i. ground (arith, first.passes)),
        )
]
  where
    clash : (b : Bool) → b ≡ false → b ≡ true → ⊥
    clash b f g = cc

-- `allocproc` keeps the ids of the processes distinct, on every branch.
pub allocproc-IsNumbered :
    (kstack : ℕ) (t : Ptable) → IsNumbered t → IsNumbered (allocproc kstack t).1
unfolding allocproc
allocproc-IsNumbered kstack t v = elim (Option-cases (find_from nproc 0 (unused_at t))) [
  | inl e ↦ rw (e, allocproc) v
  | inr (j, e) ↦
      let first : IsFirst (unused_at t) 0 nproc j = find_from-some nproc 0 (unused_at t) e in
      elim (Bool-cases (kstack == 0)) [
        | inl z ↦
            rw (e, z, allocproc)
              (record {
                old = λ i lt u. ground (arith, v.old i lt);
                apart = λ i k lt lt' u u' same. ground (arith, v.apart i k lt lt');
              })
        | inr z ↦
            rw (e, z, allocproc)
              (record {
                old = λ i lt u. ground (arith, v.old i lt);
                apart = λ i k lt lt' u u' same.
                    ground (arith, v.apart i k lt lt', v.old i lt, v.old k lt');
              })
      ]
]
