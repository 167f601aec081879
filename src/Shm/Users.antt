-- ===== src/Shm/Users.antt =====
-- Which processes use a key, and that the reference counts of the keys are right.
use cs537_intro_to_os.Prelude.{
  ℕ, ◌+◌, ◌≤◌, ◌<◌, ◌≡◌, ◌≢◌, Bool, true, not, ◌==◌, arith, update, ℕ_discrete, ap, sym, ◌∙◌,
}
use cs537_intro_to_os.Tally.{one_if, tally, tally-update, tally-bound}
use cs537_intro_to_os.Shm.{Proc, Shm, max_shared_keys, is_page}

abbrev pub nproc : ℕ
nproc = 64

abbrev pub attached : (k : ℕ) → Proc → Bool
attached k p = not (p.key_addresses k == 0)

-- How many processes have the pages of a key.
abbrev pub users : (k : ℕ) → Shm → ℕ
users k s = tally (attached k) 0 nproc s.procs

-- The count of a key is that of its users; a key without users has no pages; and the pages of a key are
-- such as `kfree` takes back.
pub record IsValid (kernel_end : ℕ) (s : Shm) : Type 0 where
  pub counted : (k : ℕ) → k < max_shared_keys → (s.spages k).refcount ≡ users k s
  pub idle : (k : ℕ) → k < max_shared_keys → (s.spages k).refcount ≡ 0 → (s.spages k).n ≡ 0
  pub good :
      (k : ℕ)
      → k < max_shared_keys
      → (j : ℕ) → j < (s.spages k).n
      → is_page kernel_end ((s.spages k).addr j) ≡ true

-- A step in which process `c` becomes `p`, that counts rightly what `c` does to key `i`, and leaves the
-- other keys alone.
pub record Change (kernel_end c i : ℕ) (p : Proc) (s t : Shm) : Type 0 where
  pub procs : t.procs ≡ update s.procs c p
  pub keys : (j : ℕ) → j ≢ i → t.spages j ≡ s.spages j
  pub others : (j : ℕ) → j < max_shared_keys → j ≢ i → attached j p ≡ attached j (s.procs c)
  pub refs :
      (t.spages i).refcount + one_if (attached i (s.procs c))
      ≡ (s.spages i).refcount + one_if (attached i p)
  pub idle : (t.spages i).refcount ≡ 0 → (t.spages i).n ≡ 0
  pub good : (j : ℕ) → j < (t.spages i).n → is_page kernel_end ((t.spages i).addr j) ≡ true

-- How a change moves the number of users of any key.
users-Change :
    (e c i : ℕ) (p : Proc) (s t : Shm) (k : ℕ)
    → c < nproc
    → Change e c i p s t
    → users k t + one_if (attached k (s.procs c)) ≡ users k s + one_if (attached k p)
users-Change e c i p s t k lt h =
    rw (ap (λ f. tally (attached k) 0 nproc f) h.procs)
      (tally-update (attached k) 0 nproc s.procs c p (omega arith) (omega arith))

pub Change-IsValid :
    (e c i : ℕ) (p : Proc) (s t : Shm) → c < nproc → IsValid e s → Change e c i p s t → IsValid e t
Change-IsValid e c i p s t lt v h = record {
  counted = λ k below.
      let moved = users-Change e c i p s t k lt h in
      elim (ℕ_discrete k i) [
        | yes q ↦
            let old = v.counted k below in
            let refs = h.refs in rw q (omega (arith, subst_at k q old, subst_moved k q moved, refs))
        | no ne ↦
            let old = v.counted k below in
            let same = h.others k below ne in
            let m : users k t + one_if (attached k (s.procs c))
                ≡ users k s + one_if (attached k (s.procs c)) =
              moved ∙ ap (λ b. users k s + one_if b) same in
            rw (h.keys k ne) (omega (arith, old, m))
      ];
  idle = λ k below zero_refs. elim (ℕ_discrete k i) [
    | yes q ↦ rw q (h.idle (ap (λ x. (t.spages x).refcount) (sym q) ∙ zero_refs))
    | no ne ↦
        rw (h.keys k ne) (v.idle k below (ap (λ key. key.refcount) (sym (h.keys k ne)) ∙ zero_refs))
  ];
  good = λ k below j inside. elim (ℕ_discrete k i) [
    | yes q ↦ rw q (h.good j (at_least j (ap (λ x. (t.spages x).n) q) inside))
    | no ne ↦
        rw (h.keys k ne) (v.good k below j (at_least j (ap (λ key. key.n) (h.keys k ne)) inside))
  ];
}
  where
    subst_at :
        (k : ℕ) → k ≡ i → (s.spages k).refcount ≡ users k s → (s.spages i).refcount ≡ users i s
    subst_at k q old = rw (← q) old

    subst_moved :
        (k : ℕ)
        → k ≡ i
        → users k t + one_if (attached k (s.procs c)) ≡ users k s + one_if (attached k p)
        → users i t + one_if (attached i (s.procs c)) ≡ users i s + one_if (attached i p)
    subst_moved k q m = rw (← q) m

    at_least : (j : ℕ) {a b : ℕ} → a ≡ b → j < a → j < b
    at_least j q h = omega (arith, q, h)

-- A count is small, so that it does not wrap round, and it is at least 1 for a key that a process has.
pub users-bound :
    (e : ℕ) (s : Shm) (k : ℕ) → IsValid e s → k < max_shared_keys → (s.spages k).refcount ≤ nproc
users-bound e s k v lt =
    let c = v.counted k lt in
    let b = tally-bound (attached k) 0 nproc s.procs in omega (arith, c, b)

pub users-attached :
    (e : ℕ) (s : Shm) (k c : ℕ)
    → IsValid e s
    → k < max_shared_keys
    → c < nproc
    → one_if (attached k (s.procs c)) ≤ (s.spages k).refcount
users-attached e s k c v lt below =
    let count = v.counted k lt in
    let none : Proc = record (s.procs c) { key_addresses = λ x. 0 } in
    let moved = tally-update (attached k) 0 nproc s.procs c none (omega arith) (omega arith) in
    omega (arith, count, moved)
