-- ===== src/Shm/Reach.antt =====
-- The shared pages in every state that the calls of processes lead to.
use cs537_intro_to_os.Prelude.{
  ℕ, ◌&&◌, ◌<◌, ◌≡◌, ◌≢◌, refl, Bool, true, false, not, ◌==◌, ◌||◌, if◌then◌else◌, arith, ap, sym,
  ◌∙◌, subst, leb, ltb, Bool-cases, inl, inr, for_each-inv, for_each-slots, Option, none, some,
}
use cs537_intro_to_os.Tally.{tally-none}
use cs537_intro_to_os.Shm.{
  Key, Shm, max_shared_keys, set_key, set_proc, empty_key, shminit, bad_key, bad_npages,
  attach_pages_to_process, sys_shmgetat, sys_shmdt, fork_shared,
}
use cs537_intro_to_os.Shm.Users.{nproc, attached, IsValid, users-attached}
use cs537_intro_to_os.Shm.Detach.{Detached, sys_shmdt-Detached}
use cs537_intro_to_os.Shm.Place.{HasSize}
use cs537_intro_to_os.Shm.Outcome.{IsAllocator, attach-Attached}
use cs537_intro_to_os.Shm.Refused.{refused-same}
use cs537_intro_to_os.Shm.Fork.{HasNone, same-IsValid, fork_shared-IsValid}

-- A state that is reached from the start, as long as no call of `sys_shmgetat` fails for a key that no
-- process has: processes attach keys, are refused, fork, grow or get a new image, and let go of their
-- keys. A slot is used for a child only if it has no keys, and a process attaches a key only if its
-- memory ends below its shared pages.
pub data Reached (e : ℕ) : Shm → Type 0 where
  starts : (s : Shm) → ((x : ℕ) → x < nproc → HasNone (s.procs x)) → Reached e (shminit s)
  attaches :
      {s : Shm} (c k npages : ℕ) (kalloc : ℕ → ℕ) (location : ℕ) (t : Shm)
      → Reached e s
      → c < nproc
      → HasSize (s.procs c)
      → IsAllocator e npages kalloc
      → sys_shmgetat c (some k) (some npages) kalloc s ≡ some (some location, t)
      → Reached e t
  refuses :
      {s : Shm} (c : ℕ) (key npages : Option ℕ) (kalloc : ℕ → ℕ) (t : Shm)
      → Reached e s
      → ((k : ℕ) → key ≡ some k → k < max_shared_keys → (s.spages k).refcount ≢ 0)
      → sys_shmgetat c key npages kalloc s ≡ some (none, t)
      → Reached e t
  forks :
      {s : Shm} (parent child : ℕ) (d : ℕ → ℕ)
      → Reached e s
      → child ≢ parent
      → child < nproc
      → HasNone (s.procs child)
      → Reached e (fork_shared parent child d s)
  grows :
      {s : Shm} (c sz : ℕ) (ptes : ℕ → ℕ)
      → Reached e s
      → c < nproc
      → Reached e (set_proc s c (record (s.procs c) { sz = sz; ptes = ptes }))
  detaches :
      {s : Shm} (c : ℕ) (t : Shm) → Reached e s → c < nproc → sys_shmdt e c s ≡ some t → Reached e t

init_keys : (s : Shm) (k : ℕ) → k < max_shared_keys → (shminit s).spages k ≡ empty_key (s.spages k)
init_keys s k lt =
    for_each-slots (λ t. t.spages) (λ i t. set_key t i (empty_key (t.spages i))) empty_key
      (λ i t x. refl) max_shared_keys 0 s k
    ∙ inside k lt _ _
  where
    inside : (k : ℕ) → k < 8 → (a b : Key) → (if leb 0 k && ltb k 8 then a else b) ≡ a
    inside k lt a b = ground arith

init_procs : (s : Shm) → (shminit s).procs ≡ s.procs
init_procs s =
    for_each-inv (λ t. t.procs ≡ s.procs) (λ i t. set_key t i (empty_key (t.spages i))) (λ i t p. p)
      max_shared_keys 0 s refl

init-IsValid :
    (e : ℕ) (s : Shm) → ((x : ℕ) → x < nproc → HasNone (s.procs x)) → IsValid e (shminit s)
init-IsValid e s no_keys = record {
  counted = λ k lt.
      ap (λ key. key.refcount) (init_keys s k lt)
      ∙ sym (
          tally-none (attached k) 0 nproc (shminit s).procs λ x from below.
            ap (λ f. attached k (f x)) (init_procs s)
            ∙ ap (λ a. not (a == 0)) (no_keys x (omega arith) k lt));
  idle = λ k lt z. ap (λ key. key.n) (init_keys s k lt);
  good = λ k lt j inside. absurd (no_pages j (ap (λ key. key.n) (init_keys s k lt)) inside);
}
  where
    no_pages : (j : ℕ) {n : ℕ} → n ≡ 0 → j < n → ⊥
    no_pages j z h = omega (arith, z, h)

-- What a call of `sys_shmgetat` that returns an address has done.
getat-IsValid :
    (e c k npages : ℕ) (kalloc : ℕ → ℕ) (location : ℕ) (s t : Shm)
    → IsValid e s
    → c < nproc
    → HasSize (s.procs c)
    → IsAllocator e npages kalloc
    → sys_shmgetat c (some k) (some npages) kalloc s ≡ some (some location, t)
    → IsValid e t
unfolding sys_shmgetat attach_pages_to_process
getat-IsValid e c k npages kalloc location s t v below size pages h =
    elim (Bool-cases (bad_key k || bad_npages npages)) [
      | inl bad ↦ absurd (refused (sym (fails bad) ∙ h))
      | inr fine ↦
          let lt : k < max_shared_keys = small k (bad_npages npages) fine in
          let call = sym (goes_on fine) ∙ h in
          elim (Bool-cases ((s.procs c).key_addresses k == 0)) [
            | inl new ↦
                let (key, attached_now) =
                  attach-Attached e c k s v below lt size (zero_of _ new) npages kalloc location t
                    pages call in
                attached_now.valid
            | inr old ↦ subst (λ u. IsValid e u) (sym (same _ (sym (again lt old) ∙ call))) v
          ]
    ]
  where
    fails :
        (bad_key k || bad_npages npages) ≡ true
        → sys_shmgetat c (some k) (some npages) kalloc s ≡ some (none, s)
    fails e = rw e refl

    goes_on :
        (bad_key k || bad_npages npages) ≡ false
        → sys_shmgetat c (some k) (some npages) kalloc s
          ≡ attach_pages_to_process c k npages kalloc s
    goes_on e = rw e refl

    refused : ◌≡◌ {A = Option (Option ℕ × Shm)} (some (none, s)) (some (some location, t)) → ⊥
    refused e = cc

    small : (k : ℕ) (b : Bool) → (bad_key k || b) ≡ false → k < 8
    small k b e = ground arith

    zero_of : (a : ℕ) → (a == 0) ≡ true → a ≡ 0
    zero_of a e = ground arith

    same :
        (a : ℕ)
        → ◌≡◌ {A = Option (Option ℕ × Shm)} (some (some a, s)) (some (some location, t))
        → t ≡ s
    same a e = cc

    again :
        k < max_shared_keys
        → ((s.procs c).key_addresses k == 0) ≡ false
        → attach_pages_to_process c k npages kalloc s ≡ some (some ((s.procs c).key_addresses k), s)
    again lt old =
        let one = users-attached e s k c v lt below in
        let used : ((s.spages k).refcount == 0) ≡ false = ground (arith, one, old) in
        rw (used, old) refl

Reached-IsValid' : (e : ℕ) (s : Shm) → Reached e s → IsValid e s
Reached-IsValid' e _ (starts s no_keys) = init-IsValid e s no_keys
Reached-IsValid' e _ (attaches {s} c k npages kalloc location t run below size pages h) =
    getat-IsValid e c k npages kalloc location s t (Reached-IsValid' e s run) below size pages h
Reached-IsValid' e _ (refuses {s} c key npages kalloc t run used h) =
    subst (λ w. IsValid e w) (sym (refused-same c key npages kalloc s t used h))
      (Reached-IsValid' e s run)
Reached-IsValid' e _ (forks {s} parent child d run ne below no_keys) =
    fork_shared-IsValid e parent child ne below d s (Reached-IsValid' e s run) no_keys
Reached-IsValid' e _ (grows {s} c sz ptes run below) =
    same-IsValid e c _ s below (Reached-IsValid' e s run) (λ k lt. refl)
Reached-IsValid' e _ (detaches {s} c t run below h) =
    let (u, runs, d) = sys_shmdt-Detached e c s below (Reached-IsValid' e s run) in
    subst (λ w. IsValid e w) (same u (sym runs ∙ h)) d.valid
  where
    same : (u : Shm) → some u ≡ some t → u ≡ t
    same u q = cc

-- As long as no call of `sys_shmgetat` fails for a key that no process has, a process that attaches a key
-- has its memory below its shared pages, `kalloc` gives pages that `kfree` takes, and
-- `fork` takes a slot without keys, then whatever calls are made: the count of each key is the number of
-- the processes that have it, a key without users has no pages, and `sys_shmdt` of any process returns
-- and leaves what `Detached` says, so that `exit` and `exec` do not panic in it.
pub Reached-IsValid :
    (e : ℕ) (s : Shm)
    → Reached e s
    → IsValid e s
      × ((c : ℕ) → c < nproc → (t : Shm) × (sys_shmdt e c s ≡ some t) × Detached e c s t)
Reached-IsValid e s run =
    let v = Reached-IsValid' e s run in (v, λ c below. sys_shmdt-Detached e c s below v)
