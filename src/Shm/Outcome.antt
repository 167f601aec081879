-- ===== src/Shm/Outcome.antt =====
-- What a call of `attach_pages_to_process` that returns an address has done.
use cs537_intro_to_os.Prelude.{
  ℕ, ◌<◌, ◌≡◌, ◌≢◌, refl, true, false, ◌==◌, arith, update, update_self, update_ne, Option, none,
  some, ap, sym, ◌∙◌, Bool-cases, inl, inr,
}
use cs537_intro_to_os.Shm.{
  Key, Shm, max_shared_keys, no_room, set_key, is_page, map_key, attach_pages_to_process,
}
use cs537_intro_to_os.Shm.Users.{nproc, IsValid}
use cs537_intro_to_os.Shm.Place.{HasSize}
use cs537_intro_to_os.Shm.Attach.{Attached, map_key-Attached}
use cs537_intro_to_os.Shm.Branches.{
  Made, alloc_cases, numbered, no_room-refused, attach-failed, attach-fresh, attach-used,
}

-- `kalloc` returns pages that `kfree` takes back, or NULL.
abbrev pub IsAllocator : (kernel_end npages : ℕ) → (ℕ → ℕ) → Type 0
IsAllocator e npages kalloc = (j : ℕ) → j < npages → kalloc j ≢ 0 → is_page e (kalloc j) ≡ true

nonzero : (x : ℕ) → (x == 0) ≡ false → x ≢ 0
nonzero x e q = ground arith

is_zero : (x : ℕ) → (x == 0) ≡ true → x ≡ 0
is_zero x e = ground arith

module _ (e c k : ℕ) (s : Shm) (v : IsValid e s) (below : c < nproc) (lt : k < max_shared_keys)
    (size : HasSize (s.procs c)) (new : (s.procs c).key_addresses k ≡ 0) where
  -- A new key with its pages.
  pub Made-Attached :
      (npages : ℕ) (kalloc : ℕ → ℕ) (key : Key) (location : ℕ) (t : Shm)
      → ((s.spages k).refcount == 0) ≡ true
      → ((j : ℕ) → j < npages → is_page e (kalloc j) ≡ true)
      → Made npages 0 kalloc (numbered c k npages kalloc s) key
      → map_key c k (set_key s k key) ≡ some (some location, t)
      → Attached e c k s key t location
  Made-Attached npages kalloc key location t fresh pages made h =
      let at = update_self s.spages k key in
      let n : (update s.spages k key k).n ≡ npages = ap (λ x. x.n) at ∙ made.n in
      rw⁻¹ at (
        map_key-Attached e c k s v below lt size new (update s.spages k key) location
          (λ j ne. update_ne s.spages k key j ne) (ap (λ x. x.refcount) at ∙ made.refcount)
          (λ j inside. rw at (
            ap (λ a. is_page e a) (made.at j (omega arith) (omega (arith, inside, n)))
            ∙ pages j (omega (arith, inside, n))))
          t h)

  pub used-Attached :
      (location : ℕ) (t : Shm)
      → map_key c k s ≡ some (some location, t)
      → Attached e c k s (s.spages k) t location
  used-Attached location t h =
      map_key-Attached e c k s v below lt size new s.spages location (λ j ne. refl) refl
        (λ j inside. v.good k lt j inside) t h

  -- Every call that returns an address.
  pub attach-Attached :
      (npages : ℕ) (kalloc : ℕ → ℕ) (location : ℕ) (t : Shm)
      → IsAllocator e npages kalloc
      → attach_pages_to_process c k npages kalloc s ≡ some (some location, t)
      → (key : Key) × Attached e c k s key t location
  attach-Attached npages kalloc location t pages h =
      elim (Bool-cases ((s.spages k).refcount == 0)) [
        | inl fresh ↦ elim (Bool-cases (no_room (s.procs c) npages)) [
          | inl full ↦ absurd (refused (sym (no_room-refused c k npages kalloc s fresh full) ∙ h))
          | inr room ↦ elim (alloc_cases npages 0 kalloc (numbered c k npages kalloc s)) [
            | inl (key, runs, made) ↦ (
              key,
              Made-Attached npages kalloc key location t fresh
                  (λ j inside.
                    pages j inside (nonzero (kalloc j) (made.pages j (omega arith) (omega arith))))
                  made (sym (attach-fresh c k npages kalloc s fresh room key runs) ∙ h),
            )
            | inr (key, j, runs, from, inside, empty) ↦
                absurd (refused (sym (attach-failed c k npages kalloc s fresh room key runs) ∙ h))
          ]
        ]
        | inr used ↦ (
          s.spages k,
          used-Attached location t (sym (attach-used c k npages kalloc s used new) ∙ h),
        )
      ]
    where
      refused :
          {u : Shm}
          → ◌≡◌ {A = Option (Option ℕ × Shm)} (some (none, u)) (some (some location, t))
          → ⊥
      refused e = cc
