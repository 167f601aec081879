-- ===== src/Shm/Refused.antt =====
-- A call of `sys_shmgetat` that returns -1 for a key in use, or for bad arguments.
use cs537_intro_to_os.Prelude.{
  ℕ, ◌*◌, ◌<◌, ◌≡◌, ◌≢◌, refl, Bool, true, false, ◌==◌, ◌||◌, arith, sym, ◌∙◌, Bool-cases,
  Option-cases, inl, inr, Option, none, some,
}
use cs537_intro_to_os.Shm.{
  Shm, max_shared_keys, bad_key, bad_npages, attach_pages_to_process, sys_shmgetat, minus, pgsize,
  no_room, map_pages, map_key,
}
use cs537_intro_to_os.Shm.Place.{no_room-none, stuck-none, map_key-some}

module _ (c k : ℕ) (s t : Shm) where
  same_state : ◌≡◌ {A = Option (Option ℕ × Shm)} (some (none, s)) (some (none, t)) → t ≡ s
  same_state e = cc

  address_clash :
      {a : ℕ} {u : Shm} → ◌≡◌ {A = Option (Option ℕ × Shm)} (some (some a, u)) (some (none, t)) → ⊥
  address_clash e = cc

  panic_clash : ◌≡◌ {A = Option (Option ℕ × Shm)} none (some (none, t)) → ⊥
  panic_clash e = cc

  map_key-same : map_key c k s ≡ some (none, t) → t ≡ s
  map_key-same h = elim (Bool-cases (no_room (s.procs c) (s.spages k).n)) [
    | inl full ↦ same_state (sym (no_room-none c k s full) ∙ h)
    | inr room ↦
        let p = s.procs c in
        let key = s.spages k in
        elim (Option-cases (map_pages key.n 0 (minus p.current_top (pgsize * key.n)) key.addr p)) [
          | inl fails ↦ absurd (panic_clash (sym (stuck-none c k s room fails) ∙ h))
          | inr (q, maps) ↦ absurd (address_clash (sym (map_key-some c k s q room maps) ∙ h))
        ]
  ]

  attach-same :
      (npages : ℕ) (kalloc : ℕ → ℕ)
      → ((s.spages k).refcount == 0) ≡ false
      → attach_pages_to_process c k npages kalloc s ≡ some (none, t)
      → t ≡ s
  unfolding attach_pages_to_process
  attach-same npages kalloc used h = elim (Bool-cases ((s.procs c).key_addresses k == 0)) [
    | inl new ↦ map_key-same (sym (maps new) ∙ h)
    | inr old ↦ absurd (address_clash (sym (again old) ∙ h))
  ]
    where
      maps :
          ((s.procs c).key_addresses k == 0) ≡ true
          → attach_pages_to_process c k npages kalloc s ≡ map_key c k s
      maps new = rw (used, new) refl

      again :
          ((s.procs c).key_addresses k == 0) ≡ false
          → attach_pages_to_process c k npages kalloc s
            ≡ some (some ((s.procs c).key_addresses k), s)
      again old = rw (used, old) refl

-- A refusal for a key that is in use, or for bad arguments, changes nothing.
pub refused-same :
    (c : ℕ) (key npages : Option ℕ) (kalloc : ℕ → ℕ) (s t : Shm)
    → ((k : ℕ) → key ≡ some k → k < max_shared_keys → (s.spages k).refcount ≢ 0)
    → sys_shmgetat c key npages kalloc s ≡ some (none, t)
    → t ≡ s
unfolding sys_shmgetat
refused-same c none npages kalloc s t used h = same_state c 0 s t h
refused-same c (some k) none kalloc s t used h = same_state c k s t h
refused-same c (some k) (some npages) kalloc s t used h =
    elim (Bool-cases (bad_key k || bad_npages npages)) [
      | inl bad ↦ same_state c k s t (sym (fails bad) ∙ h)
      | inr fine ↦
          attach-same c k s t npages kalloc
            (nonzero _ (used k refl (small k (bad_npages npages) fine))) (sym (goes_on fine) ∙ h)
    ]
  where
    fails :
        (bad_key k || bad_npages npages) ≡ true
        → sys_shmgetat c (some k) (some npages) kalloc s ≡ some (none, s)
    fails e = rw e refl

    goes_on :
        (bad_key k || bad_npages npages) ≡ false
        → sys_shmgetat c (some k) (some npages) kalloc s
          ≡ attach_pages_to_process c k npages kalloc s
    goes_on e = rw e refl

    small : (k : ℕ) (b : Bool) → (bad_key k || b) ≡ false → k < 8
    small k b e = ground arith

    nonzero : (x : ℕ) → x ≢ 0 → (x == 0) ≡ false
    nonzero x ne = ground arith
