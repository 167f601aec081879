-- ===== src/Shm/Fork.antt =====
-- The shared pages of a child.
use cs537_intro_to_os.Prelude.{
  ℕ, zero, suc, ◌+◌, ◌-◌, ◌/◌, ◌≤◌, ◌<◌, ◌≡◌, ◌≢◌, refl, false, not, ◌==◌, arith, update,
  update_self, update_ne, ap, sym, ◌∙◌, Bool-cases, inl, inr, for_each,
}
use cs537_intro_to_os.Tally.{one_if}
use cs537_intro_to_os.Shm.{
  Proc, Shm, max_shared_keys, set_key, set_proc, shm_inc_refcount, share_key, share_ptes,
  fork_shared, usertop, pgsize,
}
use cs537_intro_to_os.Shm.Users.{nproc, attached, IsValid, Change-IsValid, users-bound}

-- A process without shared pages.
abbrev pub HasNone : Proc → Type 0
HasNone p = (k : ℕ) → k < max_shared_keys → p.key_addresses k ≡ 0

-- A process changes, but not in what it has of the keys.
pub same-IsValid :
    (e c : ℕ) (p : Proc) (s : Shm)
    → c < nproc
    → IsValid e s
    → ((k : ℕ) → k < max_shared_keys → p.key_addresses k ≡ (s.procs c).key_addresses k)
    → IsValid e (set_proc s c p)
same-IsValid e c p s below v same = Change-IsValid e c 0 p s (set_proc s c p) below v (record {
  procs = refl;
  keys = λ j ne. refl;
  others = λ j lt ne. ap (λ a. not (a == 0)) (same j lt);
  refs = ap (λ a. (s.spages 0).refcount + one_if (not (a == 0))) (sym (same 0 (omega arith)));
  idle = v.idle 0 (omega arith);
  good = v.good 0 (omega arith);
})

module _ (e parent child : ℕ) (ne : child ≢ parent) (below : child < nproc) where
  with_key : (i : ℕ) → Shm → Proc
  with_key i s = record (s.procs child) {
    key_addresses = update (s.procs child).key_addresses i ((s.procs parent).key_addresses i);
  }

  shared : (i : ℕ) → Shm → Shm
  shared i s = set_key (set_proc s child (with_key i s)) i (shm_inc_refcount (s.spages i))

  shared-IsValid :
      (i : ℕ) (s : Shm)
      → IsValid e s
      → i < max_shared_keys
      → (s.procs child).key_addresses i ≡ 0
      → ((s.procs parent).key_addresses i == 0) ≡ false
      → IsValid e (shared i s)
  unfolding shared with_key
  shared-IsValid i s v lt none has =
      let at = update_self s.spages i (shm_inc_refcount (s.spages i)) in
      let b = users-bound e s i v lt in
      let more : (shm_inc_refcount (s.spages i)).refcount ≡ (s.spages i).refcount + 1 =
        omega (arith, b) in
      let r : (update s.spages i (shm_inc_refcount (s.spages i)) i).refcount
          ≡ (s.spages i).refcount + 1 =
        ap (λ key. key.refcount) at ∙ more in
      let old : one_if (attached i (s.procs child)) ≡ 0 = rw none refl in
      let new : one_if (attached i (with_key i s)) ≡ 1 =
        rw (update_self (s.procs child).key_addresses i ((s.procs parent).key_addresses i), has)
          refl in
      Change-IsValid e child i (with_key i s) s (shared i s) below v (record {
        procs = refl;
        keys = λ j off. update_ne s.spages i _ j off;
        others = λ j small off.
            ap (λ a. not (a == 0)) (update_ne (s.procs child).key_addresses i _ j off);
        refs = omega (arith, r, old, new);
        idle = λ z. absurd (not_zero _ _ r z);
        good = λ j inside. rw at (v.good i lt j (less (ap (λ key. key.n) at) inside));
      })
    where
      not_zero : (a b : ℕ) → b ≡ a + 1 → b ≡ 0 → ⊥
      not_zero a b p z = omega (arith, p, z)

      less : {j a b : ℕ} → a ≡ b → j < a → j < b
      less p h = omega (arith, p, h)

  -- One round of the loop, and what it leaves for the later ones.
  share_key-IsValid :
      (i : ℕ) (s : Shm)
      → IsValid e s
      → i < max_shared_keys
      → (s.procs child).key_addresses i ≡ 0
      → IsValid e (share_key parent child i s)
        × ((k : ℕ)
            → k ≢ i
            → ((share_key parent child i s).procs child).key_addresses k
              ≡ (s.procs child).key_addresses k)
  unfolding shared with_key
  share_key-IsValid i s v lt none = elim (Bool-cases ((s.procs parent).key_addresses i == 0)) [
    | inl lacks ↦ rw lacks (v, λ k off. refl)
    | inr has ↦ rw has (
      shared-IsValid i s v lt none has,
      λ k off.
          ap (λ p. p.key_addresses k) (update_self s.procs child (with_key i s))
          ∙ update_ne (s.procs child).key_addresses i _ k off,
    )
  ]

  share_keys-IsValid :
      (m i : ℕ) (s : Shm)
      → IsValid e s
      → i + m ≤ max_shared_keys
      → ((k : ℕ) → i ≤ k → k < i + m → (s.procs child).key_addresses k ≡ 0)
      → IsValid e (for_each m i (share_key parent child) s)
  unfolding for_each
  share_keys-IsValid zero i s v fits none = v
  share_keys-IsValid (suc m) i s v fits none =
      let (w, kept) = share_key-IsValid i s v (omega arith) (none i (omega arith) (omega arith)) in
      share_keys-IsValid m (i + 1) (share_key parent child i s) w (omega arith)
        λ k from lt. kept k (λ q. omega arith) ∙ none k (omega arith) (omega arith)

  pub fork_shared-IsValid :
      (d : ℕ → ℕ) (s : Shm)
      → IsValid e s
      → HasNone (s.procs child)
      → IsValid e (fork_shared parent child d s)
  unfolding fork_shared
  fork_shared-IsValid d s v none =
      let p = s.procs parent in
      let np : Proc = record {
        sz = p.sz;
        ptes = share_ptes (usertop / pgsize) (usertop - pgsize) p.current_top p.ptes d;
        key_addresses = λ i. 0;
        current_top = usertop;
      } in
      let first = same-IsValid e child np s below v (λ k lt. sym (none k lt)) in
      let all =
        share_keys-IsValid max_shared_keys 0 (set_proc s child np) first (omega arith)
          λ k from lt. ap (λ q. q.key_addresses k) (update_self s.procs child np) in
      same-IsValid e child _ _ below all (λ k lt. refl)
