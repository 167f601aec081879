-- ===== src/Shm/Attach.antt =====
-- What `attach_pages_to_process` leaves for a process that does not have the key yet.
use cs537_intro_to_os.Prelude.{
  ℕ, ◌+◌, ◌*◌, ◌≤◌, ◌<◌, ◌≡◌, ◌≢◌, refl, true, not, ◌==◌, arith, update_self, update_ne, some, ap,
  sym, ◌∙◌, bit_or, subst,
}
use cs537_intro_to_os.Tally.{one_if}
use cs537_intro_to_os.Shm.{
  Key, Proc, Shm, max_shared_keys, pgsize, set_key, set_proc, is_page, shm_inc_refcount,
  attached_at, map_key,
}
use cs537_intro_to_os.Shm.Users.{nproc, attached, IsValid, Change, Change-IsValid, users-bound}
use cs537_intro_to_os.Shm.Map.{Mapped}
use cs537_intro_to_os.Shm.Place.{HasSize, map_key-MappedKey}

-- `t` is `s` after process `c` has got the pages of key `k` at `location`; `key` is what `k` was, with
-- its pages.
pub record Attached (e c k : ℕ) (s : Shm) (key : Key) (t : Shm) (location : ℕ) : Type 0 where
  pub same : t.spages k ≡ shm_inc_refcount key
  pub valid : IsValid e t
  pub fits : location + pgsize * (t.spages k).n ≡ (s.procs c).current_top
  pub above : (s.procs c).sz ≤ location
  pub address : (t.procs c).key_addresses k ≡ location
  pub top : (t.procs c).current_top ≡ location
  pub pages :
      (j : ℕ)
      → j < (t.spages k).n
      → (t.procs c).ptes (location + j * pgsize) ≡ bit_or ((t.spages k).addr j) 7
  pub elsewhere :
      (a : ℕ)
      → ((j : ℕ) → j < (t.spages k).n → a ≢ location + j * pgsize)
      → (t.procs c).ptes a ≡ (s.procs c).ptes a
  pub others : (x : ℕ) → x ≢ c → t.procs x ≡ s.procs x
  pub keys : (j : ℕ) → j ≢ k → t.spages j ≡ s.spages j
  pub refs : (t.spages k).refcount ≡ (s.spages k).refcount + 1

module _ (e c k : ℕ) (s : Shm) (v : IsValid e s) (below : c < nproc) (lt : k < max_shared_keys)
    (size : HasSize (s.procs c)) (new : (s.procs c).key_addresses k ≡ 0) where
  module _ (spages : ℕ → Key) (location : ℕ) (keys : (j : ℕ) → j ≢ k → spages j ≡ s.spages j)
      (refs : (spages k).refcount ≡ (s.spages k).refcount)
      (good : (j : ℕ) → j < (spages k).n → is_page e ((spages k).addr j) ≡ true) where
    after : Proc → Shm
    after q =
        set_key (set_proc (record s { spages = spages }) c (attached_at k location q)) k
          (shm_inc_refcount (spages k))

    more : (spages k).refcount + 1 ≡ (shm_inc_refcount (spages k)).refcount
    more = let b = users-bound e s k v lt in omega (arith, b, refs)

    old_one : one_if (attached k (s.procs c)) ≡ 0
    old_one = rw new refl

    new_one :
        (q : Proc) → (s.procs c).sz ≤ location → one_if (attached k (attached_at k location q)) ≡ 1
    new_one q above =
        let pos = size.positive in
        rw (update_self q.key_addresses k location) (has_one location (omega (arith, pos, above)))
      where
        has_one : (l : ℕ) → 0 < l → one_if (not (l == 0)) ≡ 1
        has_one l h = ground arith

    grown : (after_proc : Proc) → (spages k).refcount + 1 ≡ ((after after_proc).spages k).refcount
    unfolding after
    grown q = rw (update_self spages k (shm_inc_refcount (spages k))) more

    after-Change :
        (q : Proc)
        → q.key_addresses ≡ (s.procs c).key_addresses
        → (s.procs c).sz ≤ location
        → Change e c k (attached_at k location q) s (after q)
    unfolding after
    after-Change q addresses above =
        let at = update_self spages k (shm_inc_refcount (spages k)) in
        let r = grown q in
        let o = old_one in
        let n = new_one q above in
        record {
          procs = refl;
          keys = λ j ne. update_ne spages k _ j ne ∙ keys j ne;
          others = λ j small ne.
              ap (λ a. not (a == 0))
                (update_ne q.key_addresses k location j ne ∙ ap (λ f. f j) addresses);
          refs = omega (arith, r, o, n, refs);
          idle = λ z. absurd (not_zero _ _ r z);
          good = λ j inside. rw at (good j (less (ap (λ key. key.n) at) inside));
        }
      where
        not_zero : (a b : ℕ) → a + 1 ≡ b → b ≡ 0 → ⊥
        not_zero a b p z = omega (arith, p, z)

        less : {j a b : ℕ} → a ≡ b → j < a → j < b
        less p h = omega (arith, p, h)

    after-Attached :
        (q : Proc)
        → Mapped (spages k).n 0 location (spages k).addr (s.procs c) q
        → location + pgsize * (spages k).n ≡ (s.procs c).current_top
        → (s.procs c).sz ≤ location
        → Attached e c k s (spages k) (after q) location
    unfolding after
    after-Attached q m fits above =
        let at = update_self spages k (shm_inc_refcount (spages k)) in
        let n = ap (λ key. key.n) at in
        let addr = ap (λ key. key.addr) at in
        let me = update_self s.procs c (attached_at k location q) in
        record {
          same = at;
          valid = Change-IsValid e c k _ s (after q) below v (after-Change q m.key_addresses above);
          fits = rw n fits;
          above = above;
          address = ap (λ p. p.key_addresses k) me ∙ update_self q.key_addresses k location;
          top = ap (λ p. p.current_top) me;
          pages = λ j inside.
              ap (λ p. p.ptes (location + j * pgsize)) me
              ∙ rw addr (m.at j (omega arith) (omega (arith, inside, n)));
          elsewhere = λ a ne.
              ap (λ p. p.ptes a) me
              ∙ m.elsewhere a (λ j from inside. ne j (omega (arith, inside, n)));
          others = λ x ne. update_ne s.procs c _ x ne;
          keys = λ j ne. update_ne spages k _ j ne ∙ keys j ne;
          refs = let r = grown q in omega (arith, r, refs);
        }

    pub map_key-Attached :
        (t : Shm)
        → map_key c k (record s { spages = spages }) ≡ some (some location, t)
        → Attached e c k s (spages k) t location
    unfolding after
    map_key-Attached t h =
        let r = map_key-MappedKey c k (record s { spages = spages }) location t size h in
        subst (λ u. Attached e c k s (spages k) u location) (sym r.result)
          (after-Attached r.q r.mapped r.fits r.above)
