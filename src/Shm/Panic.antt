-- ===== src/Shm/Panic.antt =====
-- What a call of `attach_pages_to_process` without room does to the next `sys_shmdt`.
use cs537_intro_to_os.Prelude.{
  ℕ, zero, suc, ◌+◌, ◌/◌, ◌≤◌, ◌<◌, ◌≡◌, ◌≢◌, refl, true, false, ◌==◌, arith, update, update_self,
  update_ne, ap, sym, ◌∙◌, List, Bool-cases, Option-cases, inl, inr, subst, ℕ_discrete, none, some,
}
use cs537_intro_to_os.Shm.{
  Key, Proc, Shm, max_shared_keys, pgsize, usertop, set_key, set_proc, no_room, is_page,
  clear_pages, free_pages, free_key, dropped, without_key, detach_key, detach_keys,
  attach_pages_to_process, sys_shmdt,
}
use cs537_intro_to_os.Shm.Branches.{numbered, no_room-refused}

-- A key that counts pages which it does not have, and that no process uses; `d` does not use it either.
record IsBroken (k d : ℕ) (s : Shm) : Type 0 where
  refs : (s.spages k).refcount ≡ 0
  n : 0 < (s.spages k).n
  addr : (s.spages k).addr 0 ≡ 0
  unused : (s.procs d).key_addresses k ≡ 0

abbrev down : (d i : ℕ) → Shm → Shm
down d i s = set_key (set_proc s d (without_key i (s.procs d))) i (dropped d i s)

down-IsBroken : (k d i : ℕ) (s : Shm) → k ≢ i → IsBroken k d s → IsBroken k d (down d i s)
down-IsBroken k d i s ne b =
    let key = update_ne s.spages i (dropped d i s) k ne in
    record {
      refs = ap (λ x. x.refcount) key ∙ b.refs;
      n = rw key b.n;
      addr = ap (λ x. x.addr 0) key ∙ b.addr;
      unused =
          ap (λ p. p.key_addresses k) (update_self s.procs d (without_key i (s.procs d)))
          ∙ update_ne (s.procs d).key_addresses i 0 k ne
          ∙ b.unused;
    }

emptied-IsBroken :
    (k d i : ℕ) (s : Shm) (key : Key) (freed : List ℕ)
    → k ≢ i
    → IsBroken k d s
    → IsBroken k d (record s { spages = update s.spages i key; freed = freed })
emptied-IsBroken k d i s key freed ne b =
    let same = update_ne s.spages i key k ne in
    record {
      refs = ap (λ x. x.refcount) same ∙ b.refs;
      n = rw same b.n;
      addr = ap (λ x. x.addr 0) same ∙ b.addr;
      unused = b.unused;
    }

-- A round for another key panics, or leaves the key broken.
detach_key-IsBroken :
    (e k d i : ℕ) (s t : Shm)
    → k ≢ i
    → IsBroken k d s
    → detach_key e d i s ≡ some t
    → IsBroken k d t
unfolding detach_key
detach_key-IsBroken e k d i s t ne b h = elim (Bool-cases ((dropped d i s).refcount == 0)) [
  | inl last ↦
      let key = (down d i s).spages i in
      elim (Option-cases (free_pages key.n 0 e key.addr s.freed)) [
        | inl fails ↦ absurd (clash (sym (stops last fails) ∙ h))
        | inr ((addr, freed), runs) ↦
            subst (λ u. IsBroken k d u) (value _ (sym (goes_on last addr freed runs) ∙ h))
              (emptied-IsBroken k d i (down d i s) _ freed ne (down-IsBroken k d i s ne b))
      ]
  | inr more ↦
      subst (λ u. IsBroken k d u) (value _ (sym (keeps more) ∙ h)) (down-IsBroken k d i s ne b)
]
  where
    clash : none ≡ some t → ⊥
    clash q = cc

    value : (u : Shm) → some u ≡ some t → u ≡ t
    value u q = cc

    keeps : ((dropped d i s).refcount == 0) ≡ false → detach_key e d i s ≡ some (down d i s)
    keeps more = rw more refl

    goes_on :
        ((dropped d i s).refcount == 0) ≡ true
        → (addr : ℕ → ℕ) (freed : List ℕ)
        → free_pages ((down d i s).spages i).n 0 e ((down d i s).spages i).addr s.freed
          ≡ some (addr, freed)
        → detach_key e d i s
          ≡ some (record (down d i s) {
            spages =
                update
                  (down d i s).spages
                  i
                  (record ((down d i s).spages i) { addr = addr; n = 0 });
            freed = freed;
          })
    goes_on last addr freed runs = rw (last, free_key, runs) refl

    stops :
        ((dropped d i s).refcount == 0) ≡ true
        → free_pages ((down d i s).spages i).n 0 e ((down d i s).spages i).addr s.freed ≡ none
        → detach_key e d i s ≡ none
    stops last fails = rw (last, free_key, fails) refl

broken_fails :
    (n e : ℕ) (addr : ℕ → ℕ) (freed : List ℕ)
    → 0 < n
    → 0 < e
    → addr 0 ≡ 0
    → free_pages n 0 e addr freed ≡ none
unfolding free_pages
broken_fails zero e addr freed pos e_pos z = absurd (omega arith)
broken_fails (suc m) e addr freed pos e_pos z =
    let bad : is_page e (addr 0) ≡ false = rw z (null_page e e_pos) in rw bad refl
  where
    null_page : (e : ℕ) → 0 < e → is_page e 0 ≡ false
    null_page e h = ground arith

-- The round for the key itself panics.
detach_key-panics : (e k d : ℕ) (s : Shm) → 0 < e → IsBroken k d s → detach_key e d k s ≡ none
unfolding detach_key
detach_key-panics e k d s pos b =
    let stays : dropped d k s ≡ s.spages k = rw b.unused refl in
    let key : (down d k s).spages k ≡ s.spages k = update_self s.spages k (dropped d k s) ∙ stays in
    let last : ((dropped d k s).refcount == 0) ≡ true =
      ap (λ x. x.refcount == 0) stays ∙ rw b.refs refl in
    let fails =
      broken_fails ((down d k s).spages k).n e ((down d k s).spages k).addr s.freed (rw key b.n) pos
        (ap (λ x. x.addr 0) key ∙ b.addr) in
    rw (last, free_key, fails) refl

detach_keys-panics :
    (m i e k d : ℕ) (s : Shm)
    → 0 < e
    → i ≤ k
    → k < i + m
    → IsBroken k d s
    → detach_keys m i e d s ≡ none
unfolding detach_keys
detach_keys-panics zero i e k d s pos from below b = absurd (omega arith)
detach_keys-panics (suc m) i e k d s pos from below b = elim (ℕ_discrete k i) [
  | yes q ↦
      let stops : detach_key e d i s ≡ none =
        ap (λ x. detach_key e d x s) (sym q) ∙ detach_key-panics e k d s pos b in
      rw (detach_keys, stops) refl
  | no ne ↦ elim (Option-cases (detach_key e d i s)) [
    | inl stops ↦ rw (detach_keys, stops) refl
    | inr (t, runs) ↦
        rw (detach_keys, runs)
          (detach_keys-panics m (i + 1) e k d t pos (omega arith) (omega arith)
            (detach_key-IsBroken e k d i s t ne b runs))
  ]
]

-- A process that asks for a key which no one has, without room for its pages, gets -1. But the key keeps
-- the count of the pages that it does not have: the next `sys_shmdt` of any process that does not have
-- the key, as its `exit` or `exec` makes it, panics in `kfree`.
pub attach-panics :
    (e c d k npages : ℕ) (kalloc : ℕ → ℕ) (s : Shm)
    → 0 < e
    → k < max_shared_keys
    → 0 < npages
    → (s.spages k).refcount ≡ 0
    → (s.spages k).addr 0 ≡ 0
    → no_room (s.procs c) npages ≡ true
    → (s.procs d).key_addresses k ≡ 0
    → (t : Shm) × (attach_pages_to_process c k npages kalloc s ≡ some (none, t))
      × (sys_shmdt e d t ≡ none)
unfolding sys_shmdt
attach-panics e c d k npages kalloc s pos lt npages_pos refs addr full unused =
    let fresh : ((s.spages k).refcount == 0) ≡ true = rw refs refl in
    let t = set_key s k (numbered c k npages kalloc s) in
    let key = update_self s.spages k (numbered c k npages kalloc s) in
    let ptes = clear_pages (usertop / pgsize) (s.procs d).current_top (s.procs d).ptes in
    let me : Proc = record (s.procs d) { ptes = ptes } in
    (
      t,
      no_room-refused c k npages kalloc s fresh full,
      detach_keys-panics max_shared_keys 0 e k d (set_proc t d me) pos (omega arith) (omega arith)
          (record {
            refs = ap (λ x. x.refcount) key ∙ refs;
            n = rw key npages_pos;
            addr = ap (λ x. x.addr 0) key ∙ addr;
            unused = ap (λ p. p.key_addresses k) (update_self s.procs d me) ∙ unused;
          }),
    )
