-- ===== src/Shm/Detach.antt =====
-- What `sys_shmdt` does, which `exit` and `exec` call.
use cs537_intro_to_os.Prelude.{
  ℕ, zero, suc, ◌+◌, ◌*◌, ◌/◌, ◌≤◌, ◌<◌, ◌≡◌, ◌≢◌, refl, true, not, ◌==◌, arith, update,
  update_self, update_ne, ℕ_discrete, some, List, ap, ◌∙◌, Bool-cases, inl, inr, ltb,
}
use cs537_intro_to_os.Tally.{one_if}
use cs537_intro_to_os.Shm.{
  Proc, Shm, max_shared_keys, pgsize, usertop, set_proc, without_key, detach_keys, clear_pages,
  sys_shmdt,
}
use cs537_intro_to_os.Shm.Users.{nproc, attached, IsValid, Change-IsValid}
use cs537_intro_to_os.Shm.Free.{released_key, LetGo, gone_key, detach_key-LetGo}

-- The log of `kfree` after `c` has let go of the `m` keys from `i` on.
unfoldable pub released_keys : (m i c : ℕ) → Shm → List ℕ → List ℕ
released_keys zero i c s freed = freed
released_keys (suc m) i c s freed = released_keys m (i + 1) c s (released_key c i s freed)

-- The log depends on the keys, and on what `c` has of them.
released_keys-cong :
    (m i c : ℕ) (s t : Shm) (l : List ℕ)
    → ((k : ℕ) → i ≤ k → t.spages k ≡ s.spages k)
    → ((k : ℕ) → i ≤ k → attached k (t.procs c) ≡ attached k (s.procs c))
    → released_keys m i c t l ≡ released_keys m i c s l
unfolding released_keys
released_keys-cong zero i c s t l keys has = refl
released_keys-cong (suc m) i c s t l keys has =
    rw (keys i (omega arith), has i (omega arith))
      (released_keys-cong m (i + 1) c s t _ (λ k le. keys k (omega arith))
        (λ k le. has k (omega arith)))

-- The state after the rounds for the `m` keys from `i` on.
record LetGoAll (e c m i : ℕ) (s t : Shm) : Type 0 where
  valid : IsValid e t
  others : (x : ℕ) → x ≢ c → t.procs x ≡ s.procs x
  ptes : (t.procs c).ptes ≡ (s.procs c).ptes
  size : (t.procs c).sz ≡ (s.procs c).sz
  untouched : m ≡ 0 → (t.procs c).current_top ≡ (s.procs c).current_top
  top : 0 < m → (t.procs c).current_top ≡ usertop
  before : (k : ℕ) → k < i → (t.procs c).key_addresses k ≡ (s.procs c).key_addresses k
  gone : (k : ℕ) → i ≤ k → k < i + m → (t.procs c).key_addresses k ≡ 0
  keys : (k : ℕ) → k < i → t.spages k ≡ s.spages k
  refs :
      (k : ℕ)
      → i ≤ k
      → k < i + m
      → (t.spages k).refcount + one_if (attached k (s.procs c)) ≡ (s.spages k).refcount
  freed : t.freed ≡ released_keys m i c s s.freed
  still :
      (k : ℕ)
      → i ≤ k
      → k < i + m
      → (t.spages k).refcount ≢ 0
      → ((t.spages k).n ≡ (s.spages k).n) × ((t.spages k).addr ≡ (s.spages k).addr)

module _ (e c i : ℕ) (s u : Shm) (h : LetGo e c i s u) where
  me_after : u.procs c ≡ without_key i (s.procs c)
  me_after = rw h.change.procs (update_self s.procs c (without_key i (s.procs c)))

  refs_after : (u.spages i).refcount + one_if (attached i (s.procs c)) ≡ (s.spages i).refcount
  refs_after = let r = h.change.refs in let g = gone_key i (s.procs c) in omega (arith, r, g)

  addresses_after : (k : ℕ) → k ≢ i → (u.procs c).key_addresses k ≡ (s.procs c).key_addresses k
  addresses_after k ne = rw me_after (update_ne (s.procs c).key_addresses i 0 k ne)

  -- The first round, then the others.
  LetGo-then : (m : ℕ) (t : Shm) → LetGoAll e c m (i + 1) u t → LetGoAll e c (suc m) i s t
  unfolding released_keys
  LetGo-then m t r = record {
    valid = r.valid;
    others = λ x ne. r.others x ne ∙ rw h.change.procs (update_ne s.procs c _ x ne);
    ptes = r.ptes ∙ ap (λ p. p.ptes) me_after;
    size = r.size ∙ ap (λ p. p.sz) me_after;
    untouched = λ z. absurd (omega arith);
    top = λ pos. elim (ℕ_discrete m 0) [
      | yes z ↦ r.untouched z ∙ ap (λ p. p.current_top) me_after
      | no ne ↦ r.top (omega arith)
    ];
    before = λ k lt. r.before k (omega arith) ∙ addresses_after k (λ q. omega arith);
    gone = λ k from below. elim (ℕ_discrete k i) [
      | yes q ↦
          r.before k (omega arith) ∙ rw (me_after, q) (update_self (s.procs c).key_addresses i 0)
      | no ne ↦ r.gone k (omega arith) (omega arith)
    ];
    keys = λ k lt. r.keys k (omega arith) ∙ h.change.keys k (λ q. omega arith);
    refs = λ k from below. elim (ℕ_discrete k i) [
      | yes q ↦ rw (r.keys k (omega arith), q) refs_after
      | no ne ↦
          let later = r.refs k (omega arith) (omega arith) in
          let same : attached k (u.procs c) ≡ attached k (s.procs c) =
            ap (λ a. not (a == 0)) (addresses_after k ne) in
          let key = ap (λ x. x.refcount) (h.change.keys k ne) in
          let one = ap (λ b. one_if b) same in omega (arith, later, key, one)
    ];
    freed =
        r.freed
        ∙ ap (λ l. released_keys m (i + 1) c u l) h.freed
        ∙ released_keys-cong m (i + 1) c s u _ (λ k le. h.change.keys k (λ q. omega arith))
            (λ k le. ap (λ a. not (a == 0)) (addresses_after k (λ q. omega arith)));
    still = λ k from below nz. elim (ℕ_discrete k i) [
      | yes q ↦
          let same = r.keys k (omega arith) in
          let (n, addr) = h.still (λ z. nz (ap (λ key. key.refcount) same ∙ rw q z)) in
          (ap (λ key. key.n) same ∙ rw q n, ap (λ key. key.addr) same ∙ rw q addr)
      | no ne ↦
          let (n, addr) = r.still k (omega arith) (omega arith) nz in
          (
            n ∙ ap (λ key. key.n) (h.change.keys k ne),
            addr ∙ ap (λ key. key.addr) (h.change.keys k ne),
          )
    ];
  }

detach_keys-LetGoAll :
    (m i e c : ℕ) (s : Shm)
    → c < nproc
    → i + m ≤ max_shared_keys
    → IsValid e s
    → (t : Shm) × (detach_keys m i e c s ≡ some t) × LetGoAll e c m i s t
unfolding detach_keys released_keys
detach_keys-LetGoAll zero i e c s below fits v = (
  s,
  refl,
  record {
    valid = v;
    others = λ x ne. refl;
    ptes = refl;
    size = refl;
    untouched = λ z. refl;
    top = λ pos. absurd (omega arith);
    before = λ k lt. refl;
    gone = λ k from lt. absurd (omega arith);
    keys = λ k lt. refl;
    refs = λ k from lt. absurd (omega arith);
    freed = refl;
    still = λ k from lt. absurd (omega arith);
  },
)
detach_keys-LetGoAll (suc m) i e c s below fits v =
    let (u, first, h) = detach_key-LetGo e c i s below (omega arith) v in
    let (t, runs, r) =
      detach_keys-LetGoAll m (i + 1) e c u below (omega arith)
        (Change-IsValid e c i _ s u below v h.change) in
    (t, rw (detach_keys, first) runs, LetGo-then e c i s u h m t r)

clear_pages-below : (m i : ℕ) (ptes : ℕ → ℕ) (a : ℕ) → a < i → clear_pages m i ptes a ≡ ptes a
unfolding clear_pages
clear_pages-below zero i ptes a lt = refl
clear_pages-below (suc m) i ptes a lt = elim (Bool-cases (ltb i usertop)) [
  | inl more ↦ rw more (
      clear_pages-below m (i + pgsize) (update ptes i 0) a (omega arith)
      ∙ update_ne ptes i 0 a (λ q. omega arith))
  | inr done ↦ rw done refl
]

clear_pages-clears :
    (m i : ℕ) (ptes : ℕ → ℕ) (j : ℕ)
    → j < m
    → i + j * pgsize < usertop
    → clear_pages m i ptes (i + j * pgsize) ≡ 0
unfolding clear_pages
clear_pages-clears zero i ptes j lt inside = absurd (omega arith)
clear_pages-clears (suc m) i ptes zero lt inside =
    let more : ltb i usertop ≡ true = ground arith in
    let at : i + 0 * pgsize ≡ i = omega arith in
    rw (at, more)
      (clear_pages-below m (i + pgsize) (update ptes i 0) i (omega arith) ∙ update_self ptes i 0)
clear_pages-clears (suc m) i ptes (suc j) lt inside =
    let more : ltb i usertop ≡ true = ground arith in
    let at : i + suc j * pgsize ≡ i + pgsize + j * pgsize = omega arith in
    rw (at, more)
      (clear_pages-clears m (i + pgsize) (update ptes i 0) j (omega arith) (omega arith))

-- The state `t` after `sys_shmdt` for process `c` in `s`.
pub record Detached (e c : ℕ) (s t : Shm) : Type 0 where
  pub valid : IsValid e t
  pub others : (x : ℕ) → x ≢ c → t.procs x ≡ s.procs x
  pub gone : (k : ℕ) → k < max_shared_keys → (t.procs c).key_addresses k ≡ 0
  pub top : (t.procs c).current_top ≡ usertop
  pub cleared :
      (j : ℕ)
      → (s.procs c).current_top + j * pgsize < usertop
      → (t.procs c).ptes ((s.procs c).current_top + j * pgsize) ≡ 0
  pub below : (a : ℕ) → a < (s.procs c).current_top → (t.procs c).ptes a ≡ (s.procs c).ptes a
  pub refs :
      (k : ℕ)
      → k < max_shared_keys
      → (t.spages k).refcount + one_if (attached k (s.procs c)) ≡ (s.spages k).refcount
  pub freed : t.freed ≡ released_keys max_shared_keys 0 c s s.freed
  -- the keys that other processes use keep their pages
  pub still :
      (k : ℕ)
      → k < max_shared_keys
      → (t.spages k).refcount ≢ 0
      → ((t.spages k).n ≡ (s.spages k).n) × ((t.spages k).addr ≡ (s.spages k).addr)
  pub size : (t.procs c).sz ≡ (s.procs c).sz

-- The reset of page table entries keeps what `IsValid` is about.
set-IsValid :
    (e c : ℕ) (s : Shm) (ptes : ℕ → ℕ)
    → c < nproc
    → IsValid e s
    → IsValid e (set_proc s c (record (s.procs c) { ptes = ptes }))
set-IsValid e c s ptes below v =
    Change-IsValid e c 0 (record (s.procs c) { ptes = ptes }) s _ below v
      (record {
        procs = refl;
        keys = λ j ne. refl;
        others = λ j lt ne. refl;
        refs = refl;
        idle = v.idle 0 (omega arith);
        good = v.good 0 (omega arith);
      })

-- In a valid state `sys_shmdt` does not panic: it clears the page table of the process from
-- `current_top` to the end, takes it from the users of all keys, and gives to `kfree` exactly the pages
-- of those keys that no other process uses, which then have none. A key that others use keeps its pages.
-- Other processes keep what they have, and the state stays valid.
pub sys_shmdt-Detached :
    (e c : ℕ) (s : Shm)
    → c < nproc
    → IsValid e s
    → (t : Shm) × (sys_shmdt e c s ≡ some t) × Detached e c s t
unfolding sys_shmdt
sys_shmdt-Detached e c s below v =
    let p = s.procs c in
    let ptes = clear_pages (usertop / pgsize) p.current_top p.ptes in
    let me : Proc = record p { ptes = ptes } in
    let u = set_proc s c me in
    let here : u.procs c ≡ me = update_self s.procs c me in
    let has = λ (k : ℕ). ap (λ q. attached k q) here in
    let (t, runs, r) =
      detach_keys-LetGoAll max_shared_keys 0 e c u below (omega arith)
        (set-IsValid e c s ptes below v) in
    (
      t,
      runs,
      record {
        valid = r.valid;
        others = λ x ne. r.others x ne ∙ update_ne s.procs c me x ne;
        gone = λ k lt. r.gone k (omega arith) (omega arith);
        top = r.top (omega arith);
        size = r.size ∙ ap (λ q. q.sz) here;
        still = λ k lt nz. r.still k (omega arith) (omega arith) nz;
        cleared = λ j lt.
            ap (λ f. f (p.current_top + j * pgsize)) (r.ptes ∙ ap (λ q. q.ptes) here)
            ∙ clear_pages-clears (usertop / pgsize) p.current_top p.ptes j (omega arith) lt;
        below = λ a lt.
            ap (λ f. f a) (r.ptes ∙ ap (λ q. q.ptes) here)
            ∙ clear_pages-below (usertop / pgsize) p.current_top p.ptes a lt;
        refs = λ k lt.
            let refs = r.refs k (omega arith) (omega arith) in
            let one = ap (λ b. one_if b) (has k) in omega (arith, refs, one);
        freed =
            r.freed
            ∙ released_keys-cong max_shared_keys 0 c s u s.freed (λ k le. refl) (λ k le. has k);
      },
    )
