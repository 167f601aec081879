-- ===== src/Shm/Free.antt =====
-- One round of the loop of `sys_shmdt` over the keys.
use cs537_intro_to_os.Prelude.{
  ℕ, zero, suc, ◌+◌, ◌≤◌, ◌<◌, ◌≡◌, ◌≢◌, refl, Bool, true, false, ◌==◌, if◌then◌else◌, arith,
  update, update_self, update_ne, some, List, ◌∷◌, ap, sym, ◌∙◌, Bool-cases, inl, inr,
}
use cs537_intro_to_os.Tally.{one_if}
use cs537_intro_to_os.Shm.{
  Key, Proc, Shm, max_shared_keys, minus, is_page, set_key, set_proc, free_pages, free_key, dropped,
  without_key, detach_key,
}
use cs537_intro_to_os.Shm.Users.{nproc, attached, IsValid, Change, users-bound, users-attached}

-- The log of `kfree` after the pages from the `k`-th on have been freed.
unfoldable pub released : (m k : ℕ) → (addr : ℕ → ℕ) → List ℕ → List ℕ
released zero k addr freed = freed
released (suc m) k addr freed = released m (k + 1) addr (addr k ∷ freed)

released-cong :
    (m k : ℕ) (a b : ℕ → ℕ) (l : List ℕ)
    → ((j : ℕ) → k ≤ j → a j ≡ b j)
    → released m k a l ≡ released m k b l
unfolding released
released-cong zero k a b l same = refl
released-cong (suc m) k a b l same =
    rw (same k (omega arith)) (released-cong m (k + 1) a b (b k ∷ l) (λ j le. same j (omega arith)))

free_pages-released :
    (m k e : ℕ) (addr : ℕ → ℕ) (l : List ℕ)
    → ((j : ℕ) → k ≤ j → j < k + m → is_page e (addr j) ≡ true)
    → (rest : ℕ → ℕ) × (free_pages m k e addr l ≡ some (rest, released m k addr l))
unfolding free_pages released
free_pages-released zero k e addr l good = (addr, refl)
free_pages-released (suc m) k e addr l good =
    let here = good k (omega arith) (omega arith) in
    let (rest, runs) =
      free_pages-released m (k + 1) e (update addr k 0) (addr k ∷ l) λ j from below.
        ap (λ v. is_page e v) (update_ne addr k 0 j (λ q. omega arith))
        ∙ good j (omega arith) (omega arith) in
    let same =
      released-cong m (k + 1) (update addr k 0) addr (addr k ∷ l)
        λ j from. update_ne addr k 0 j (λ q. omega arith) in
    (rest, rw here (runs ∙ ap (λ l'. some (rest, l')) same))

freed_by : (addr : ℕ → ℕ) → (i : ℕ) → Shm → Shm
freed_by addr i s =
    let key = s.spages i in
    record s {
      spages = update s.spages i (record key { addr = addr; n = 0 });
      freed = released key.n 0 key.addr s.freed;
    }

free_key-runs :
    (e i : ℕ) (s : Shm)
    → ((j : ℕ) → j < (s.spages i).n → is_page e ((s.spages i).addr j) ≡ true)
    → (rest : ℕ → ℕ) × (free_key e i s ≡ some (freed_by rest i s))
unfolding freed_by
free_key-runs e i s good =
    let key = s.spages i in
    let (rest, runs) =
      free_pages-released key.n 0 e key.addr s.freed (λ j from below. good j (omega arith)) in
    (rest, rw (free_key, runs) refl)

-- `c` alone uses key `i`, or no one does.
abbrev pub last_user : (c i : ℕ) → Shm → Bool
last_user c i s = (s.spages i).refcount == one_if (attached i (s.procs c))

-- The log of `kfree` after `c` has let go of key `i`.
abbrev pub released_key : (c i : ℕ) → Shm → List ℕ → List ℕ
released_key c i s freed =
    if last_user c i s then released (s.spages i).n 0 (s.spages i).addr freed else freed

pub minus-one : (r : ℕ) → 1 ≤ r → r ≤ 64 → minus r 1 + 1 ≡ r
minus-one r lo hi = omega arith

record Dropped (c i : ℕ) (s : Shm) : Type 0 where
  refs : (dropped c i s).refcount + one_if (attached i (s.procs c)) ≡ (s.spages i).refcount
  n : (dropped c i s).n ≡ (s.spages i).n
  addr : (dropped c i s).addr ≡ (s.spages i).addr

dropped_lem :
    (c i : ℕ) (s : Shm)
    → one_if (attached i (s.procs c)) ≤ (s.spages i).refcount
    → (s.spages i).refcount ≤ 64
    → Dropped c i s
dropped_lem c i s lo hi = elim (Bool-cases ((s.procs c).key_addresses i == 0)) [
  | inl gone ↦ record { refs = rw gone (omega arith); n = rw gone refl; addr = rw gone refl }
  | inr has ↦ record {
    refs = rw has (minus-one (s.spages i).refcount (from_lo has lo) hi);
    n = rw has refl;
    addr = rw has refl;
  }
]
  where
    from_lo :
        ((s.procs c).key_addresses i == 0) ≡ false
        → one_if (attached i (s.procs c)) ≤ (s.spages i).refcount
        → 1 ≤ (s.spages i).refcount
    from_lo e h = ground arith

-- What a round leaves for the key `i` of the process `c`.
pub record LetGo (e c i : ℕ) (s t : Shm) : Type 0 where
  pub change : Change e c i (without_key i (s.procs c)) s t
  pub freed : t.freed ≡ released_key c i s s.freed
  pub still :
      (t.spages i).refcount ≢ 0
      → ((t.spages i).n ≡ (s.spages i).n) × ((t.spages i).addr ≡ (s.spages i).addr)

set_down : (c i : ℕ) → Shm → Shm
set_down c i s = set_key (set_proc s c (without_key i (s.procs c))) i (dropped c i s)

at_key : (c i : ℕ) (s : Shm) → (set_down c i s).spages i ≡ dropped c i s
unfolding set_down
at_key c i s = update_self s.spages i (dropped c i s)

good_dropped :
    (e c i : ℕ) (s : Shm)
    → IsValid e s
    → i < max_shared_keys
    → Dropped c i s
    → (key : Key) → key ≡ dropped c i s
    → (j : ℕ) → j < key.n
    → is_page e (key.addr j) ≡ true
good_dropped e c i s v lt d key same j inside =
    let n : key.n ≡ (s.spages i).n = ap (λ k. k.n) same ∙ d.n in
    let addr : key.addr ≡ (s.spages i).addr = ap (λ k. k.addr) same ∙ d.addr in
    rw addr (v.good i lt j (omega (arith, inside, n)))

off_key : (i j : ℕ) (p : Proc) → j ≢ i → attached j (without_key i p) ≡ attached j p
off_key i j p ne = rw (update_ne p.key_addresses i 0 j ne) refl

pub gone_key : (i : ℕ) (p : Proc) → one_if (attached i (without_key i p)) ≡ 0
gone_key i p = rw (update_self p.key_addresses i 0) refl

same_test : (dropped count one : ℕ) → dropped + one ≡ count → (count == one) ≡ (dropped == 0)
same_test dropped count one h = ground arith

-- What the two branches of the round have in common.
LetGo-build :
    (e c i : ℕ) (s t : Shm)
    → Dropped c i s
    → t.procs ≡ update s.procs c (without_key i (s.procs c))
    → ((j : ℕ) → j ≢ i → t.spages j ≡ s.spages j)
    → (t.spages i).refcount ≡ (dropped c i s).refcount
    → ((t.spages i).refcount ≡ 0 → (t.spages i).n ≡ 0)
    → ((j : ℕ) → j < (t.spages i).n → is_page e ((t.spages i).addr j) ≡ true)
    → t.freed ≡ released_key c i s s.freed
    → ((t.spages i).refcount ≢ 0
        → ((t.spages i).n ≡ (s.spages i).n) × ((t.spages i).addr ≡ (s.spages i).addr))
    → LetGo e c i s t
LetGo-build e c i s t d procs keys refs idle good freed still = record {
  change = record {
    procs = procs;
    keys = keys;
    others = λ j lt ne. off_key i j (s.procs c) ne;
    refs = let r = d.refs in let g = gone_key i (s.procs c) in omega (arith, r, g, refs);
    idle = idle;
    good = good;
  };
  freed = freed;
  still = still;
}

kept_log : (c i : ℕ) (s : Shm) → last_user c i s ≡ false → released_key c i s s.freed ≡ s.freed
kept_log c i s e = rw e refl

longer_log :
    (c i : ℕ) (s : Shm)
    → Dropped c i s
    → (key : Key) → key ≡ dropped c i s
    → last_user c i s ≡ true
    → released key.n 0 key.addr s.freed ≡ released_key c i s s.freed
longer_log c i s d key same e =
    let n : key.n ≡ (s.spages i).n = ap (λ k. k.n) same ∙ d.n in
    let addr : key.addr ≡ (s.spages i).addr = ap (λ k. k.addr) same ∙ d.addr in rw (e, n, addr) refl

pub detach_key-LetGo :
    (e c i : ℕ) (s : Shm)
    → c < nproc
    → i < max_shared_keys
    → IsValid e s
    → (t : Shm) × (detach_key e c i s ≡ some t) × LetGo e c i s t
unfolding set_down detach_key freed_by
detach_key-LetGo e c i s below lt v =
    let d = dropped_lem c i s (users-attached e s i c v lt below) (users-bound e s i v lt) in
    let at = at_key c i s in
    let pages = good_dropped e c i s v lt d in
    let test = same_test (dropped c i s).refcount (s.spages i).refcount _ d.refs in
    let keys = λ (j : ℕ) (ne : j ≢ i). update_ne s.spages i (dropped c i s) j ne in
    elim (Bool-cases ((dropped c i s).refcount == 0)) [
      | inl last ↦
          let u = set_down c i s in
          let (rest, runs) = free_key-runs e i u (pages _ at) in
          let at' = update_self u.spages i (record (u.spages i) { addr = rest; n = 0 }) in
          (
            freed_by rest i u,
            rw last runs,
            LetGo-build e c i s (freed_by rest i u) d refl
                (λ j ne. update_ne u.spages i _ j ne ∙ keys j ne)
                (ap (λ key. key.refcount) at' ∙ ap (λ key. key.refcount) at)
                (λ z. ap (λ key. key.n) at')
                (λ j inside. absurd (not_below j (ap (λ key. key.n) at') inside))
                (longer_log c i s d _ at (test ∙ last))
                (λ nz. absurd (
                  nz
                    (ap (λ key. key.refcount) at' ∙ ap (λ key. key.refcount) at ∙ zero_of _ last))),
          )
      | inr more ↦ (
        set_down c i s,
        rw more refl,
        LetGo-build e c i s (set_down c i s) d refl keys (ap (λ key. key.refcount) at)
            (λ z. absurd (not_zero _ more (ap (λ key. key.refcount) (sym at) ∙ z))) (pages _ at)
            (sym (kept_log c i s (test ∙ more)))
            (λ nz. (ap (λ key. key.n) at ∙ d.n, ap (λ key. key.addr) at ∙ d.addr)),
      )
    ]
  where
    not_below : (j : ℕ) {n : ℕ} → n ≡ 0 → j < n → ⊥
    not_below j e h = omega (arith, e, h)

    zero_of : (r : ℕ) → (r == 0) ≡ true → r ≡ 0
    zero_of r e = ground arith

    not_zero : (r : ℕ) → (r == 0) ≡ false → r ≡ 0 → ⊥
    not_zero r e z = ground arith
