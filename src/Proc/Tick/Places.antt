-- ===== src/Proc/Tick/Places.antt =====
-- How many entries of a level point to a process, through `enqueue`, `dequeue` and the boost.
use cs537_intro_to_os.Prelude.{
  ℕ, zero, suc, ◌+◌, ◌-◌, ◌<◌, ◌≤◌, ◌≡◌, ◌≢◌, ◌&&◌, ltb, ◌==◌, if◌then◌else◌, for_each, arith,
  Bool-cases, Option, Option-cases, none, some, inl, inr, ap, ◌∙◌, refl, find_from, find_from-some,
  find_from-none, true, false, update, update_self, update_ne, ◌⊎◌, ℕ_discrete,
}
use cs537_intro_to_os.Tally.{one_if, tally, tally-update, tally-none}
use cs537_intro_to_os.Proc.Table.{Ptable, nproc, points_to, set_queue}
use cs537_intro_to_os.Proc.Queue.{is_null, enqueue, dequeue}
use cs537_intro_to_os.Proc.Tick.{starves, boost_one}

-- how many entries of the level point to the process
abbrev pub places : (level p : ℕ) → Ptable → ℕ
places level p t = tally (λ q. points_to q p) 0 nproc (t.queues level)

-- how many places of the level are free
abbrev pub free_places : (level : ℕ) → Ptable → ℕ
free_places level t = tally is_null 0 nproc (t.queues level)

set_queue-places :
    (level i : ℕ) (q : Option ℕ) (t : Ptable) (x : ℕ)
    → i < nproc
    → places level x (set_queue t level i q) + one_if (points_to (t.queues level i) x)
      ≡ places level x t + one_if (points_to q x)
set_queue-places level i q t x lt =
    let level' = update (t.queues level) i q in
    rw (update_self t.queues level level')
      (tally-update (λ r. points_to r x) 0 nproc (t.queues level) i q (omega arith) (omega arith))

set_queue-other :
    (level i : ℕ) (q : Option ℕ) (t : Ptable) (l x : ℕ)
    → l ≢ level
    → places l x (set_queue t level i q) ≡ places l x t
set_queue-other level i q t l x ne =
    let level' = update (t.queues level) i q in rw (update_ne t.queues level level' l ne) refl

dequeue-places :
    (level p : ℕ) (t : Ptable)
    → (places level p (dequeue level p t) ≡ places level p t - 1)
      × ((l x : ℕ) → (l ≢ level) ⊎ (x ≢ p) → places l x (dequeue level p t) ≡ places l x t)
unfolding dequeue
dequeue-places level p t =
    elim (Option-cases (find_from nproc 0 (λ i. points_to (t.queues level i) p))) [
      | inl miss ↦
          let zero : places level p t ≡ 0 =
            tally-none (λ q. points_to q p) 0 nproc (t.queues level)
              (find_from-none nproc 0 (λ i. points_to (t.queues level i) p) miss) in
          rw (miss, dequeue) (omega (arith, zero), λ l x d. refl)
      | inr (i, found) ↦
          let hit = find_from-some nproc 0 (λ i. points_to (t.queues level i) p) found in
          rw (found, dequeue)
            (own i hit.below hit.passes, λ l x d. apart i hit.below hit.passes l x d)
    ]
  where
    own :
        (i : ℕ)
        → i < 0 + nproc
        → points_to (t.queues level i) p ≡ true
        → places level p (set_queue t level i none) ≡ places level p t - 1
    own i lt e =
        let count = set_queue-places level i none t p (omega arith) in
        let one = ap one_if e in omega (arith, count, one)

    not_other : (q : Option ℕ) (x : ℕ) → points_to q p ≡ true → x ≢ p → one_if (points_to q x) ≡ 0
    not_other none x e ne = refl
    not_other (some q) x e ne = ground arith

    apart :
        (i : ℕ)
        → i < 0 + nproc
        → points_to (t.queues level i) p ≡ true
        → (l x : ℕ) → (l ≢ level) ⊎ (x ≢ p)
        → places l x (set_queue t level i none) ≡ places l x t
    apart i lt e l x (inl ne) = set_queue-other level i none t l x ne
    apart i lt e l x (inr ne) = elim (ℕ_discrete l level) [
      | no far ↦ set_queue-other level i none t l x far
      | yes at ↦
          let count = set_queue-places level i none t x (omega arith) in
          let zero = not_other (t.queues level i) x e ne in rw at (omega (arith, count, zero))
    ]

enqueue-places :
    (level p : ℕ) (t : Ptable)
    → (places level p (enqueue level p t)
        ≡ places level p t + (if ltb 0 (free_places level t) then 1 else 0))
      × ((l x : ℕ) → (l ≢ level) ⊎ (x ≢ p) → places l x (enqueue level p t) ≡ places l x t)
unfolding enqueue
enqueue-places level p t =
    elim (Option-cases (find_from nproc 0 (λ i. is_null (t.queues level i)))) [
      | inl miss ↦
          let zero : free_places level t ≡ 0 =
            tally-none is_null 0 nproc (t.queues level)
              (find_from-none nproc 0 (λ i. is_null (t.queues level i)) miss) in
          rw (miss, enqueue) (ground (arith, zero), λ l x d. refl)
      | inr (i, found) ↦
          let hit = find_from-some nproc 0 (λ i. is_null (t.queues level i)) found in
          rw (found, enqueue)
            (own i hit.below hit.passes, λ l x d. apart i hit.below hit.passes l x d)
    ]
  where
    free_not : (q : Option ℕ) (x : ℕ) → is_null q ≡ true → one_if (points_to q x) ≡ 0
    free_not none x e = refl
    free_not (some q) x e = cc

    own :
        (i : ℕ)
        → i < 0 + nproc
        → is_null (t.queues level i) ≡ true
        → places level p (set_queue t level i (some p))
          ≡ places level p t + (if ltb 0 (free_places level t) then 1 else 0)
    own i lt e =
        let count = set_queue-places level i (some p) t p (omega arith) in
        let room =
          tally-update is_null 0 nproc (t.queues level) i (some p) (omega arith) (omega arith) in
        let zero = free_not (t.queues level i) p e in
        let one = ap one_if e in
        let me : one_if (p == p) ≡ 1 = ground arith in
        let test : ltb 0 (free_places level t) ≡ true = ground (arith, room, one) in
        rw test (omega (arith, count, zero, me))

    apart :
        (i : ℕ)
        → i < 0 + nproc
        → is_null (t.queues level i) ≡ true
        → (l x : ℕ) → (l ≢ level) ⊎ (x ≢ p)
        → places l x (set_queue t level i (some p)) ≡ places l x t
    apart i lt e l x (inl ne) = set_queue-other level i (some p) t l x ne
    apart i lt e l x (inr ne) = elim (ℕ_discrete l level) [
      | no far ↦ set_queue-other level i (some p) t l x far
      | yes at ↦
          let count = set_queue-places level i (some p) t x (omega arith) in
          let zero = free_not (t.queues level i) x e in
          let other : one_if (p == x) ≡ 0 = ground arith in
          rw at (omega (arith, count, zero, other))
    ]

dequeue-free_places :
    (level p : ℕ) (t : Ptable) (l : ℕ)
    → l ≢ level
    → free_places l (dequeue level p t) ≡ free_places l t
unfolding dequeue
dequeue-free_places level p t l ne =
    elim (Option-cases (find_from nproc 0 (λ i. points_to (t.queues level i) p))) [
      | inl miss ↦ rw (miss, dequeue) refl
      | inr (i, found) ↦
          let level' = update (t.queues level) i none in
          rw (found, dequeue, update_ne t.queues level level' l ne) refl
    ]

-- The entries of a process that a round of the boost has raised from the level.
pub record Moved (level i : ℕ) (t u : Ptable) : Type 0 where
  pub left : places level i u ≡ places level i t - 1
  pub entered :
      places (level - 1) i u
      ≡ places (level - 1) i t + (if ltb 0 (free_places (level - 1) t) then 1 else 0)
  pub elsewhere : (l : ℕ) → l ≢ level → l ≢ level - 1 → places l i u ≡ places l i t

pub boost_one-raises :
    (now i : ℕ) (t : Ptable)
    → (starves now (t.procs i) && ltb 0 (t.procs i).priority) ≡ true
    → 0 < (t.procs i).priority
    → Moved (t.procs i).priority i t (boost_one now i t)
unfolding boost_one
boost_one-raises now i t up below =
    let level = (t.procs i).priority in
    let lower = dequeue level i t in
    let (out, kept) = dequeue-places level i t in
    let (into, still) = enqueue-places (level - 1) i lower in
    let room = dequeue-free_places level i t (level - 1) (λ e. omega (arith, e, below)) in
    let at = kept (level - 1) i (inl (λ e. omega (arith, e, below))) in
    rw (up, boost_one)
      (record {
        left = still level i (inl (λ e. omega (arith, e, below))) ∙ out;
        entered = into ∙ rw (room, at) refl;
        elsewhere = λ l a b. still l i (inl b) ∙ kept l i (inl a);
      })

-- A round of the boost leaves the entries of other processes where they are, and all entries if it
-- raises none.
boost_one-others :
    (now i : ℕ) (t : Ptable) (l x : ℕ) → x ≢ i → places l x (boost_one now i t) ≡ places l x t
unfolding boost_one
boost_one-others now i t l x ne =
    elim (Bool-cases (starves now (t.procs i) && ltb 0 (t.procs i).priority)) [
      | inl up ↦
          let level = (t.procs i).priority in
          let lower = dequeue level i t in
          rw (up, boost_one)
            ((enqueue-places (level - 1) i lower).1 l x (inr ne)
              ∙ (dequeue-places level i t).1 l x (inr ne))
      | inr stay ↦ rw (stay, boost_one) refl
    ]

pub boost_one-stays :
    (now i : ℕ) (t : Ptable)
    → (starves now (t.procs i) && ltb 0 (t.procs i).priority) ≡ false
    → boost_one now i t ≡ t
unfolding boost_one
boost_one-stays now i t stay = rw (stay, boost_one) refl

pub boost_loop-others :
    (now k i : ℕ) (t : Ptable) (l x : ℕ)
    → (x < i) ⊎ (i + k ≤ x)
    → places l x (for_each k i (boost_one now) t) ≡ places l x t
unfolding for_each
boost_loop-others now zero i t l x away = refl
boost_loop-others now (suc k) i t l x away =
    boost_loop-others now k (i + 1) (boost_one now i t) l x (ground arith)
    ∙ boost_one-others now i t l x (ground arith)
