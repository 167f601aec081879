-- ===== src/Proc/Life/Wait.antt =====
-- What one round of `wait` finds and does.
use cs537_intro_to_os.Prelude.{
  ℕ, zero, suc, ◌+◌, ◌<◌, ◌≡◌, ◌≢◌, refl, Bool, false, true, Option, none, some, arith,
  if◌then◌else◌, ◌&&◌, ◌||◌, not, inl, inr, Bool-cases, ap, ◌∙◌, find_from, find_from-some,
  find_from-none, find_from-hit, find_from-miss, IsFirst, Option-cases, ◌∷◌,
}
use cs537_intro_to_os.Proc.Table.{unused, freevm, kfree, Ptable, nproc, points_to, is_zombie}
use cs537_intro_to_os.Proc.Life.{
  scan_children, WaitEnd, reaped, no_child, blocked, reap, wait_round, wait_result,
}
use cs537_intro_to_os.Proc.Life.Alloc.{IsNumbered}

-- Slot `i` holds a child of `cur`; it is a zombie.
abbrev pub is_child : (cur : ℕ) → Ptable → ℕ → Bool
is_child cur t i = points_to (t.procs i).parent cur

abbrev pub is_zombie_child : (cur : ℕ) → Ptable → ℕ → Bool
is_zombie_child cur t i = is_child cur t i && is_zombie (t.procs i).state

abbrev is_some : Option ℕ → Bool
is_some none = false
is_some (some i) = true

-- The scan is two searches in one: the first zombie child, and whether there is a child at all.
scan-find :
    (k i cur : ℕ) (kids : Bool) (t : Ptable)
    → (scan_children k i cur kids t).1 ≡ find_from k i (is_zombie_child cur t)
unfolding scan_children find_from
scan-find zero i cur kids t = refl
scan-find (suc k) i cur kids t =
    ground (arith, scan-find k (i + 1) cur (is_child cur t i || kids) t)

scan-kids :
    (k i cur : ℕ) (kids : Bool) (t : Ptable)
    → find_from k i (is_zombie_child cur t) ≡ none
    → (scan_children k i cur kids t).0 ≡ (kids || is_some (find_from k i (is_child cur t)))
unfolding scan_children find_from
scan-kids zero i cur kids t e = ground arith
scan-kids (suc k) i cur kids t e =
    ground (arith, scan-kids k (i + 1) cur (is_child cur t i || kids) t)

-- What a round of `wait` does with a zombie child.
pub record Reaped (cur : ℕ) (t : Ptable) (r : WaitEnd × Ptable) : Type 0 where
  pub slot : ℕ
  pub in_range : slot < nproc
  pub child : is_zombie_child cur t slot ≡ true
  pub first : (x : ℕ) → x < slot → is_zombie_child cur t x ≡ false
  pub returns : r.0 ≡ reaped (t.procs slot).pid
  pub freed : (r.1.procs slot).state ≡ unused
  pub orphan : (r.1.procs slot).parent ≡ none
  pub calls : r.1.calls ≡ freevm (t.procs slot).pgdir ∷ kfree (t.procs slot).kstack ∷ t.calls
  pub others : (x : ℕ) → x ≢ slot → r.1.procs x ≡ t.procs x
  -- a pointer to the slot stays in its queue
  pub same_queues : r.1.queues ≡ t.queues

Reaped-at :
    (cur : ℕ) (t : Ptable) (j : ℕ)
    → IsFirst (is_zombie_child cur t) 0 nproc j
    → (r : Bool × Option ℕ) → r.1 ≡ some j
    → Reaped cur t (wait_result cur t r)
unfolding reap
Reaped-at cur t j first (kids, none) e = absurd (cc)
Reaped-at cur t j first (kids, some k) e =
    let here : k ≡ j = ground arith in
    record {
      slot = k;
      in_range = rw here first.below;
      child = rw here first.passes;
      first = λ x lt. first.first x (omega arith) (omega arith);
      returns = refl;
      freed = ground arith;
      orphan = ground arith;
      calls = refl;
      others = λ x o. ground arith;
      same_queues = refl;
    }

-- With a zombie child, a round of `wait` returns the id of the first one, frees its stack and its
-- memory and gives back its slot, and touches no other process and no queue.
pub wait_round-Reaped :
    (cur : ℕ) (t : Ptable) (i : ℕ)
    → i < nproc
    → is_zombie_child cur t i ≡ true
    → Reaped cur t (wait_round cur t)
unfolding wait_round
wait_round-Reaped cur t i lt zombie_child =
    elim (Option-cases (find_from nproc 0 (is_zombie_child cur t))) [
      | inl e ↦
          let nobody = find_from-none nproc 0 (is_zombie_child cur t) e i (omega arith) lt in
          absurd (clash _ zombie_child nobody)
      | inr (j, e) ↦
          let first : IsFirst (is_zombie_child cur t) 0 nproc j =
            find_from-some nproc 0 (is_zombie_child cur t) e in
          Reaped-at cur t j first (scan_children nproc 0 cur false t)
            (scan-find nproc 0 cur false t ∙ e)
    ]
  where
    clash : (b : Bool) → b ≡ true → b ≡ false → ⊥
    clash b f g = cc

reap-IsNumbered : (i : ℕ) (t : Ptable) → IsNumbered t → IsNumbered (reap i t)
unfolding reap
reap-IsNumbered i t v = record {
  old = λ x lt u. ground (arith, v.old x lt);
  apart = λ x y lt lt' u u' same. ground (arith, v.apart x y lt lt');
}

wait_result-waits :
    (cur : ℕ) (t : Ptable) (r : Bool × Option ℕ) (kids : Bool)
    → r.1 ≡ none
    → r.0 ≡ kids
    → wait_result cur t r
      ≡ (if not kids || (t.procs cur).killed then (no_child, t) else (blocked, t))
wait_result-waits cur t (b, none) kids e f = rw f refl
wait_result-waits cur t (b, some i) kids e f = absurd (cc)

-- Without a zombie child, a round of `wait` changes nothing: it gives up if the process has been
-- killed or has no child at all, and goes to sleep otherwise.
pub wait_round-waits :
    (cur : ℕ) (t : Ptable)
    → ((i : ℕ) → i < nproc → is_zombie_child cur t i ≡ false)
    → ((t.procs cur).killed ≡ true → wait_round cur t ≡ (no_child, t))
      × (((i : ℕ) → i < nproc → is_child cur t i ≡ false) → wait_round cur t ≡ (no_child, t))
      × ((i : ℕ)
          → i < nproc
          → is_child cur t i ≡ true
          → (t.procs cur).killed ≡ false
          → wait_round cur t ≡ (blocked, t))
unfolding wait_round
wait_round-waits cur t none_dead =
    let r = scan_children nproc 0 cur false t in
    let no_zombie = find_from-miss nproc 0 (is_zombie_child cur t) (λ x lo hi. none_dead x hi) in
    let found = scan-find nproc 0 cur false t ∙ no_zombie in
    let kids = scan-kids nproc 0 cur false t no_zombie in
    (
      λ dead. wait_result-waits cur t r _ found kids ∙ ground arith,
      λ childless.
          let alone = find_from-miss nproc 0 (is_child cur t) (λ x lo hi. childless x hi) in
          wait_result-waits cur t r false found (kids ∙ ap is_some alone) ∙ refl,
      λ i lt mine live.
          let (j, met, first) = find_from-hit nproc 0 (is_child cur t) i (omega arith) lt mine in
          wait_result-waits cur t r true found (kids ∙ ap is_some met) ∙ rw live refl,
    )

-- A round of `wait` keeps the ids of the processes distinct.
pub wait_round-IsNumbered : (cur : ℕ) (t : Ptable) → IsNumbered t → IsNumbered (wait_round cur t).1
unfolding wait_round
wait_round-IsNumbered cur t v = numbered (scan_children nproc 0 cur false t)
  where
    numbered : (r : Bool × Option ℕ) → IsNumbered (wait_result cur t r).1
    numbered (kids, none) = elim (Bool-cases (not kids || (t.procs cur).killed)) [
      | inl e ↦ rw e v
      | inr e ↦ rw e v
    ]
    numbered (kids, some i) = reap-IsNumbered i t v
