-- ===== src/Proc/Queue.antt =====
-- A level of the queues: an array of `nproc` pointers, NULL where it is free.
use cs537_intro_to_os.Prelude.{
  ℕ, ◌<◌, ◌≡◌, ◌≢◌, refl, Bool, true, false, Option, none, some, arith, find_from, find_from-some,
  find_from-none, IsFirst, inl, inr, Option-cases, ap, ◌∙◌,
}
use cs537_intro_to_os.Proc.Table.{Ptable, nproc, set_queue, points_to}

abbrev pub is_null : Option ℕ → Bool
is_null none = true
is_null (some p) = false

-- `for(q = &queues[level][0]; …) if(*q == NULL) { *q = p; break; }`: on a full level the process
-- is put nowhere.
unfoldable pub enqueue : (level p : ℕ) → Ptable → Ptable
enqueue level p t = elim (find_from nproc 0 (λ i. is_null (t.queues level i))) [
  | none ↦ t
  | some i ↦ set_queue t level i (some p)
]

-- `for(q = &queues[level][0]; …) if(*q == p) { *q = NULL; break; }`
unfoldable pub dequeue : (level p : ℕ) → Ptable → Ptable
dequeue level p t = elim (find_from nproc 0 (λ i. points_to (t.queues level i) p)) [
  | none ↦ t
  | some i ↦ set_queue t level i none
]

-- The process stands in what was the first free place of the level; nothing else has changed.
pub record Enqueued (level p : ℕ) (t u : Ptable) : Type 0 where
  pub slot : ℕ
  pub in_range : slot < nproc
  pub was_free : t.queues level slot ≡ none
  pub result : u ≡ set_queue t level slot (some p)
  pub first : (i : ℕ) → i < slot → t.queues level i ≢ none

not_null : (q : Option ℕ) → is_null q ≡ false → q ≢ none
not_null none h e = cc
not_null (some p) h e = cc

null : (q : Option ℕ) → is_null q ≡ true → q ≡ none
null none h = refl
null (some p) h = cc

-- With a free place in the level, `enqueue` puts the process in the first one and changes nothing
-- else.
pub enqueue-Enqueued :
    (level p : ℕ) (t : Ptable) (i : ℕ)
    → i < nproc
    → t.queues level i ≡ none
    → Enqueued level p t (enqueue level p t)
unfolding enqueue
enqueue-Enqueued level p t i lt free = elim (Option-cases (find_from nproc 0 test)) [
  | inl e ↦ absurd (not_null _ (find_from-none nproc 0 test e i (omega arith) (omega arith)) free)
  | inr (j, e) ↦
      let hit : IsFirst test 0 nproc j = find_from-some nproc 0 test e in
      record {
        slot = j;
        in_range = hit.below;
        was_free = null _ hit.passes;
        result = rw (e, enqueue);
        first = λ x less. not_null _ (hit.first x (omega arith) less);
      }
]
  where
    test : ℕ → Bool
    test x = is_null (t.queues level x)

-- On a full level `enqueue` changes nothing: it puts the process nowhere.
pub enqueue-full :
    (level p : ℕ) (t : Ptable)
    → ((i : ℕ) → i < nproc → t.queues level i ≢ none)
    → enqueue level p t ≡ t
unfolding enqueue
enqueue-full level p t full = elim (Option-cases (find_from nproc 0 test)) [
  | inl e ↦ rw (e, enqueue)
  | inr (j, e) ↦
      let hit : IsFirst test 0 nproc j = find_from-some nproc 0 test e in
      absurd (full j hit.below (null _ hit.passes))
]
  where
    test : ℕ → Bool
    test x = is_null (t.queues level x)

-- `enqueue` and `dequeue` touch nothing but the queues.
pub enqueue-frame :
    (level p : ℕ) (t : Ptable)
    → ((enqueue level p t).procs ≡ t.procs)
      × ((enqueue level p t).next_pid ≡ t.next_pid)
      × ((enqueue level p t).init ≡ t.init)
      × ((enqueue level p t).calls ≡ t.calls)
unfolding enqueue
enqueue-frame level p t = ground arith

pub dequeue-frame :
    (level p : ℕ) (t : Ptable)
    → ((dequeue level p t).procs ≡ t.procs)
      × ((dequeue level p t).next_pid ≡ t.next_pid)
      × ((dequeue level p t).init ≡ t.init)
      × ((dequeue level p t).calls ≡ t.calls)
unfolding dequeue
dequeue-frame level p t = ground arith

-- What `enqueue` writes depends on the queues alone.
pub enqueue-queues :
    (level p : ℕ) (t u : Ptable)
    → t.queues ≡ u.queues
    → (enqueue level p t).queues ≡ (enqueue level p u).queues
unfolding enqueue
enqueue-queues level p t u e =
    replaced ∙ ap (λ q. (enqueue level p (record u { queues = q })).queues) e
  where
    replaced :
        (enqueue level p t).queues ≡ (enqueue level p (record u { queues = t.queues })).queues
    replaced = ground arith
