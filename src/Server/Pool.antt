-- ===== src/Server/Pool.antt =====
-- The pool through any interleaving of its critical sections.
use cs537_intro_to_os.Prelude.{
  ℕ, ◌+◌, ◌<◌, ◌≡◌, Bool, true, ◌&&◌, leb, ltb, if◌then◌else◌, arith, List, [], ◌∷◌, ℕ_discrete,
  sym, ◌∙◌, subst, ap, refl, for_slots-at,
}
use cs537_intro_to_os.Tally.{one_if, tally-none}
use cs537_intro_to_os.Server.{
  init_slot, init_buffer, Slot, Shared, Turn, waits, passes, produce, consume,
}
use cs537_intro_to_os.Server.Slots.{
  holds, pending, IsValid, Stored, produce_lem, Taken, consume_lem,
}

-- `malloc` returned slots that are not marked as given out; the program does not make sure of it.
abbrev pub IsUnissued : (n : ℕ) → (heap : ℕ → Slot) → Type 0
IsUnissued n heap = (i : ℕ) → i < n → (heap i).issued ≡ 0

-- A buffer that is reached, with the connections put into it and those taken out, the latest first.
pub data Run (n : ℕ) (heap : ℕ → Slot) : Shared → List ℕ → List ℕ → Type 0 where
  starts : Run n heap (init_buffer n heap) [] []
  accepts :
      {s s' : Shared} {ins outs : List ℕ} (connfd : ℕ)
      → Run n heap s ins outs
      → produce n connfd s ≡ passes s'
      → Run n heap s' (connfd ∷ ins) outs
  handles :
      {s s' : Shared} {ins outs : List ℕ} (connfd : ℕ)
      → Run n heap s ins outs
      → consume n s ≡ passes (connfd, s')
      → Run n heap s' ins (connfd ∷ outs)

-- How many of the connections pass the test.
abbrev pub count_by : (ℕ → Bool) → List ℕ → ℕ
count_by p [] = 0
count_by p (c ∷ cs) = one_if (p c) + count_by p cs

init_slots :
    (n : ℕ) (heap : ℕ → Slot) (i : ℕ) → i < n → (init_buffer n heap).buffer i ≡ init_slot (heap i)
unfolding init_buffer
init_slots n heap i lt = for_slots-at n 0 init_slot heap i ∙ inside (init_slot (heap i)) (heap i)
  where
    inside : (a b : Slot) → (if leb 0 i && ltb i (0 + n) then a else b) ≡ a
    inside a b = ground arith

init_count : (n : ℕ) (heap : ℕ → Slot) → (init_buffer n heap).fill_count ≡ 0
unfolding init_buffer
init_count n heap = refl

none_holds : (n : ℕ) (heap : ℕ → Slot) (p : ℕ → Bool) → pending n p (init_buffer n heap) ≡ 0
none_holds n heap p =
    tally-none (holds p) 0 n (init_buffer n heap).buffer
      λ x from below. ap (λ slot. holds p slot) (init_slots n heap x (omega arith))

pub init-IsValid : (n : ℕ) (heap : ℕ → Slot) → IsUnissued n heap → IsValid n (init_buffer n heap)
init-IsValid n heap clear = record {
  idle = λ i lt. ap (λ slot. slot.issued) (init_slots n heap i lt) ∙ clear i lt;
  marks = λ i lt. let e = ap (λ slot. slot.filled) (init_slots n heap i lt) in omega (arith, e);
  counted = init_count n heap ∙ sym (none_holds n heap (λ c. true));
}

passed : {A : Type 0} (a b : A) → passes a ≡ passes b → a ≡ b
passed a b e = cc

pub produce-Stored :
    (n connfd : ℕ) (s s' : Shared)
    → IsValid n s
    → produce n connfd s ≡ passes s'
    → Stored n connfd s s'
produce-Stored n connfd s s' v h = elim (ℕ_discrete s.fill_count n) [
  | yes e ↦ absurd (clash (sym ((produce_lem n connfd s v).0 e) ∙ h))
  | no ne ↦
      let (t, runs, stored) = (produce_lem n connfd s v).1 ne in
      subst (λ u. Stored n connfd s u) (passed t s' (sym runs ∙ h)) stored
]
  where
    clash : waits ≡ passes s' → ⊥
    clash e = cc

pub consume-Taken :
    (n connfd : ℕ) (s s' : Shared)
    → IsValid n s
    → consume n s ≡ passes (connfd, s')
    → Taken n connfd s s'
consume-Taken n connfd s s' v h = elim (ℕ_discrete s.fill_count 0) [
  | yes e ↦ absurd (clash (sym ((consume_lem n s v).0 e) ∙ h))
  | no ne ↦
      let (c, t, runs, taken) = (consume_lem n s v).1 ne in
      subst (λ u. Taken n u.0 s u.1) (passed (c, t) (connfd, s') (sym runs ∙ h)) taken
]
  where
    clash : ◌≡◌ {A = Turn (ℕ × Shared)} waits (passes (connfd, s')) → ⊥
    clash e = cc

-- If `malloc` returned slots with `issued` 0, then whatever critical sections have run: no slot is marked
-- as given out, the count is that of the filled slots, and every test on connections counts as many put
-- in as taken out and waiting together, so that no connection is lost and none is handled twice.
pub Run-IsValid :
    (n : ℕ) (heap : ℕ → Slot) (s : Shared) (ins outs : List ℕ)
    → IsUnissued n heap
    → Run n heap s ins outs
    → IsValid n s × ((p : ℕ → Bool) → count_by p ins ≡ count_by p outs + pending n p s)
Run-IsValid n heap _ ins outs clear starts =
    (init-IsValid n heap clear, λ p. let e = none_holds n heap p in omega (arith, e))
Run-IsValid n heap s' (_ ∷ ins) outs clear (accepts {s} connfd run h) =
    let (v, kept) = Run-IsValid n heap s ins outs clear run in
    let stored = produce-Stored n connfd s s' v h in
    (stored.valid, λ p. let k = kept p in let m = stored.more p in omega (arith, k, m))
Run-IsValid n heap s' ins (_ ∷ outs) clear (handles {s} connfd run h) =
    let (v, kept) = Run-IsValid n heap s ins outs clear run in
    let taken = consume-Taken n connfd s s' v h in
    (taken.valid, λ p. let k = kept p in let m = taken.fewer p in omega (arith, k, m))
