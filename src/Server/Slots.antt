-- ===== src/Server/Slots.antt =====
-- What the two critical sections do to the slots.
use cs537_intro_to_os.Prelude.{
  ℕ, zero, suc, ◌+◌, ◌-◌, ◌≤◌, ◌<◌, ◌≡◌, ◌≢◌, refl, Bool, true, false, ◌&&◌, ◌==◌, arith, update,
  update_self, update_ne, some, Option-cases, inl, inr, ap, ◌∙◌, ℕ_discrete, find_from,
  find_from-some, find_from-none, fun_ext,
}
use cs537_intro_to_os.Tally.{one_if, tally, tally-update, tally-none}
use cs537_intro_to_os.Server.{
  Slot, Shared, put_buffer, takeable, get_buffer, free_buffer, waits, passes, produce, consume,
}

-- A filled slot whose connection passes the test.
abbrev pub holds : (p : ℕ → Bool) → Slot → Bool
holds p slot = slot.filled == 1 && p slot.conn_fd

-- How many connections that pass the test wait in the buffer.
abbrev pub pending : (n : ℕ) → (p : ℕ → Bool) → Shared → ℕ
pending n p s = tally (holds p) 0 n s.buffer

-- The buffer between two critical sections: no slot is marked as given out, and the count is that of
-- the filled slots.
pub record IsValid (n : ℕ) (s : Shared) : Type 0 where
  pub idle : (i : ℕ) → i < n → (s.buffer i).issued ≡ 0
  pub marks : (i : ℕ) → i < n → (s.buffer i).filled ≤ 1
  pub counted : s.fill_count ≡ pending n (λ c. true) s

-- A range in which all are counted.
full-tally :
    {A : Type 0} (p : A → Bool) (lo n : ℕ) (a : ℕ → A)
    → ((x : ℕ) → lo ≤ x → x < lo + n → p (a x) ≡ true)
    → tally p lo n a ≡ n
unfolding tally
full-tally p lo zero a all = refl
full-tally p lo (suc n) a all =
    let rest = full-tally p (lo + 1) n a (λ x from below. all x (omega arith) (omega arith)) in
    let here = all lo (omega arith) (omega arith) in rw here (omega (arith, rest))

-- A slot that is written twice keeps the second value.
twice-update : (b : ℕ → Slot) (i : ℕ) (v w : Slot) → update (update b i v) i w ≡ update b i w
twice-update b i v w = fun_ext λ x. elim (ℕ_discrete x i) [
  | yes e ↦ rw (e, update_self (update b i v) i w, update_self b i w) refl
  | no ne ↦ rw (update_ne (update b i v) i w x ne, update_ne b i v x ne, update_ne b i w x ne) refl
]

-- A new slot that is not given out, in a valid buffer.
set-IsValid :
    (n : ℕ) (s : Shared) (i : ℕ) (w : Slot) (count : ℕ)
    → i < n
    → IsValid n s
    → w.issued ≡ 0
    → w.filled ≤ 1
    → count + one_if (holds (λ c. true) (s.buffer i)) ≡ s.fill_count + one_if (holds (λ c. true) w)
    → IsValid n (record { buffer = update s.buffer i w; fill_count = count })
set-IsValid n s i w count inside v idle marks count_eq = record {
  idle = λ x lt. elim (ℕ_discrete x i) [
    | yes e ↦ rw (e, update_self s.buffer i w) idle
    | no ne ↦ rw (update_ne s.buffer i w x ne) (v.idle x lt)
  ];
  marks = λ x lt. elim (ℕ_discrete x i) [
    | yes e ↦ rw (e, update_self s.buffer i w) marks
    | no ne ↦ rw (update_ne s.buffer i w x ne) (v.marks x lt)
  ];
  counted =
      let now = tally-update (holds (λ c. true)) 0 n s.buffer i w (omega arith) (omega arith) in
      let old = v.counted in omega (arith, now, old, count_eq);
}

-- What the main thread leaves.
pub record Stored (n connfd : ℕ) (s s' : Shared) : Type 0 where
  pub valid : IsValid n s'
  pub more : (p : ℕ → Bool) → pending n p s' ≡ pending n p s + one_if (p connfd)

put-Stored :
    (n connfd : ℕ) (s : Shared) (i : ℕ)
    → i < n
    → IsValid n s
    → (s.buffer i).filled ≡ 0
    → let w = record (s.buffer i) { filled = 1; conn_fd = connfd } in
      Stored n connfd s (record { buffer = update s.buffer i w; fill_count = s.fill_count + 1 })
put-Stored n connfd s i inside v empty =
    let w = record (s.buffer i) { filled = 1; conn_fd = connfd } in
    record {
      valid =
          set-IsValid n s i w (s.fill_count + 1) inside v (v.idle i inside) (omega arith)
            (ground arith);
      more = λ p.
          let now = tally-update (holds p) 0 n s.buffer i w (omega arith) (omega arith) in
          let old : one_if (holds p (s.buffer i)) ≡ 0 = ground arith in omega (arith, now, old);
    }

produce-full : (n connfd : ℕ) (s : Shared) → s.fill_count ≡ n → produce n connfd s ≡ waits
unfolding produce
produce-full n connfd s e = let test : (s.fill_count == n) ≡ true = ground arith in rw test refl

produce-puts :
    (n connfd : ℕ) (s : Shared) (i : ℕ)
    → s.fill_count ≢ n
    → find_from n 0 (λ i. (s.buffer i).filled == 0) ≡ some i
    → let w = record (s.buffer i) { filled = 1; conn_fd = connfd } in
      produce n connfd s
      ≡ passes (record { buffer = update s.buffer i w; fill_count = s.fill_count + 1 })
unfolding produce put_buffer
produce-puts n connfd s i ne found =
    let test : (s.fill_count == n) ≡ false = ground arith in
    let v = record (s.buffer i) { filled = 1 } in
    let w = record (s.buffer i) { filled = 1; conn_fd = connfd } in
    rw (test, found, put_buffer, update_self s.buffer i v)
      (ap (λ b. passes (record { buffer = b; fill_count = s.fill_count + 1 }))
        (twice-update s.buffer i v w))

-- On a valid buffer the main thread waits exactly while all `n` slots are filled, and else puts its
-- connection into the buffer.
pub produce_lem :
    (n connfd : ℕ) (s : Shared)
    → IsValid n s
    → (s.fill_count ≡ n → produce n connfd s ≡ waits)
      × (s.fill_count ≢ n → (s' : Shared) × (produce n connfd s ≡ passes s') × Stored n connfd s s')
produce_lem n connfd s v = (
  produce-full n connfd s,
  λ ne. elim (Option-cases (find_from n 0 (λ i. (s.buffer i).filled == 0))) [
    | inl full ↦
        let all = full-tally (holds (λ c. true)) 0 n s.buffer λ x from below.
          one_mark (s.buffer x) (v.marks x (omega arith))
            (find_from-none n 0 (λ i. (s.buffer i).filled == 0) full x from below) in
        absurd (ne (v.counted ∙ all))
    | inr (i, found) ↦
        let first = find_from-some n 0 (λ i. (s.buffer i).filled == 0) found in
        let empty : (s.buffer i).filled ≡ 0 = let t = first.passes in ground arith in
        (
          _,
          produce-puts n connfd s i ne found,
          put-Stored n connfd s i (omega (arith, first.below)) v empty,
        )
  ],
)
  where
    one_mark :
        (slot : Slot) → slot.filled ≤ 1 → (slot.filled == 0) ≡ false → holds (λ c. true) slot ≡ true
    one_mark slot le e = ground arith

-- What a worker leaves, with the connection that it has taken.
pub record Taken (n connfd : ℕ) (s s' : Shared) : Type 0 where
  pub valid : IsValid n s'
  pub fewer : (p : ℕ → Bool) → pending n p s ≡ one_if (p connfd) + pending n p s'

get-Taken :
    (n : ℕ) (s : Shared) (i : ℕ)
    → i < n
    → IsValid n s
    → (s.buffer i).filled ≡ 1
    → let w = record (s.buffer i) { issued = 0; filled = 0 } in
      Taken n
        (s.buffer i).conn_fd
        s
        (record { buffer = update s.buffer i w; fill_count = s.fill_count - 1 })
get-Taken n s i inside v filled =
    let w = record (s.buffer i) { issued = 0; filled = 0 } in
    let fewer : (p : ℕ → Bool)
        → pending n p s
          ≡ one_if (p (s.buffer i).conn_fd) + tally (holds p) 0 n (update s.buffer i w) =
      λ p.
        let now = tally-update (holds p) 0 n s.buffer i w (omega arith) (omega arith) in
        let old : one_if (holds p (s.buffer i)) ≡ one_if (p (s.buffer i).conn_fd) = ground arith in
        omega (arith, now, old) in
    record {
      valid =
          let some_filled = fewer (λ c. true) in
          let counted = v.counted in
          let old : one_if (holds (λ c. true) (s.buffer i)) ≡ 1 = ground arith in
          set-IsValid n s i w (s.fill_count - 1) inside v refl (omega arith)
            (omega (arith, some_filled, counted, old));
      fewer = fewer;
    }

consume-empty : (n : ℕ) (s : Shared) → s.fill_count ≡ 0 → consume n s ≡ waits
unfolding consume
consume-empty n s e = let test : (s.fill_count == 0) ≡ true = ground arith in rw test refl

consume-takes :
    (n : ℕ) (s : Shared) (i : ℕ)
    → s.fill_count ≢ 0
    → find_from n 0 (λ i. takeable (s.buffer i)) ≡ some i
    → let w = record (s.buffer i) { issued = 0; filled = 0 } in
      consume n s
      ≡ passes (
        (s.buffer i).conn_fd,
        record { buffer = update s.buffer i w; fill_count = s.fill_count - 1 },
      )
unfolding consume get_buffer free_buffer
consume-takes n s i ne found =
    let test : (s.fill_count == 0) ≡ false = ground arith in
    let v = record (s.buffer i) { issued = 1 } in
    let w = record (s.buffer i) { issued = 0; filled = 0 } in
    rw (test, found, get_buffer, update_self s.buffer i v)
      (ap (λ b. passes ((s.buffer i).conn_fd, record { buffer = b; fill_count = s.fill_count - 1 }))
        (twice-update s.buffer i v w))

-- On a valid buffer a worker waits exactly while no slot is filled, and else takes a connection out of
-- the buffer.
pub consume_lem :
    (n : ℕ) (s : Shared)
    → IsValid n s
    → (s.fill_count ≡ 0 → consume n s ≡ waits)
      × (s.fill_count ≢ 0
          → (connfd : ℕ) × (s' : Shared) × (consume n s ≡ passes (connfd, s'))
            × Taken n connfd s s')
consume_lem n s v = (
  consume-empty n s,
  λ ne. elim (Option-cases (find_from n 0 (λ i. takeable (s.buffer i)))) [
    | inl none_left ↦
        let all = tally-none (holds (λ c. true)) 0 n s.buffer λ x from below.
          unfilled (s.buffer x) (v.idle x (omega arith))
            (find_from-none n 0 (λ i. takeable (s.buffer i)) none_left x from below) in
        absurd (ne (v.counted ∙ all))
    | inr (i, found) ↦
        let first = find_from-some n 0 (λ i. takeable (s.buffer i)) found in
        let filled : (s.buffer i).filled ≡ 1 = let t = first.passes in ground arith in
        (
          (s.buffer i).conn_fd,
          _,
          consume-takes n s i ne found,
          get-Taken n s i (omega (arith, first.below)) v filled,
        )
  ],
)
  where
    unfilled :
        (slot : Slot) → slot.issued ≡ 0 → takeable slot ≡ false → holds (λ c. true) slot ≡ false
    unfilled slot e h = ground arith
