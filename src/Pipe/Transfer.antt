-- ===== src/Pipe/Transfer.antt =====
-- What `pipewrite` and `piperead` do to the queue of bytes.
use cs537_intro_to_os.Prelude.{
  ℕ, zero, suc, ◌-◌, ◌%◌, ◌<◌, ◌≡◌, ◌⊎◌, refl, ◌∙◌, ap, sym, ◌==◌, Bool, true, false, not, ◌&&◌,
  ◌||◌, List, [], ◌∷◌, ◌++◌, length, arith, Bool-cases, inl, inr, min,
}
use mathlib.Core.List.{append_assoc, append-nil}
use cs537_intro_to_os.Pipe.{
  pipesize, Channel, readers, writers, Pipe, wake, is_full, is_empty, put, WriteEnd, written,
  failed, full, pipewrite, advance, read_out, got, killed_end, empty, piperead,
}
use cs537_intro_to_os.Pipe.Fifo.{
  Holds, contents, is_full-Holds, is_empty-Holds, put-Holds, put-contents, advance-Holds,
  advance-contents,
}

-- How far `pipewrite` comes: it has sent a first part of its bytes.
pub record Sent (killed : Bool) (src : List ℕ) (p : Pipe) (r : WriteEnd × Pipe) : Type 0 where
  pub sent : List ℕ
  pub rest : List ℕ
  pub split : src ≡ sent ++ rest
  pub size : ℕ
  pub holds : Holds size r.1
  pub appended : contents r.1 ≡ contents p ++ sent
  pub returns : r.0 ≡ written → rest ≡ []
  pub sleeps :
      (left : List ℕ)
      → r.0 ≡ full left
      → (left ≡ rest) × (size ≡ pipesize) × (p.readopen ≡ true) × (killed ≡ false)
  pub fails : r.0 ≡ failed → (size ≡ pipesize) × ((p.readopen ≡ false) ⊎ (killed ≡ true))

wake-Holds : (k : ℕ) (c : Channel) (p : Pipe) → Holds k p → Holds k (wake c p)
wake-Holds k c p v = record { read_word = v.read_word; small = v.small; ahead = v.ahead }

wake-contents : (c : Channel) (p : Pipe) → contents (wake c p) ≡ contents p
unfolding contents
wake-contents c p = refl

-- The sequence of bytes in the pipe only grows by what `pipewrite` has sent, in order. It returns
-- only when all is sent; it sleeps, with the bytes that are left, only on a full pipe that can
-- still be read; it fails only on a full pipe whose reader is gone, or when killed.
pub pipewrite-Sent :
    (killed : Bool) (src : List ℕ) (k : ℕ) (p : Pipe)
    → Holds k p
    → Sent killed src p (pipewrite killed src p)
unfolding pipewrite
pipewrite-Sent killed [] k p v = record {
  sent = [];
  rest = [];
  split = refl;
  size = k;
  holds = wake-Holds k readers p v;
  appended = wake-contents readers p ∙ sym (append-nil (contents p));
  returns = λ e. refl;
  sleeps = λ left e. absurd (cc);
  fails = λ e. absurd (cc);
}
pipewrite-Sent killed (x ∷ src) k p v = elim (Bool-cases (is_full p)) [
  | inl no_room ↦
      let at_end : k ≡ pipesize = ground (arith, is_full-Holds k p v) in
      elim (Bool-cases (not p.readopen || killed)) [
        | inl gone ↦
            rw (no_room, pipewrite, gone)
              (record {
                sent = [];
                rest = x ∷ src;
                split = refl;
                size = k;
                holds = v;
                appended = sym (append-nil (contents p));
                returns = λ e. absurd (cc);
                sleeps = λ left e. absurd (cc);
                fails = λ e. (at_end, either p.readopen killed gone);
              })
        | inr waits ↦
            rw (no_room, pipewrite, waits)
              (record {
                sent = [];
                rest = x ∷ src;
                split = refl;
                size = k;
                holds = wake-Holds k readers p v;
                appended = wake-contents readers p ∙ sym (append-nil (contents p));
                returns = λ e. absurd (cc);
                sleeps = λ left e. (left_over e, at_end, ground arith, ground arith);
                fails = λ e. absurd (cc);
              })
      ]
  | inr room ↦
      let fits : k < pipesize = ground (arith, is_full-Holds k p v, v.small) in
      let ih : Sent killed src (put x p) (pipewrite killed src (put x p)) =
        pipewrite-Sent killed src (suc k) (put x p) (put-Holds x k p v fits) in
      rw (room, pipewrite)
        (record {
          sent = x ∷ ih.sent;
          rest = ih.rest;
          split = ap (λ xs. x ∷ xs) ih.split;
          size = ih.size;
          holds = ih.holds;
          appended =
              ih.appended
              ∙ ap (λ xs. xs ++ ih.sent) (put-contents x k p v fits)
              ∙ append_assoc (contents p) (x ∷ []) ih.sent;
          returns = ih.returns;
          sleeps = ih.sleeps;
          fails = ih.fails;
        })
]
  where
    either : (a b : Bool) → not a || b ≡ true → (a ≡ false) ⊎ (b ≡ true)
    either false b e = inl refl
    either true true e = inr refl
    either true false e = absurd (cc)

    left_over : {a b : List ℕ} → full a ≡ full b → b ≡ a
    left_over e = cc

Holds-size : (k l : ℕ) (p : Pipe) → k ≡ l → Holds k p → Holds l p
Holds-size k l p e v = rw (← e) v

-- What the copying loop takes out.
record Taken (n k : ℕ) (p : Pipe) (r : List ℕ × Pipe) : Type 0 where
  holds : Holds (k - n) r.1
  split : contents p ≡ r.0 ++ contents r.1
  count : length r.0 ≡ min n k

read_out-Taken : (n k : ℕ) (p : Pipe) → Holds k p → Taken n k p (read_out n p)
unfolding read_out
read_out-Taken zero k p v = record {
  holds = Holds-size k (k - 0) p (omega arith) v;
  split = refl;
  count = omega arith;
}
read_out-Taken (suc n) zero p v =
    let none_left : is_empty p ≡ true = is_empty-Holds 0 p v in
    rw (none_left, read_out)
      (record {
        holds = Holds-size 0 (0 - suc n) p (omega arith) v;
        split = refl;
        count = omega arith;
      })
read_out-Taken (suc n) (suc k) p v =
    let some_left : is_empty p ≡ false = ground (arith, is_empty-Holds (suc k) p v) in
    let ih : Taken n k (advance p) (read_out n (advance p)) =
      read_out-Taken n k (advance p) (advance-Holds k p v) in
    rw (some_left, read_out)
      (record {
        holds =
            Holds-size (k - n) (suc k - suc n) (read_out n (advance p)).1 (omega arith) ih.holds;
        split = advance-contents k p v ∙ ap (λ xs. p.data_at (p.nread % pipesize) ∷ xs) ih.split;
        count = omega (arith, ih.count);
      })

-- A read that does not wait returns the oldest bytes of the pipe, in order, and takes them out: as
-- many as it asks for, or all that there are. On an empty pipe with a writer it sleeps, or fails if
-- killed, and changes nothing.
pub piperead-takes :
    (killed : Bool) (n k : ℕ) (p : Pipe)
    → Holds k p
    → (((0 < k) ⊎ (p.writeopen ≡ false))
        → (xs : List ℕ) × (q : Pipe) × (piperead killed n p ≡ (got xs, q))
          × Holds (k - n) q
          × (contents p ≡ xs ++ contents q)
          × (length xs ≡ min n k))
      × (k ≡ 0 → p.writeopen ≡ true → killed ≡ false → piperead killed n p ≡ (empty, p))
      × (k ≡ 0 → p.writeopen ≡ true → killed ≡ true → piperead killed n p ≡ (killed_end, p))
unfolding piperead
piperead-takes killed n k p v =
    let t : Taken n k p (read_out n p) = read_out-Taken n k p v in
    let test : is_empty p ≡ (k == 0) = is_empty-Holds k p v in
    (
      λ ready.
          let go : (is_empty p && p.writeopen) ≡ false =
            waiting_off (is_empty p) p.writeopen test ready in
          (
            (read_out n p).0,
            wake writers (read_out n p).1,
            rw (go, piperead) refl,
            wake-Holds (k - n) writers (read_out n p).1 t.holds,
            t.split
                ∙ ap (λ ys. (read_out n p).0 ++ ys) (sym (wake-contents writers (read_out n p).1)),
            t.count,
          ),
      λ nothing wait_on alive. ground (arith, test),
      λ nothing wait_on dead. ground (arith, test),
    )
  where
    waiting_off : (e w : Bool) → e ≡ (k == 0) → ((0 < k) ⊎ (w ≡ false)) → e && w ≡ false
    waiting_off e w same (inl some_left) = ground arith
    waiting_off true w same (inr closed) = closed
    waiting_off false w same (inr closed) = refl
