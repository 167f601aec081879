-- ===== src/Pipe/Fifo.antt =====
-- A pipe is a queue of bytes: what is read is what was written, in order.
use cs537_intro_to_os.Prelude.{
  ℕ, zero, suc, ◌+◌, ◌-◌, ◌%◌, ◌^◌, ◌<◌, ◌≤◌, ◌≡◌, refl, ◌∙◌, ap, sym, ◌==◌, false, update, List,
  [], ◌∷◌, ◌++◌, length, arith,
}
use cs537_intro_to_os.Pipe.{pipesize, Pipe, is_full, is_empty, put, advance}

-- The pipe holds `size` bytes: its counters are 32-bit words, as far apart and at most `pipesize`.
pub record Holds (size : ℕ) (p : Pipe) : Type 0 where
  pub read_word : p.nread < 2 ^ 32
  pub small : size ≤ pipesize
  pub ahead : p.nwrite ≡ (p.nread + size) % 2 ^ 32

-- `k` bytes of the ring from counter `i` on
unfoldable pub window : (ring : ℕ → ℕ) → (i k : ℕ) → List ℕ
window ring i zero = []
window ring i (suc k) = ring (i % pipesize) ∷ window ring ((i + 1) % 2 ^ 32) k

-- The bytes in the pipe, the oldest first.
unfoldable pub contents : Pipe → List ℕ
unfolding window
contents p = window p.data_at p.nread ((p.nwrite + 2 ^ 32 - p.nread) % 2 ^ 32)

window-update :
    (ring : ℕ → ℕ) (i k d j v : ℕ)
    → j ≡ (i + d) % 2 ^ 32
    → k ≤ d
    → d < pipesize
    → window (update ring (j % pipesize) v) i k ≡ window ring i k
unfolding window
window-update ring i zero d j v e le lt = refl
window-update ring i (suc k) d j v e le lt =
    let apart : (i % pipesize == j % pipesize) ≡ false = ground arith in
    rw
      (
        apart,
        window-update ring ((i + 1) % 2 ^ 32) k (d - 1) j v (omega arith) (omega arith)
            (omega arith),
      )
      refl

window-snoc :
    (ring : ℕ → ℕ) (i k : ℕ)
    → window ring i (suc k) ≡ window ring i k ++ (ring ((i + k) % 2 ^ 32 % pipesize) ∷ [])
unfolding window
window-snoc ring i zero = ap (λ x. ring x ∷ []) (omega arith)
window-snoc ring i (suc k) =
    ap (λ xs. ring (i % pipesize) ∷ xs)
      (window-snoc ring ((i + 1) % 2 ^ 32) k
        ∙ ap (λ x. window ring ((i + 1) % 2 ^ 32) k ++ (ring x ∷ [])) (omega arith))

pub contents-window : (k : ℕ) (p : Pipe) → Holds k p → contents p ≡ window p.data_at p.nread k
unfolding contents
contents-window k p v =
    ap (window p.data_at p.nread) (ground (arith, v.ahead, v.small, v.read_word))

length-window : (ring : ℕ → ℕ) (i k : ℕ) → length (window ring i k) ≡ k
unfolding window
length-window ring i zero = refl
length-window ring i (suc k) = ap suc (length-window ring ((i + 1) % 2 ^ 32) k)

pub length-contents : (k : ℕ) (p : Pipe) → Holds k p → length (contents p) ≡ k
length-contents k p v = ap length (contents-window k p v) ∙ length-window p.data_at p.nread k

-- The tests of the code on the counters tell whether the ring is full or empty.
pub is_full-Holds : (k : ℕ) (p : Pipe) → Holds k p → is_full p ≡ (k == pipesize)
is_full-Holds k p v = ground (arith, v.ahead, v.small, v.read_word)

pub is_empty-Holds : (k : ℕ) (p : Pipe) → Holds k p → is_empty p ≡ (k == 0)
is_empty-Holds k p v = ground (arith, v.ahead, v.small, v.read_word)

-- Writing one byte into a pipe that is not full.
pub put-Holds : (x k : ℕ) (p : Pipe) → Holds k p → k < pipesize → Holds (suc k) (put x p)
put-Holds x k p v lt = record {
  read_word = v.read_word;
  small = omega arith;
  ahead = ground (arith, v.ahead);
}

pub put-contents :
    (x k : ℕ) (p : Pipe) → Holds k p → k < pipesize → contents (put x p) ≡ contents p ++ (x ∷ [])
put-contents x k p v lt = contents-window (suc k) (put x p) (put-Holds x k p v lt) ∙ grown ∙ back
  where
    new : (put x p).data_at ((p.nread + k) % 2 ^ 32 % pipesize) ≡ x
    new = ground (arith, v.ahead)

    old : window (put x p).data_at p.nread k ≡ window p.data_at p.nread k
    old = window-update p.data_at p.nread k k p.nwrite x v.ahead (omega arith) lt

    grown : window (put x p).data_at p.nread (suc k) ≡ window p.data_at p.nread k ++ (x ∷ [])
    grown = window-snoc (put x p).data_at p.nread k ∙ rw (old, new) refl

    back : window p.data_at p.nread k ++ (x ∷ []) ≡ contents p ++ (x ∷ [])
    back = ap (λ xs. xs ++ (x ∷ [])) (sym (contents-window k p v))

-- Reading one byte from a pipe that is not empty.
pub advance-Holds : (k : ℕ) (p : Pipe) → Holds (suc k) p → Holds k (advance p)
advance-Holds k p v = record {
  read_word = omega arith;
  small = ground (arith, v.small);
  ahead = ground (arith, v.ahead);
}

pub advance-contents :
    (k : ℕ) (p : Pipe)
    → Holds (suc k) p
    → contents p ≡ p.data_at (p.nread % pipesize) ∷ contents (advance p)
unfolding window
advance-contents k p v =
    contents-window (suc k) p v
    ∙ ap (λ xs. p.data_at (p.nread % pipesize) ∷ xs)
        (sym (contents-window k (advance p) (advance-Holds k p v)))
