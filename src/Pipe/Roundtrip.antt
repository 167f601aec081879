-- ===== src/Pipe/Roundtrip.antt =====
-- What goes into an empty pipe comes out of it.
use cs537_intro_to_os.Prelude.{
  ℕ, suc, ◌+◌, ◌-◌, ◌<◌, ◌≤◌, ◌≡◌, refl, ◌∙◌, ap, sym, Bool, false, List, [], ◌∷◌, ◌++◌, length,
  arith, inl,
}
use mathlib.Core.List.{append-nil}
use cs537_intro_to_os.Pipe.{pipesize, Pipe, is_full, put, written, pipewrite, got, piperead}
use cs537_intro_to_os.Pipe.Fifo.{Holds, contents, length-contents, is_full-Holds, put-Holds}
use cs537_intro_to_os.Pipe.Transfer.{Sent, pipewrite-Sent, piperead-takes}

-- Bytes for which there is room are all written.
pipewrite-fits :
    (killed : Bool) (src : List ℕ) (k : ℕ) (p : Pipe)
    → Holds k p
    → k + length src ≤ pipesize
    → (pipewrite killed src p).0 ≡ written
unfolding pipewrite
pipewrite-fits killed [] k p v fits = refl
pipewrite-fits killed (x ∷ src) k p v fits =
    let room : is_full p ≡ false = ground (arith, is_full-Holds k p v) in
    rw (room, pipewrite)
      (pipewrite-fits killed src (suc k) (put x p) (put-Holds x k p v (omega arith)) (omega arith))

no_bytes : (xs : List ℕ) → length xs ≡ 0 → xs ≡ []
no_bytes [] e = refl
no_bytes (x ∷ xs) e = absurd (omega arith)

-- Between 1 and `pipesize` bytes that are written into an empty pipe are all accepted, and the
-- next read for at least as many returns just these bytes, in order.
pub piperead-pipewrite :
    (killed killed' : Bool) (src : List ℕ) (n : ℕ) (p : Pipe)
    → Holds 0 p
    → 0 < length src
    → length src ≤ pipesize
    → length src ≤ n
    → ((pipewrite killed src p).0 ≡ written)
      × ((piperead killed' n (pipewrite killed src p).1).0 ≡ got src)
piperead-pipewrite killed killed' src n p v some_bytes fits asked =
    let s : Sent killed src p (pipewrite killed src p) = pipewrite-Sent killed src 0 p v in
    let done = pipewrite-fits killed src 0 p v (omega arith) in
    let all_sent : s.sent ≡ src =
      sym (s.split ∙ ap (λ xs. s.sent ++ xs) (s.returns done) ∙ append-nil s.sent) in
    let was_empty = no_bytes (contents p) (length-contents 0 p v) in
    let inside : contents (pipewrite killed src p).1 ≡ src =
      s.appended ∙ ap (λ xs. xs ++ s.sent) was_empty ∙ all_sent in
    let size : s.size ≡ length src =
      sym (length-contents s.size (pipewrite killed src p).1 s.holds) ∙ ap length inside in
    let (xs, q, reads, w, split, count) =
      (piperead-takes killed' n s.size (pipewrite killed src p).1 s.holds).0 (inl (omega arith)) in
    let left = no_bytes (contents q) (length-contents (s.size - n) q w ∙ omega arith) in
    let same : xs ≡ src =
      sym (append-nil xs) ∙ ap (λ ys. xs ++ ys) (sym left) ∙ sym split ∙ inside in
    (done, ap (λ r. r.0) reads ∙ ap got same)
