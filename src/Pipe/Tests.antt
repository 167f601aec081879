-- ===== src/Pipe/Tests.antt =====
-- The theorems on pipes at a concrete pipe, whose counters are about to wrap round.
use cs537_intro_to_os.Prelude.{
  ℕ, ◌-◌, ◌<◌, ◌≡◌, ◌⊎◌, refl, true, false, List, [], ◌∷◌, ◌++◌, length, arith, min,
}
use cs537_intro_to_os.Pipe.{Pipe, written, pipewrite, got, killed_end, empty, piperead}
use cs537_intro_to_os.Pipe.Fifo.{Holds, contents}
use cs537_intro_to_os.Pipe.Transfer.{Sent, pipewrite-Sent, piperead-takes}
use cs537_intro_to_os.Pipe.Roundtrip.{piperead-pipewrite}

abbrev old_pipe : Pipe
old_pipe = record {
  data_at = λ i. 7;
  nread = 0xffff_ffff;
  nwrite = 0xffff_ffff;
  readopen = true;
  writeopen = true;
  wakeups = [];
}

old_pipe-Holds : Holds 0 old_pipe
old_pipe-Holds = record { read_word = omega arith; small = omega arith; ahead = refl }

abbrev one_byte : Pipe
one_byte = record old_pipe { nwrite = 0 }

one_byte-Holds : Holds 1 one_byte
one_byte-Holds = record { read_word = omega arith; small = omega arith; ahead = refl }

pipewrite-Sent_example : Sent false (1 ∷ 2 ∷ []) old_pipe (pipewrite false (1 ∷ 2 ∷ []) old_pipe)
pipewrite-Sent_example = pipewrite-Sent false (1 ∷ 2 ∷ []) 0 old_pipe old_pipe-Holds

piperead-takes_example :
    let k : ℕ = 1 in
    (((0 < k) ⊎ (true ≡ false))
      → (xs : List ℕ) × (q : Pipe) × (piperead false 5 one_byte ≡ (got xs, q))
        × Holds (k - 5) q
        × (contents one_byte ≡ xs ++ contents q)
        × (length xs ≡ min 5 k))
    × (k ≡ 0 → true ≡ true → false ≡ false → piperead false 5 one_byte ≡ (empty, one_byte))
    × (k ≡ 0 → true ≡ true → false ≡ true → piperead false 5 one_byte ≡ (killed_end, one_byte))
piperead-takes_example = piperead-takes false 5 1 one_byte one_byte-Holds

piperead-pipewrite_example :
    ((pipewrite false (1 ∷ 2 ∷ []) old_pipe).0 ≡ written)
    × ((piperead false 9 (pipewrite false (1 ∷ 2 ∷ []) old_pipe).1).0 ≡ got (1 ∷ 2 ∷ []))
piperead-pipewrite_example =
    piperead-pipewrite false false (1 ∷ 2 ∷ []) 9 old_pipe old_pipe-Holds (omega arith)
      (omega arith) (omega arith)

wraps : (piperead false 9 (pipewrite false (1 ∷ 2 ∷ []) old_pipe).1).0 ≡ got (1 ∷ 2 ∷ [])
unfolding pipewrite piperead
wraps = refl
