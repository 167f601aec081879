-- ===== src/Pipe/Close.antt =====
-- The ends of a pipe, and its page.
use cs537_intro_to_os.Prelude.{ℕ, ◌≡◌, refl, Bool, true, false, not, arith}
use cs537_intro_to_os.Pipe.{new_pipe, pipeclose}
use cs537_intro_to_os.Pipe.Fifo.{Holds, contents}

-- A new pipe is empty; closing its two ends, in either order, gives the page back with the second
-- close and not before, and loses no byte.
pub pipeclose-new_pipe :
    (page : ℕ → ℕ) (writable : Bool)
    → let p = new_pipe page in
      let (freed, q) = pipeclose writable p in
      let (freed', r) = pipeclose (not writable) q in
      Holds 0 p
      × (freed ≡ false)
      × (q.readopen ≡ writable)
      × (q.writeopen ≡ not writable)
      × (freed' ≡ true)
      × (contents r ≡ contents p)
unfolding pipeclose contents
pipeclose-new_pipe page true = (
  record { read_word = omega arith; small = omega arith; ahead = refl },
  refl,
  refl,
  refl,
  refl,
  refl,
)
pipeclose-new_pipe page false = (
  record { read_word = omega arith; small = omega arith; ahead = refl },
  refl,
  refl,
  refl,
  refl,
  refl,
)
