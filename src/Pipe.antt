-- ===== src/Pipe.antt =====
-- Pipes, Project5b/xv6/kernel/pipe.c (the same text in every project's kernel): a ring of
-- `PIPESIZE` bytes under `p->lock`. A routine that sleeps is cut there: it returns what is left to
-- do, and is called again with that when it wakes. `killed` is `proc->killed`.
pub mod Fifo
pub mod Transfer
pub mod Roundtrip
pub mod Close
mod Tests
use cs537_intro_to_os.Prelude.{
  ℕ, zero, suc, ◌+◌, ◌%◌, ◌^◌, ◌==◌, Bool, true, false, not, ◌&&◌, ◌||◌, if◌then◌else◌, update,
  List, [], ◌∷◌,
}

abbrev pub pipesize : ℕ
pipesize = 512

-- the sleep channels `&p->nread` and `&p->nwrite`
pub data Channel : Type 0 where
  readers writers : Channel

-- `struct pipe` while it is allocated; `wakeups` logs the calls of `wakeup`, the latest first.
pub record Pipe : Type 0 where
  pub data_at : ℕ → ℕ
  pub nread : ℕ
  pub nwrite : ℕ
  pub readopen : Bool
  pub writeopen : Bool
  pub wakeups : List Channel

-- the pipe that `pipealloc` makes in the page with the bytes `page`
abbrev pub new_pipe : (page : ℕ → ℕ) → Pipe
new_pipe page = record {
  data_at = page;
  nread = 0;
  nwrite = 0;
  readopen = true;
  writeopen = true;
  wakeups = [];
}

abbrev pub wake : Channel → Pipe → Pipe
wake c p = record p { wakeups = c ∷ p.wakeups }

-- `pipeclose`, and whether it gives the page back
unfoldable pub pipeclose : (writable : Bool) → Pipe → Bool × Pipe
pipeclose writable p =
    let p' =
      if writable
      then wake readers (record p { writeopen = false })
      else wake writers (record p { readopen = false }) in
    (not p'.readopen && not p'.writeopen, p')

-- `p->nwrite == p->nread + PIPESIZE`, in 32 bits
abbrev pub is_full : Pipe → Bool
is_full p = p.nwrite == (p.nread + pipesize) % 2 ^ 32

abbrev pub is_empty : Pipe → Bool
is_empty p = p.nread == p.nwrite

-- `p->data[p->nwrite++ % PIPESIZE] = x`
abbrev pub put : ℕ → Pipe → Pipe
put x p = record p {
  data_at = update p.data_at (p.nwrite % pipesize) x;
  nwrite = (p.nwrite + 1) % 2 ^ 32;
}

-- How `pipewrite` stops: it returns n or -1, or sleeps with these bytes left to write.
pub data WriteEnd : Type 0 where
  written failed : WriteEnd
  full : (rest : List ℕ) → WriteEnd

-- `pipewrite` from the byte it stands at to its end or its next sleep
unfoldable pub pipewrite : (killed : Bool) → List ℕ → Pipe → WriteEnd × Pipe
pipewrite killed [] p = (written, wake readers p)
pipewrite killed (x ∷ src) p =
    let rest = pipewrite killed src (put x p) in
    if is_full p
    then (if not p.readopen || killed then (failed, p) else (full (x ∷ src), wake readers p))
    else rest

abbrev pub advance : Pipe → Pipe
advance p = record p { nread = (p.nread + 1) % 2 ^ 32 }

abbrev pub push : ℕ → List ℕ × Pipe → List ℕ × Pipe
push x (xs, p) = (x ∷ xs, p)

-- the copying loop of `piperead`, for `n` bytes at most
unfoldable pub read_out : (n : ℕ) → Pipe → List ℕ × Pipe
read_out zero p = ([], p)
read_out (suc n) p =
    let rest = push (p.data_at (p.nread % pipesize)) (read_out n (advance p)) in
    if is_empty p then ([], p) else rest

-- How `piperead` stops: it returns bytes or -1, or sleeps.
pub data ReadEnd : Type 0 where
  got : List ℕ → ReadEnd
  killed_end empty : ReadEnd

abbrev pub finish_read : List ℕ × Pipe → ReadEnd × Pipe
finish_read (xs, p) = (got xs, wake writers p)

-- `piperead` to its end or its next sleep
unfoldable pub piperead : (killed : Bool) → (n : ℕ) → Pipe → ReadEnd × Pipe
unfolding read_out
piperead killed n p =
    if is_empty p && p.writeopen
    then (if killed then (killed_end, p) else (empty, p))
    else finish_read (read_out n p)
