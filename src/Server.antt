-- ===== src/Server.antt =====
-- The pool of connections of Project4a/server.c: the main thread puts connections into a buffer, and
-- the worker threads take them out. `main_lock` makes each critical section one step, which ends where
-- the thread waits on its condition or lets the lock go.
pub mod Slots
pub mod Pool
pub mod Awake
mod Tests
use cs537_intro_to_os.Prelude.{
  ℕ, ◌+◌, ◌-◌, Bool, ◌&&◌, ◌==◌, if◌then◌else◌, update, Option, none, some, find_from, true, false,
  for_slots, ◌^◌,
}

-- `conn_info_t`
pub record Slot : Type 0 where
  pub conn_fd : ℕ
  pub filled : ℕ
  pub issued : ℕ

-- `shared_buf_t`
pub record Shared : Type 0 where
  pub buffer : ℕ → Slot
  pub fill_count : ℕ

abbrev pub set_slot : Shared → ℕ → Slot → Shared
set_slot s i slot = record s { buffer = update s.buffer i slot }

-- `none` for the index -1
unfoldable pub put_buffer : (n_buffers : ℕ) → Shared → Option ℕ × Shared
put_buffer n s = elim (find_from n 0 (λ i. (s.buffer i).filled == 0)) [
  | none ↦ (none, s)
  | some i ↦ (
    some i,
    record {
      buffer = update s.buffer i (record (s.buffer i) { filled = 1 });
      fill_count = s.fill_count + 1;
    },
  )
]

abbrev pub takeable : Slot → Bool
takeable slot = slot.filled == 1 && slot.issued == 0

unfoldable pub get_buffer : (n_buffers : ℕ) → Shared → Option ℕ × Shared
get_buffer n s = elim (find_from n 0 (λ i. takeable (s.buffer i))) [
  | none ↦ (none, s)
  | some i ↦ (some i, set_slot s i (record (s.buffer i) { issued = 1 }))
]

unfoldable pub free_buffer : ℕ → Shared → Shared
free_buffer i s = record {
  buffer = update s.buffer i (record (s.buffer i) { issued = 0; filled = 0 });
  fill_count = s.fill_count - 1;
}

-- How a critical section goes on from its test: it waits on its condition, it leaves the program for
-- the "Invalid state" of an index -1, or it gets through.
pub data Turn (A : Type 0) : Type 0 where
  waits invalid : Turn A
  passes : A → Turn A

abbrev pub store : (connfd : ℕ) → Option ℕ × Shared → Turn Shared
store connfd (none, s) = invalid
store connfd (some i, s) = passes (set_slot s i (record (s.buffer i) { conn_fd = connfd }))

-- The critical section of `main`, for a connection that it has accepted.
unfoldable pub produce : (n_buffers : ℕ) → (connfd : ℕ) → Shared → Turn Shared
unfolding put_buffer
produce n connfd s = if s.fill_count == n then waits else store connfd (put_buffer n s)

abbrev pub hand_over : Option ℕ × Shared → Turn (ℕ × Shared)
hand_over (none, s) = invalid
hand_over (some i, s) = passes ((s.buffer i).conn_fd, free_buffer i s)

-- The critical section of `connection_consumer`: the connection that it will handle.
unfoldable pub consume : (n_buffers : ℕ) → Shared → Turn (ℕ × Shared)
unfolding get_buffer free_buffer
consume n s = if s.fill_count == 0 then waits else hand_over (get_buffer n s)

-- The loop of `main` over the slots that `malloc` returned; -1 is its 32-bit word. `fill_count` is a
-- global variable.
abbrev pub init_slot : Slot → Slot
init_slot slot = record slot { conn_fd = 2 ^ 32 - 1; filled = 0 }

unfoldable pub init_buffer : (n_buffers : ℕ) → (heap : ℕ → Slot) → Shared
init_buffer n heap = record { buffer = for_slots n 0 init_slot heap; fill_count = 0 }

-- The buffer, whether the main thread waits on `empty`, and how many workers wait on `full`.
pub record Program : Type 0 where
  pub shared : Shared
  pub main_waits : Bool
  pub idle : ℕ

-- `pthread_cond_signal(&full)` and `pthread_cond_signal(&empty)`: one thread that waits goes on.
abbrev pub signal_full : Program → Program
signal_full p = record p { idle = p.idle - 1 }

abbrev pub signal_empty : Program → Program
signal_empty p = record p { main_waits = false }

-- A turn of the main thread, and one of a worker; `none` where the program exits.
abbrev pub main_goes : Program → Turn Shared → Option Program
main_goes p waits = some (record p { main_waits = true })
main_goes p invalid = none
main_goes p (passes s) = some (signal_full (record p { shared = s }))

unfoldable pub main_turn : (n_buffers : ℕ) → (connfd : ℕ) → Program → Option Program
main_turn n connfd p = main_goes p (produce n connfd p.shared)

abbrev pub worker_goes : Program → Turn (ℕ × Shared) → Option Program
worker_goes p waits = some (record p { idle = p.idle + 1 })
worker_goes p invalid = none
worker_goes p (passes (connfd, s)) = some (signal_empty (record p { shared = s }))

unfoldable pub worker_turn : (n_buffers : ℕ) → Program → Option Program
worker_turn n p = worker_goes p (consume n p.shared)
