-- ===== src/Server/Tests.antt =====
-- The theorems on the pool at a buffer of two slots.
use cs537_intro_to_os.Prelude.{
  ℕ, ◌+◌, ◌≡◌, ◌≢◌, ◌⊎◌, ◌<◌, none, Bool, false, for_each, refl, arith, find_from, [], ◌∷◌,
}
use cs537_intro_to_os.Server.{
  Slot, Shared, put_buffer, get_buffer, free_buffer, Turn, passes, produce, consume, init_buffer,
  Program, main_turn, worker_turn,
}
use cs537_intro_to_os.Server.Slots.{pending, IsValid}
use cs537_intro_to_os.Server.Pool.{IsUnissued, Run, starts, accepts, handles, count_by, Run-IsValid}
use cs537_intro_to_os.Server.Awake.{Reach, main_runs, worker_runs, Reach-progress}

abbrev slot : (conn_fd filled : ℕ) → Slot
slot fd filled = record { conn_fd = fd; filled = filled; issued = 0 }

-- what `malloc` returned
abbrev heap : ℕ → Slot
heap i = slot 99 1

abbrev no_slots : Shared
unfolding init_buffer
no_slots = init_buffer 2 heap

abbrev after : Turn Shared → Shared
after (passes s) = s
after t = no_slots

abbrev one_slot : Shared
one_slot = after (produce 2 7 no_slots)

abbrev two_slots : Shared
two_slots = after (produce 2 8 one_slot)

abbrev second : Turn (ℕ × Shared) → Shared
second (passes (c, s)) = s
second t = no_slots

abbrev one_left : Shared
one_left = second (consume 2 two_slots)

two_slots-Run : Run 2 heap one_left (8 ∷ 7 ∷ []) (7 ∷ [])
unfolding init_buffer for_each produce put_buffer find_from consume get_buffer free_buffer
two_slots-Run =
    handles {s = two_slots} 7 (accepts {s = one_slot} 8 (accepts {s = no_slots} 7 starts refl) refl)
      refl

heap-IsUnissued : IsUnissued 2 heap
heap-IsUnissued i lt = refl

Run-IsValid_example :
    IsValid 2 one_left
    × ((p : ℕ → Bool) → count_by p (8 ∷ 7 ∷ []) ≡ count_by p (7 ∷ []) + pending 2 p one_left)
Run-IsValid_example =
    Run-IsValid 2 heap one_left (8 ∷ 7 ∷ []) (7 ∷ []) heap-IsUnissued two_slots-Run

-- One worker waits at the empty buffer, and the main thread wakes it with its first connection.
abbrev asleep : Program
asleep = record { shared = no_slots; main_waits = false; idle = 1 }

abbrev awake : Program
awake = record { shared = one_slot; main_waits = false; idle = 0 }

awake-Reach : Reach 2 1 heap awake
unfolding init_buffer for_each produce put_buffer find_from consume main_turn worker_turn
awake-Reach =
    main_runs {p = asleep} 7
      (worker_runs {p = record { shared = no_slots; main_waits = false; idle = 0 }} Reach.starts
        (omega arith) refl)
      refl refl

Reach-progress_example :
    (((awake.main_waits ≡ false)
        × ((connfd : ℕ) → (s' : Shared) × (produce 2 connfd one_slot ≡ passes s')))
      ⊎ ((awake.idle < 1)
          × (connfd : ℕ) × (s' : Shared) × (consume 2 one_slot ≡ passes (connfd, s'))))
    × ((connfd : ℕ) → main_turn 2 connfd awake ≢ none)
    × (worker_turn 2 awake ≢ none)
Reach-progress_example =
    Reach-progress 2 1 heap awake (omega arith) (omega arith) heap-IsUnissued awake-Reach
