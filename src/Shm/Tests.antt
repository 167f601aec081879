-- ===== src/Shm/Tests.antt =====
-- The shared pages of two processes.
use cs537_intro_to_os.Prelude.{
  ℕ, zero, suc, ◌+◌, ◌*◌, ◌<◌, ◌≢◌, ◌≡◌, refl, true, none, some, [], ◌∷◌, arith, Option, bit_or,
  for_each,
}
use cs537_intro_to_os.Shm.{
  Proc, Shm, usertop, pgsize, shminit, map_page, alloc_pages, map_pages, map_key,
  attach_pages_to_process, sys_shmgetat, sys_shmdt, fork_shared, share_ptes, is_page,
}
use cs537_intro_to_os.Shm.Users.{nproc, IsValid}
use cs537_intro_to_os.Shm.Detach.{Detached, sys_shmdt-Detached}
use cs537_intro_to_os.Shm.Place.{HasSize}
use cs537_intro_to_os.Shm.Outcome.{IsAllocator}
use cs537_intro_to_os.Shm.Share.{attach-attach}
use cs537_intro_to_os.Shm.Reach.{Reached, starts, attaches, forks, Reached-IsValid}
use cs537_intro_to_os.Shm.Panic.{attach-panics}

abbrev kernel_end : ℕ
kernel_end = 0x10_8000

abbrev pages : ℕ → ℕ
pages i = 0x20_0000 + i * pgsize

abbrev small_proc : Proc
small_proc = record { sz = 8192; ptes = λ a. 0; key_addresses = λ k. 0; current_top = usertop }

abbrev booted : Shm
booted = shminit (record {
  spages = λ k. record { addr = λ j. 0; n = 0; refcount = 0 };
  procs = λ x. small_proc;
  freed = [];
})

booted-Reached : Reached kernel_end booted
booted-Reached = starts _ (λ x lt k small. refl)

small_proc-HasSize : HasSize small_proc
small_proc-HasSize = record { positive = omega arith; below = omega arith; inside = omega arith }

abbrev state : Option (Option ℕ × Shm) → Shm
state none = booted
state (some (_, s)) = s

-- Process 1 has two pages under key 3.
abbrev one_user : Shm
one_user = state (sys_shmgetat 1 (some 3) (some 2) pages booted)

one_user-returns : sys_shmgetat 1 (some 3) (some 2) pages booted ≡ some (some 0x9_e000, one_user)
unfolding sys_shmgetat attach_pages_to_process alloc_pages map_key map_pages map_page for_each
one_user-returns = refl

pages-IsAllocator : IsAllocator kernel_end 2 pages
pages-IsAllocator zero lt nz = refl
pages-IsAllocator (suc zero) lt nz = refl
pages-IsAllocator (suc (suc j)) lt nz = absurd (omega arith)

one_user-Reached : Reached kernel_end one_user
unfolding for_each
one_user-Reached =
    attaches 1 3 2 pages 0x9_e000 one_user booted-Reached (omega arith) small_proc-HasSize
      pages-IsAllocator one_user-returns

-- Process 2 is a child of process 1.
abbrev two_users : Shm
two_users = fork_shared 1 2 (λ a. 0) one_user

two_users-Reached : Reached kernel_end two_users
unfolding sys_shmgetat attach_pages_to_process alloc_pages map_key map_pages map_page for_each
two_users-Reached =
    forks 1 2 (λ a. 0) one_user-Reached (λ q. omega arith) (omega arith) (λ k lt. refl)

two_users-run :
    (two_users.spages 3).refcount ∷ (two_users.procs 2).ptes 0x9_f000 ∷ [] ≡ 2 ∷ 0x20_1007 ∷ []
unfolding sys_shmgetat attach_pages_to_process alloc_pages map_key map_pages map_page fork_shared
    share_ptes for_each
two_users-run = refl

Reached-IsValid_example :
    IsValid kernel_end two_users
    × ((c : ℕ)
        → c < nproc
        → (t : Shm) × (sys_shmdt kernel_end c two_users ≡ some t)
          × Detached kernel_end c two_users t)
Reached-IsValid_example = Reached-IsValid kernel_end two_users two_users-Reached

sys_shmdt-Detached_example :
    (t : Shm) × (sys_shmdt kernel_end 1 one_user ≡ some t) × Detached kernel_end 1 one_user t
sys_shmdt-Detached_example =
    sys_shmdt-Detached kernel_end 1 one_user (omega arith)
      (Reached-IsValid kernel_end one_user one_user-Reached).0

attach-attach_example :
    (a b : ℕ) × (t u : Shm) × (attach_pages_to_process 1 3 2 pages booted ≡ some (some a, t))
    × (attach_pages_to_process 2 3 4 pages t ≡ some (some b, u))
    × ((u.spages 3).refcount ≡ 2)
    × ((j : ℕ)
        → j < 2
        → ((u.procs 2).ptes (b + j * pgsize) ≡ (u.procs 1).ptes (a + j * pgsize))
          × ((u.procs 1).ptes (a + j * pgsize) ≡ bit_or ((u.spages 3).addr j) 7))
unfolding for_each
attach-attach_example =
    attach-attach kernel_end 1 2 3 2 4 pages pages booted
      (Reached-IsValid kernel_end booted booted-Reached).0 (omega arith) (omega arith)
      (λ q. omega arith) (omega arith) refl small_proc-HasSize small_proc-HasSize (λ a lo hi. refl)
      (λ a lo hi. refl) refl refl two_pages
  where
    two_pages : (j : ℕ) → j < 2 → (pages j ≢ 0) × (is_page kernel_end (pages j) ≡ true)
    two_pages zero lt = (λ q. omega (arith, q), refl)
    two_pages (suc zero) lt = (λ q. omega (arith, q), refl)
    two_pages (suc (suc j)) lt = absurd (omega arith)

-- A process whose memory reaches up to the end of the user addresses.
abbrev full : Shm
full = record booted { procs = λ x. record small_proc { sz = usertop } }

attach-panics_example :
    (t : Shm) × (attach_pages_to_process 1 3 2 pages full ≡ some (none, t))
    × (sys_shmdt kernel_end 1 t ≡ none)
unfolding for_each
attach-panics_example =
    attach-panics kernel_end 1 1 3 2 pages full (omega arith) (omega arith) (omega arith) refl refl
      refl refl
