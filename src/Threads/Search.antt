-- ===== src/Threads/Search.antt =====
-- The scan of `wait` and `sys_join` is two searches in one.
use cs537_intro_to_os.Prelude.{
  ℕ, zero, suc, ◌+◌, ◌≡◌, refl, Bool, true, false, not, ◌&&◌, ◌||◌, Option, none, some, arith,
  if◌then◌else◌, find_from, ◌∙◌,
}
use cs537_intro_to_os.Proc.Table.{nproc, is_zombie}
use cs537_intro_to_os.Threads.Table.{Ptable}
use cs537_intro_to_os.Threads.{scan_children, WaitEnd, reaped, no_child, blocked, end_round}

abbrev pub zombie_at : (child : ℕ → Bool) → Ptable → ℕ → Bool
zombie_at child t i = child i && is_zombie (t.procs i).state

abbrev is_some : Option ℕ → Bool
is_some none = false
is_some (some i) = true

scan-zombie :
    (k i : ℕ) (child : ℕ → Bool) (kids : Bool) (t : Ptable)
    → (scan_children k i child kids t).1 ≡ find_from k i (zombie_at child t)
unfolding scan_children find_from
scan-zombie zero i child kids t = refl
scan-zombie (suc k) i child kids t = ground (arith, scan-zombie k (i + 1) child (child i || kids) t)

scan-kids :
    (k i : ℕ) (child : ℕ → Bool) (kids : Bool) (t : Ptable)
    → find_from k i (zombie_at child t) ≡ none
    → (scan_children k i child kids t).0 ≡ (kids || is_some (find_from k i child))
unfolding scan_children find_from
scan-kids zero i child kids t e = ground arith
scan-kids (suc k) i child kids t e = ground (arith, scan-kids k (i + 1) child (child i || kids) t)

module _ (cur : ℕ) (reap : ℕ → Ptable → Ptable) (child : ℕ → Bool) (t : Ptable) where
  abbrev pub round : WaitEnd × Ptable
  round = end_round cur reap t (scan_children nproc 0 child false t)

  -- The first zombie child is given back.
  pub round-reaps :
      (i : ℕ)
      → find_from nproc 0 (zombie_at child t) ≡ some i
      → round ≡ (reaped (t.procs i).pid, reap i t)
  round-reaps i found =
      by_pair (scan_children nproc 0 child false t) (scan-zombie nproc 0 child false t ∙ found)
    where
      by_pair :
          (r : Bool × Option ℕ)
          → r.1 ≡ some i
          → end_round cur reap t r ≡ (reaped (t.procs i).pid, reap i t)
      by_pair (kids, none) e = cc
      by_pair (kids, some j) e = let same : j ≡ i = cc in rw same refl

  -- Without one the round ends, or goes to sleep if there is a child and the process lives on.
  pub round-waits :
      find_from nproc 0 (zombie_at child t) ≡ none
      → round ≡ (
          if not (is_some (find_from nproc 0 child)) || (t.procs cur).killed
          then (no_child, t)
          else (blocked, t))
  round-waits miss =
      by_pair (scan_children nproc 0 child false t) (is_some (find_from nproc 0 child))
        (scan-zombie nproc 0 child false t ∙ miss) (scan-kids nproc 0 child false t miss)
    where
      by_pair :
          (r : Bool × Option ℕ) (b : Bool)
          → r.1 ≡ none
          → r.0 ≡ b
          → end_round cur reap t r
            ≡ (if not b || (t.procs cur).killed then (no_child, t) else (blocked, t))
      by_pair (kids, none) b e f = rw f refl
      by_pair (kids, some j) b e f = cc
