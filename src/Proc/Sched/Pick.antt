-- ===== src/Proc/Sched/Pick.antt =====
-- Which process `scheduler` runs: one of the highest level that has a runnable process.
use cs537_intro_to_os.Prelude.{ℕ, ◌-◌, ◌<◌, ◌≤◌, ◌≡◌, refl, false, Option, some, arith, dec_lt}
use cs537_intro_to_os.Proc.Table.{runnable, Ptable, nproc}
use cs537_intro_to_os.Proc.Sched.{Found, idle, found, or_then, scan, start_of, pick_last, pick}
use cs537_intro_to_os.Proc.Sched.Scan.{ready, Kept, Stage, Stage-Kept, scan-Stage, not_idle}

-- Two stages in a row, on consecutive levels.
Stage-or_then :
    (first mid last : ℕ) (t : Ptable) (r : Found × Ptable) (next : Ptable → Found × Ptable)
    → first ≤ mid
    → mid ≤ last
    → Stage first mid 0 nproc t r
    → ((u : Ptable) → Stage mid last 0 nproc u (next u))
    → Stage first last 0 nproc t (or_then r next)
Stage-or_then first mid last t (idle, u) next lo hi s rest =
    let s' : Stage mid last 0 nproc t (next u) =
      Stage-Kept mid last 0 nproc t u (next u) s.kept (rest u) in
    record {
      kept = s'.kept;
      hit = λ l i p e.
          let h = s'.hit l i p e in
          (
            omega arith,
            h.1,
            h.2,
            h.3,
            h.4,
            λ l' x low less lt. elim (dec_lt l' mid) [
              | yes above ↦ s.miss refl l' x low above (omega arith) lt
              | no below ↦ h.5 l' x (omega arith) less lt
            ],
          );
      miss = λ e l x low less a b. elim (dec_lt l mid) [
        | yes above ↦ s.miss refl l x low above a b
        | no below ↦ s'.miss e l x (omega arith) less a b
      ];
    }
Stage-or_then first mid last t (found l i p, u) next lo hi s rest = record {
  kept = s.kept;
  hit = λ l' i' p' e. let h = s.hit l' i' p' e in (h.0, omega arith, h.2, h.3, h.4, h.5);
  miss = λ e. absurd (not_idle e);
}

-- The two parts of the last level, round robin from `s` on.
pick_last-Stage :
    (last_rr : Option ℕ) (t : Ptable)
    → start_of last_rr ≤ nproc
    → Stage 3 4 0 nproc t (pick_last last_rr t)
unfolding pick_last
pick_last-Stage last_rr t small =
    let s = start_of last_rr in
    two_parts s t (scan (nproc - s) 3 s t)
      (scan-Stage (nproc - s) 3 s nproc t (omega arith) (omega arith))
      (λ u. scan-Stage s 3 0 s u (omega arith) small)
  where
    two_parts :
        (s : ℕ) (t : Ptable) (r : Found × Ptable)
        → Stage 3 4 s nproc t r
        → ((u : Ptable) → Stage 3 4 0 s u (scan s 3 0 u))
        → Stage 3 4 0 nproc t (or_then r (scan s 3 0))
    two_parts s t (idle, u) one two =
        let back : Stage 3 4 0 s t (scan s 3 0 u) =
          Stage-Kept 3 4 0 s t u (scan s 3 0 u) one.kept (two u) in
        record {
          kept = back.kept;
          hit = back.hit;
          miss = λ e l x low less a b. elim (dec_lt x s) [
            | yes before ↦ back.miss e l x low less a before
            | no after ↦ one.miss refl l x low less (omega arith) b
          ];
        }
    two_parts s t (found l i p, u) one two = record {
      kept = one.kept;
      hit = one.hit;
      miss = λ e. absurd (not_idle e);
    }

pub pick-Stage :
    (last_rr : Option ℕ) (t : Ptable)
    → start_of last_rr ≤ nproc
    → Stage 0 4 0 nproc t (pick last_rr t)
unfolding pick
pick-Stage last_rr t small =
    Stage-or_then 0 1 4 t (scan nproc 0 0 t) _ (omega arith) (omega arith)
      (scan-Stage nproc 0 0 nproc t (omega arith) (omega arith))
      λ t.
        Stage-or_then 1 2 4 t (scan nproc 1 0 t) _ (omega arith) (omega arith)
          (scan-Stage nproc 1 0 nproc t (omega arith) (omega arith))
          λ t.
            Stage-or_then 2 3 4 t (scan nproc 2 0 t) _ (omega arith) (omega arith)
              (scan-Stage nproc 2 0 nproc t (omega arith) (omega arith))
              λ t. pick_last-Stage last_rr t small

-- Wherever in the last level the round robin starts: the process that the scheduler picks is
-- runnable and stands in its queue at that place, and no queue of a higher level points to a runnable process.
pub pick-highest :
    (last_rr : Option ℕ) (t : Ptable) (l i p : ℕ)
    → start_of last_rr ≤ nproc
    → (pick last_rr t).0 ≡ found l i p
    → (l < 4)
      × (t.queues l i ≡ some p)
      × ((t.procs p).state ≡ runnable)
      × ((l' x : ℕ) → l' < l → x < nproc → ready t l' x ≡ false)
pick-highest last_rr t l i p small e =
    let h = (pick-Stage last_rr t small).hit l i p e in
    (h.1, h.3, h.4, λ l' x. h.5 l' x (omega arith))

-- The scheduler idles only when no queue of any level points to a runnable process: wherever in
-- the last level the round robin starts, it misses no one.
pub pick-idle :
    (last_rr : Option ℕ) (t : Ptable)
    → start_of last_rr ≤ nproc
    → (pick last_rr t).0 ≡ idle
    → (l x : ℕ) → l < 4
    → x < nproc
    → ready t l x ≡ false
pick-idle last_rr t small e l x a b =
    (pick-Stage last_rr t small).miss e l x (omega arith) a (omega arith) b

-- Wherever in the last level the round robin starts, picking changes no process, adds nothing to
-- the queues, and takes no pointer to a runnable process out of them.
pub pick-Kept :
    (last_rr : Option ℕ) (t : Ptable) → start_of last_rr ≤ nproc → Kept t (pick last_rr t).1
pick-Kept last_rr t small = (pick-Stage last_rr t small).kept
