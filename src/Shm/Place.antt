-- ===== src/Shm/Place.antt =====
-- Where `attach_pages_to_process` maps the pages of a key.
use cs537_intro_to_os.Prelude.{
  ℕ, ◌+◌, ◌*◌, ◌≤◌, ◌<◌, ◌≡◌, refl, true, false, ◌==◌, arith, Option, none, some, sym, ◌∙◌,
  Bool-cases, Option-cases, inl, inr, bit_and,
}
use cs537_intro_to_os.Shm.{
  Proc, Shm, pgsize, minus, usertop, no_room, set_key, set_proc, shm_inc_refcount, attached_at,
  map_pages, map_key,
}
use cs537_intro_to_os.Shm.Map.{Mapped, map_pages-Mapped, map_pages-returns}

-- A process whose memory ends below its shared pages.
pub record HasSize (p : Proc) : Type 0 where
  pub positive : 0 < p.sz
  pub below : p.sz ≤ p.current_top
  pub inside : p.current_top ≤ usertop

-- The pages between the memory of a process and its shared pages are not mapped.
abbrev pub IsClear : Proc → Type 0
IsClear p = (a : ℕ) → p.sz ≤ a → a < p.current_top → (bit_and (p.ptes a) 1 == 1) ≡ false

-- What `map_key` leaves in `t`, where it returns `location`.
pub record MappedKey (c k : ℕ) (s t : Shm) (location : ℕ) : Type 0 where
  pub q : Proc
  pub mapped : Mapped (s.spages k).n 0 location (s.spages k).addr (s.procs c) q
  pub fits : location + pgsize * (s.spages k).n ≡ (s.procs c).current_top
  pub above : (s.procs c).sz ≤ location
  pub result :
      t ≡ set_key (set_proc s c (attached_at k location q)) k (shm_inc_refcount (s.spages k))

placed :
    (p : Proc) (n : ℕ)
    → HasSize p
    → no_room p n ≡ false
    → (minus p.current_top (pgsize * n) + pgsize * n ≡ p.current_top)
      × (p.sz ≤ minus p.current_top (pgsize * n))
placed p n h room =
    let below = h.below in
    let inside = h.inside in
    let gap : minus p.current_top p.sz + p.sz ≡ p.current_top = omega (arith, below, inside) in
    let much : n * pgsize ≤ minus p.current_top p.sz = ground (arith, room) in
    (omega (arith, below, inside, gap, much), omega (arith, below, inside, gap, much))

module _ (c k : ℕ) (s : Shm) where
  pub no_room-none : no_room (s.procs c) (s.spages k).n ≡ true → map_key c k s ≡ some (none, s)
  unfolding map_key
  no_room-none e = rw e refl

  pub stuck-none :
      no_room (s.procs c) (s.spages k).n ≡ false
      → map_pages
          (s.spages k).n
          0
          (minus (s.procs c).current_top (pgsize * (s.spages k).n))
          (s.spages k).addr
          (s.procs c)
        ≡ none
      → map_key c k s ≡ none
  unfolding map_key
  stuck-none e f = rw (e, f) refl

  pub map_key-some :
      (q : Proc)
      → no_room (s.procs c) (s.spages k).n ≡ false
      → map_pages
          (s.spages k).n
          0
          (minus (s.procs c).current_top (pgsize * (s.spages k).n))
          (s.spages k).addr
          (s.procs c)
        ≡ some q
      → map_key c k s
        ≡ some (
          some (minus (s.procs c).current_top (pgsize * (s.spages k).n)),
          set_key
              (set_proc s c
                (attached_at k (minus (s.procs c).current_top (pgsize * (s.spages k).n)) q))
              k
              (shm_inc_refcount (s.spages k)),
        )
  unfolding map_key
  map_key-some q e f = rw (e, f) refl

  -- A call that returns an address has mapped the pages there.
  pub map_key-MappedKey :
      (location : ℕ) (t : Shm)
      → HasSize (s.procs c)
      → map_key c k s ≡ some (some location, t)
      → MappedKey c k s t location
  map_key-MappedKey location t size h = elim (Bool-cases (no_room (s.procs c) (s.spages k).n)) [
    | inl full ↦ absurd (refused (sym (no_room-none full) ∙ h))
    | inr room ↦
        elim (Option-cases (map_pages (s.spages k).n 0 there (s.spages k).addr (s.procs c))) [
          | inl fails ↦ absurd (panics (sym (stuck-none room fails) ∙ h))
          | inr (q, maps) ↦ build q room maps (same _ _ (sym (map_key-some q room maps) ∙ h))
        ]
  ]
    where
      there : ℕ
      there = minus (s.procs c).current_top (pgsize * (s.spages k).n)

      refused :
          {u : Shm}
          → ◌≡◌ {A = Option (Option ℕ × Shm)} (some (none, u)) (some (some location, t))
          → ⊥
      refused e = cc

      panics : {x : Option ℕ × Shm} → none ≡ some x → ⊥
      panics e = cc

      same :
          (a : ℕ) (u : Shm)
          → ◌≡◌ {A = Option (Option ℕ × Shm)} (some (some a, u)) (some (some location, t))
          → (location ≡ a) × (t ≡ u)
      same a u e = (cc, cc)

      build :
          (q : Proc)
          → no_room (s.procs c) (s.spages k).n ≡ false
          → map_pages (s.spages k).n 0 there (s.spages k).addr (s.procs c) ≡ some q
          → (location ≡ there)
            × (t ≡ set_key (set_proc s c (attached_at k there q)) k (shm_inc_refcount (s.spages k)))
          → MappedKey c k s t location
      build q room maps (at, result) =
          let (fits, above) = placed (s.procs c) (s.spages k).n size room in
          record {
            q = q;
            mapped = rw at (map_pages-Mapped _ _ _ _ _ _ maps);
            fits = rw at fits;
            above = rw at above;
            result = rw at result;
          }

  -- With room, and with no page in the way, it returns an address.
  pub map_key-returns :
      HasSize (s.procs c)
      → IsClear (s.procs c)
      → no_room (s.procs c) (s.spages k).n ≡ false
      → (location : ℕ) × (t : Shm) × (map_key c k s ≡ some (some location, t))
  map_key-returns size clear room =
      let p = s.procs c in
      let (fits, above) = placed p (s.spages k).n size room in
      let (q, maps) =
        map_pages-returns (s.spages k).n 0 _ (s.spages k).addr p
          λ j from lt. clear _ (omega (arith, above)) (omega (arith, fits, lt)) in
      (_, _, map_key-some q room maps)
