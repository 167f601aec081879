-- ===== src/Shm/Branches.antt =====
-- The ways through `attach_pages_to_process` for a process without the key.
use cs537_intro_to_os.Prelude.{
  ℕ, zero, suc, ◌+◌, ◌≤◌, ◌<◌, ◌≡◌, ◌⊎◌, refl, Bool, true, false, ◌==◌, arith, update, update_self,
  update_ne, ℕ_discrete, none, some, ◌∙◌, Bool-cases, inl, inr,
}
use cs537_intro_to_os.Shm.{
  Key, Shm, no_room, set_key, map_key, alloc_pages, attach_pages_to_process,
}

-- `b` is key `a` with the `m` pages from the `i`-th on from `kalloc`.
pub record Made (m i : ℕ) (kalloc : ℕ → ℕ) (a b : Key) : Type 0 where
  pub n : b.n ≡ a.n
  pub refcount : b.refcount ≡ a.refcount
  pub before : (j : ℕ) → j < i → b.addr j ≡ a.addr j
  pub at : (j : ℕ) → i ≤ j → j < i + m → b.addr j ≡ kalloc j
  pub pages : (j : ℕ) → i ≤ j → j < i + m → (kalloc j == 0) ≡ false

Made-nothing : (i : ℕ) (kalloc : ℕ → ℕ) (a : Key) → Made zero i kalloc a a
Made-nothing i kalloc a = record {
  n = refl;
  refcount = refl;
  before = λ j lt. refl;
  at = λ j from below. absurd (omega arith);
  pages = λ j from below. absurd (omega arith);
}

-- One page, then the others.
Made-more :
    (m i : ℕ) (kalloc : ℕ → ℕ) (a b : Key)
    → (kalloc i == 0) ≡ false
    → Made m (i + 1) kalloc (record a { addr = update a.addr i (kalloc i) }) b
    → Made (suc m) i kalloc a b
Made-more m i kalloc a b page made = record {
  n = made.n;
  refcount = made.refcount;
  before = λ j lt. made.before j (omega arith) ∙ update_ne a.addr i (kalloc i) j (λ q. omega arith);
  at = λ j from below. elim (ℕ_discrete j i) [
    | yes q ↦ rw q (made.before i (omega arith) ∙ update_self a.addr i (kalloc i))
    | no ne ↦ made.at j (omega arith) (omega arith)
  ];
  pages = λ j from below. elim (ℕ_discrete j i) [
    | yes q ↦ rw q page
    | no ne ↦ made.pages j (omega arith) (omega arith)
  ];
}

-- All pages are allocated, or one call of `kalloc` fails.
pub alloc_cases :
    (m i : ℕ) (kalloc : ℕ → ℕ) (a : Key)
    → ((b : Key) × (alloc_pages m i kalloc a ≡ (true, b)) × Made m i kalloc a b)
      ⊎ ((b : Key) × (j : ℕ) × (alloc_pages m i kalloc a ≡ (false, b))
          × (i ≤ j)
          × (j < i + m)
          × ((kalloc j == 0) ≡ true))
unfolding alloc_pages
alloc_cases zero i kalloc a = inl (a, refl, Made-nothing i kalloc a)
alloc_cases (suc m) i kalloc a =
    let a' : Key = record a { addr = update a.addr i (kalloc i) } in
    elim (Bool-cases (kalloc i == 0)) [
      | inl empty ↦ inr (a', i, rw empty refl, omega arith, omega arith, empty)
      | inr page ↦ elim (alloc_cases m (i + 1) kalloc a') [
        | inl (b, runs, made) ↦ inl (b, rw page runs, Made-more m i kalloc a b page made)
        | inr (b, j, runs, from, below, empty) ↦
            inr (b, j, rw page runs, omega arith, omega arith, empty)
      ]
    ]

pub alloc_pages-returns :
    (m : ℕ) (kalloc : ℕ → ℕ) (a : Key)
    → ((j : ℕ) → j < m → (kalloc j == 0) ≡ false)
    → (b : Key) × (alloc_pages m 0 kalloc a ≡ (true, b)) × Made m 0 kalloc a b
alloc_pages-returns m kalloc a pages = elim (alloc_cases m 0 kalloc a) [
  | inl made ↦ made
  | inr (b, j, runs, from, below, empty) ↦ absurd (clash _ empty (pages j (omega arith)))
]
  where
    clash : (b : Bool) → b ≡ true → b ≡ false → ⊥
    clash b f g = cc

module _ (c k npages : ℕ) (kalloc : ℕ → ℕ) (s : Shm) where
  abbrev pub numbered : Key
  numbered = record (s.spages k) { n = npages }

  pub no_room-refused :
      ((s.spages k).refcount == 0) ≡ true
      → no_room (s.procs c) npages ≡ true
      → attach_pages_to_process c k npages kalloc s ≡ some (none, set_key s k numbered)
  unfolding attach_pages_to_process
  no_room-refused fresh full = rw (fresh, full) refl

  pub attach-failed :
      ((s.spages k).refcount == 0) ≡ true
      → no_room (s.procs c) npages ≡ false
      → (key : Key) → alloc_pages npages 0 kalloc numbered ≡ (false, key)
      → attach_pages_to_process c k npages kalloc s ≡ some (none, set_key s k key)
  unfolding attach_pages_to_process
  attach-failed fresh room key runs = rw (fresh, room, runs) refl

  pub attach-fresh :
      ((s.spages k).refcount == 0) ≡ true
      → no_room (s.procs c) npages ≡ false
      → (key : Key) → alloc_pages npages 0 kalloc numbered ≡ (true, key)
      → attach_pages_to_process c k npages kalloc s ≡ map_key c k (set_key s k key)
  unfolding attach_pages_to_process
  attach-fresh fresh room key runs = rw (fresh, room, runs) refl

  pub attach-used :
      ((s.spages k).refcount == 0) ≡ false
      → (s.procs c).key_addresses k ≡ 0
      → attach_pages_to_process c k npages kalloc s ≡ map_key c k s
  unfolding attach_pages_to_process
  attach-used used new = rw (used, new) refl
