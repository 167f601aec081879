-- ===== src/Shm/Share.antt =====
-- Two processes that attach the same key.
use cs537_intro_to_os.Prelude.{
  ℕ, ◌+◌, ◌*◌, ◌≤◌, ◌<◌, ◌≡◌, ◌≢◌, true, false, not, ◌==◌, arith, update, update_self, some, ap,
  sym, ◌∙◌, bit_or,
}
use cs537_intro_to_os.Tally.{one_if}
use cs537_intro_to_os.Shm.{
  Key, Shm, max_shared_keys, pgsize, no_room, set_key, is_page, attach_pages_to_process,
}
use cs537_intro_to_os.Shm.Users.{nproc, IsValid, users-attached}
use cs537_intro_to_os.Shm.Place.{HasSize, IsClear, map_key-returns}
use cs537_intro_to_os.Shm.Attach.{Attached}
use cs537_intro_to_os.Shm.Branches.{alloc_pages-returns, numbered, attach-fresh, attach-used}
use cs537_intro_to_os.Shm.Outcome.{Made-Attached, used-Attached}

pub none_attached :
    (e c k : ℕ) (s : Shm)
    → IsValid e s
    → c < nproc
    → k < max_shared_keys
    → (s.spages k).refcount ≡ 0
    → (s.procs c).key_addresses k ≡ 0
none_attached e c k s v below lt z =
    let h = users-attached e s k c v lt below in
    zero_address ((s.procs c).key_addresses k) (omega (arith, h, z))
  where
    zero_address : (a : ℕ) → one_if (not (a == 0)) ≤ 0 → a ≡ 0
    zero_address a h = ground arith

-- The first process to attach a key.
first_attach :
    (e c k npages : ℕ) (kalloc : ℕ → ℕ) (s : Shm)
    → IsValid e s
    → c < nproc
    → k < max_shared_keys
    → (s.spages k).refcount ≡ 0
    → HasSize (s.procs c)
    → IsClear (s.procs c)
    → no_room (s.procs c) npages ≡ false
    → ((j : ℕ) → j < npages → (kalloc j ≢ 0) × (is_page e (kalloc j) ≡ true))
    → (location : ℕ) × (t : Shm) × (key : Key) × (attach_pages_to_process c k npages kalloc s
        ≡ some (some location, t))
      × (key.n ≡ npages)
      × (key.refcount ≡ 0)
      × Attached e c k s key t location
first_attach e c k npages kalloc s v below lt z size clear room pages =
    let fresh : ((s.spages k).refcount == 0) ≡ true = ground (arith, z) in
    let (key, runs, made) =
      alloc_pages-returns npages kalloc (numbered c k npages kalloc s)
        (λ j inside. off_zero (kalloc j) (pages j inside).0) in
    let at = update_self s.spages k key in
    let n : (update s.spages k key k).n ≡ npages = ap (λ x. x.n) at ∙ made.n in
    let (location, t, maps) =
      map_key-returns c k (set_key s k key) size clear (ap (λ m. no_room (s.procs c) m) n ∙ room) in
    (
      location,
      t,
      key,
      attach-fresh c k npages kalloc s fresh room key runs ∙ maps,
      made.n,
      made.refcount ∙ z,
      Made-Attached e c k s v below lt size (none_attached e c k s v below lt z) npages kalloc key
          location t fresh (λ j inside. (pages j inside).1) made maps,
    )
  where
    off_zero : (x : ℕ) → x ≢ 0 → (x == 0) ≡ false
    off_zero x ne = ground arith

-- The next process to attach it, with whatever arguments.
next_attach :
    (e d k m : ℕ) (kalloc : ℕ → ℕ) (t : Shm)
    → IsValid e t
    → d < nproc
    → k < max_shared_keys
    → (t.spages k).refcount ≢ 0
    → HasSize (t.procs d)
    → IsClear (t.procs d)
    → (t.procs d).key_addresses k ≡ 0
    → no_room (t.procs d) (t.spages k).n ≡ false
    → (location : ℕ) × (u : Shm) × (attach_pages_to_process d k m kalloc t
        ≡ some (some location, u))
      × Attached e d k t (t.spages k) u location
next_attach e d k m kalloc t v below lt nz size clear new room =
    let used : ((t.spages k).refcount == 0) ≡ false = ground arith in
    let (location, u, maps) = map_key-returns d k t size clear room in
    (
      location,
      u,
      attach-used d k m kalloc t used new ∙ maps,
      used-Attached e d k t v below lt size new location u maps,
    )

-- Process `c` is the first to attach the key `k`, and process `d` the next; both have room, with no page
-- in the way, and `kalloc` returns pages. Then both calls return an address, whatever the arguments of
-- the second, the key has two users, and behind the two addresses the page tables have the same pages.
pub attach-attach :
    (e c d k npages m : ℕ) (kalloc kalloc' : ℕ → ℕ) (s : Shm)
    → IsValid e s
    → c < nproc
    → d < nproc
    → d ≢ c
    → k < max_shared_keys
    → (s.spages k).refcount ≡ 0
    → HasSize (s.procs c)
    → HasSize (s.procs d)
    → IsClear (s.procs c)
    → IsClear (s.procs d)
    → no_room (s.procs c) npages ≡ false
    → no_room (s.procs d) npages ≡ false
    → ((j : ℕ) → j < npages → (kalloc j ≢ 0) × (is_page e (kalloc j) ≡ true))
    → (a b : ℕ) × (t u : Shm) × (attach_pages_to_process c k npages kalloc s ≡ some (some a, t))
      × (attach_pages_to_process d k m kalloc' t ≡ some (some b, u))
      × ((u.spages k).refcount ≡ 2)
      × ((j : ℕ)
          → j < npages
          → ((u.procs d).ptes (b + j * pgsize) ≡ (u.procs c).ptes (a + j * pgsize))
            × ((u.procs c).ptes (a + j * pgsize) ≡ bit_or ((u.spages k).addr j) 7))
attach-attach e c d k npages m kalloc kalloc' s v c_below d_below ne lt z c_size d_size c_clear
      d_clear c_room d_room pages =
    let (a, t, key, first, n, none_yet, h) =
      first_attach e c k npages kalloc s v c_below lt z c_size c_clear c_room pages in
    let him = h.others d ne in
    let t_n : (t.spages k).n ≡ npages = ap (λ x. x.n) h.same ∙ n in
    let t_refs = h.refs in
    let (b, u, second, g) =
      next_attach e d k m kalloc' t h.valid d_below lt (λ q. omega (arith, q, t_refs))
        (rw him d_size) (rw him d_clear)
        (ap (λ p. p.key_addresses k) him ∙ none_attached e d k s v d_below lt z)
        (rw (him, t_n) d_room) in
    let u_refs = g.refs in
    let u_n : (u.spages k).n ≡ npages = ap (λ x. x.n) g.same ∙ t_n in
    let u_addr : (u.spages k).addr ≡ (t.spages k).addr = ap (λ x. x.addr) g.same in
    (
      a,
      b,
      t,
      u,
      first,
      second,
      omega (arith, z, t_refs, u_refs),
      λ j inside.
          let there = g.pages j (omega (arith, inside, u_n)) in
          let here : (u.procs c).ptes (a + j * pgsize) ≡ bit_or ((u.spages k).addr j) 7 =
            ap (λ p. p.ptes (a + j * pgsize)) (g.others c (λ q. ne (sym q)))
            ∙ h.pages j (omega (arith, inside, t_n))
            ∙ ap (λ f. bit_or (f j) 7) (sym u_addr) in
          (there ∙ sym here, here),
    )
