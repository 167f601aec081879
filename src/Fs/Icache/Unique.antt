-- ===== src/Fs/Icache/Unique.antt =====
-- Which entry `iget` returns, and that no two entries in use stand for the same inode.
use cs537_intro_to_os.Prelude.{
  ℕ, zero, suc, ◌+◌, ◌<◌, ◌≡◌, ==_iff, ◌⊎◌, refl, Bool, true, false, ◌==◌, Option, none, some,
  arith, update, find_from, find_from-some, find_from-none, inl, inr, Option-cases, ℕ_discrete, ◌∙◌,
  sym, update_self, update_ne, List,
}
use cs537_intro_to_os.Fs.Block.{Disk}
use cs537_intro_to_os.Fs.Icache.{
  ninode, Entry, Icache, in_use, is_inode, more_refs, Search, cached, missed, remember, search,
  fresh, set_entry, iget,
}

abbrev pub or_else : Option ℕ → Option ℕ → Option ℕ
or_else none r = r
or_else (some x) r = some x

-- The loop is two scans in one: for the entry, and for the first free slot.
abbrev pub scans : Option ℕ → Option ℕ → Search
scans (some j) r = cached j
scans none r = missed r

pub search-scans :
    (k i : ℕ) (empty : Option ℕ) (dev inum : ℕ) (c : ℕ → Entry)
    → search k i empty dev inum c
      ≡ scans
          (find_from k i (λ x. is_inode dev inum (c x)))
          (or_else empty (find_from k i (λ x. (c x).ref == 0)))
unfolding search find_from
search-scans zero i none dev inum c = refl
search-scans zero i (some x) dev inum c = refl
search-scans (suc k) i none dev inum c =
    ground (arith, search-scans k (i + 1) (remember none (c i) i) dev inum c)
search-scans (suc k) i (some x) dev inum c =
    ground (arith, search-scans k (i + 1) (some x) dev inum c)

-- `iget` finds the inode in the first entry that holds it.
pub record Hit (dev inum : ℕ) (c : Icache) (ip : ℕ) (c' : Icache) : Type 0 where
  pub inside : ip < ninode
  pub holds : is_inode dev inum (c.inode ip) ≡ true
  pub after : c' ≡ set_entry c ip (more_refs (c.inode ip))

-- No entry holds it, and `iget` takes the first free one.
pub record Miss (dev inum : ℕ) (c : Icache) (ip : ℕ) (c' : Icache) : Type 0 where
  pub inside : ip < ninode
  pub unused : (c.inode ip).ref ≡ 0
  pub absent : (x : ℕ) → x < ninode → is_inode dev inum (c.inode x) ≡ false
  pub after : c' ≡ set_entry c ip (fresh dev inum (c.inode ip))

-- What `iget` returns: the entry that holds the inode, with one more reference; a fresh entry, if no
-- entry holds it and one is free; or the panic, if none is free.
pub iget_lem :
    (dev inum : ℕ) (c : Icache) (ip : ℕ) (c' : Icache)
    → iget dev inum c ≡ some (ip, c')
    → Hit dev inum c ip c' ⊎ Miss dev inum c ip c'
unfolding iget
iget_lem dev inum c ip c' h =
    let hits = λ (x : ℕ). is_inode dev inum (c.inode x) in
    let frees = λ (x : ℕ). (c.inode x).ref == 0 in
    let h1 = rw (search-scans ninode 0 none dev inum c.inode) at h in
    elim (Option-cases (find_from ninode 0 hits)) [
      | inr (j, found) ↦
          let first = find_from-some ninode 0 hits found in
          let h2 = rw found at h1 in
          let here : j ≡ ip = cc in
          let left : set_entry c j (more_refs (c.inode j)) ≡ c' = cc in
          inl (record {
            inside = rw (← here) first.below;
            holds = rw (← here) first.passes;
            after = rw (← here) (sym left);
          })
      | inl miss ↦ elim (Option-cases (find_from ninode 0 frees)) [
        | inl full ↦ let h2 = rw (miss, full) at h1 in absurd (cc)
        | inr (j, found) ↦
            let first = find_from-some ninode 0 frees found in
            let h2 = rw (miss, found) at h1 in
            let here : j ≡ ip = cc in
            let left : set_entry c j (fresh dev inum (c.inode j)) ≡ c' = cc in
            inr (record {
              inside = rw (← here) first.below;
              unused = (==_iff (c.inode ip).ref 0).0 (rw (← here) first.passes);
              absent = λ x lt. find_from-none ninode 0 hits miss x (omega arith) lt;
              after = rw (← here) (sym left);
            })
      ]
    ]

-- No two entries in use stand for the same inode.
abbrev pub Unique : Icache → Type 0
Unique c =
    (x y dev inum : ℕ)
    → x < ninode
    → y < ninode
    → is_inode dev inum (c.inode x) ≡ true
    → is_inode dev inum (c.inode y) ≡ true
    → x ≡ y

-- A change of one entry that, where it is still in use, was in use before and keeps its number.
pub record Keeps (e e' : Entry) : Type 0 where
  pub number : (dev inum : ℕ) → is_inode dev inum e' ≡ true → is_inode dev inum e ≡ true

pub Unique-set :
    (c : Icache) (ip : ℕ) (e' : Entry) (ds : ℕ → Disk) (w : List ℕ)
    → Unique c
    → Keeps (c.inode ip) e'
    → Unique (record { inode = update c.inode ip e'; disks = ds; woken = w })
Unique-set c ip e' ds w u k x y dev inum a b p q = u x y dev inum a b (back x p) (back y q)
  where
    back :
        (z : ℕ)
        → is_inode dev inum (update c.inode ip e' z) ≡ true
        → is_inode dev inum (c.inode z) ≡ true
    back z p = elim (ℕ_discrete z ip) [
      | yes e ↦ rw e (k.number dev inum (rw (e, update_self c.inode ip e') at p))
      | no ne ↦ rw (← update_ne c.inode ip e' z ne) p
    ]

-- An entry in use whose number stays.
pub in_use-Keeps :
    (e e' : Entry) → in_use e ≡ true → e'.dev ≡ e.dev → e'.node.inum ≡ e.node.inum → Keeps e e'
in_use-Keeps e e' used d n = record { number = λ dev inum p. ground arith }

is_inode-in_use : (dev inum : ℕ) (e : Entry) → is_inode dev inum e ≡ true → in_use e ≡ true
is_inode-in_use dev inum e p = ground arith

-- A fresh entry for an inode that no entry holds.
fresh-Unique :
    (c : Icache) (ip dev inum : ℕ)
    → Unique c
    → ((x : ℕ) → x < ninode → is_inode dev inum (c.inode x) ≡ false)
    → Unique (set_entry c ip (fresh dev inum (c.inode ip)))
fresh-Unique c ip dev inum u absent x y dev' inum' a b p q =
    let new = fresh dev inum (c.inode ip) in
    let same : is_inode dev' inum' new ≡ true → (dev ≡ dev') × (inum ≡ inum') =
      λ r. (ground arith, ground arith) in
    elim (ℕ_discrete x ip) [
      | yes e ↦
          let (d, n) = same (rw (e, update_self c.inode ip new) at p) in
          elim (ℕ_discrete y ip) [
            | yes f ↦ e ∙ sym f
            | no f ↦
                let q' = rw (update_ne c.inode ip new y f, ← d, ← n) at q in
                absurd (clash _ q' (absent y b))
          ]
      | no e ↦ elim (ℕ_discrete y ip) [
        | yes f ↦
            let (d, n) = same (rw (f, update_self c.inode ip new) at q) in
            let p' = rw (update_ne c.inode ip new x e, ← d, ← n) at p in
            absurd (clash _ p' (absent x a))
        | no f ↦
            u x y dev' inum' a b (rw (update_ne c.inode ip new x e) at p)
              (rw (update_ne c.inode ip new y f) at q)
      ]
    ]
  where
    clash : (b : Bool) → b ≡ true → b ≡ false → ⊥
    clash b f g = cc

pub iget-Unique :
    (dev inum : ℕ) (c : Icache) (ip : ℕ) (c' : Icache)
    → Unique c
    → iget dev inum c ≡ some (ip, c')
    → Unique c'
iget-Unique dev inum c ip c' u h = elim (iget_lem dev inum c ip c' h) [
  | inl hit ↦
      let e = c.inode ip in
      let used = is_inode-in_use dev inum e hit.holds in
      rw hit.after (
        Unique-set c ip (more_refs e) c.disks c.woken u
          (in_use-Keeps e (more_refs e) used refl refl))
  | inr miss ↦ rw miss.after (fresh-Unique c ip dev inum u miss.absent)
]
