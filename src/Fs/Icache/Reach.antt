-- ===== src/Fs/Icache/Reach.antt =====
-- The inode cache through any sequence of its operations.
use cs537_intro_to_os.Prelude.{
  ℕ, ◌≡◌, refl, true, ◌⊎◌, false, ◌&&◌, ◌==◌, none, some, arith, inl, inr, Bool-cases, update,
  update_self, ◌∷◌,
}
use cs537_intro_to_os.Fs.Block.{Disk}
use cs537_intro_to_os.Fs.Inode.{Inode, iupdate}
use cs537_intro_to_os.Fs.Inode.Size.{>>=-eq-some}
use cs537_intro_to_os.Fs.Itrunc.Number.{itrunc-inum}
use cs537_intro_to_os.Fs.Itrunc.{load, itrunc}
use cs537_intro_to_os.Fs.Icache.{
  Entry, Icache, in_use, more_refs, fewer_refs, set_entry, iget, idup, ilock, iunlock, iput,
  drop_inode, free_inode, claim_inode, ialloc,
}
use cs537_intro_to_os.Fs.Icache.Unique.{Unique, Unique-set, in_use-Keeps, iget-Unique}

-- A step of a process that holds a reference to the inode, where the code asks for one.
pub data Step : Icache → Icache → Type 0 where
  gets : {c c' : Icache} (dev inum ip : ℕ) → iget dev inum c ≡ some (ip, c') → Step c c'
  allocates : {c c' : Icache} (dev type ip : ℕ) → ialloc dev type c ≡ some (ip, c') → Step c c'
  duplicates : {c : Icache} (ip : ℕ) → in_use (c.inode ip) ≡ true → Step c (idup ip c)
  locks : {c c' : Icache} (ip : ℕ) → ilock ip c ≡ some (some c') → Step c c'
  unlocks : {c c' : Icache} (ip : ℕ) → iunlock ip c ≡ some c' → Step c c'
  puts : {c c' : Icache} (ip : ℕ) → in_use (c.inode ip) ≡ true → iput ip c ≡ some c' → Step c c'

-- What the steps lead to from a cache without references, as `iinit` leaves it.
pub data Reached : Icache → Type 0 where
  starts : {c : Icache} → ((x : ℕ) → (c.inode x).ref ≡ 0) → Reached c
  goes_on : {c c' : Icache} → Reached c → Step c c' → Reached c'

-- What an operation leaves, named by the equation that the operation returns it.
get_some {ℓ} : {A : Type ℓ} (a b : A) → some a ≡ some b → b ≡ a
get_some a b h = cc

idup-Unique : (ip : ℕ) (c : Icache) → Unique c → in_use (c.inode ip) ≡ true → Unique (idup ip c)
unfolding idup
idup-Unique ip c u used =
    let e = c.inode ip in
    Unique-set c ip (more_refs e) c.disks c.woken u (in_use-Keeps e (more_refs e) used refl refl)

drop_inode-Unique :
    (ip : ℕ) (c c' : Icache)
    → Unique c
    → in_use (c.inode ip) ≡ true
    → drop_inode ip c ≡ some c'
    → Unique c' × (in_use (c'.inode ip) ≡ true)
unfolding drop_inode
drop_inode-Unique ip c c' u used h =
    let e = c.inode ip in
    elim (Bool-cases e.busy) [
      | inl b ↦ absurd (clash c' (rw (b, drop_inode) at h))
      | inr b ↦
          let ((node, d), cut, rest) =
            >>=-eq-some (itrunc (e.node, c.disks e.dev)) _ c' (rw (b, drop_inode) at h) in
          let freed = record node { type = 0 } in
          let e' = record e { busy = false; valid = false; node = freed } in
          let ds = update c.disks e.dev (iupdate (freed, d)) in
          let w = ip ∷ c.woken in
          let left =
            get_some (record { inode = update c.inode ip e'; disks = ds; woken = w }) c' rest in
          let keeps =
            in_use-Keeps e e' used refl (itrunc-inum (e.node, c.disks e.dev) (node, d) cut) in
          (rw left (Unique-set c ip e' ds w u keeps), rw left (rw (update_self c.inode ip e') used))
    ]
  where
    clash : (c : Icache) → none ≡ some c → ⊥
    clash c h = cc

fewer-Unique :
    (ip : ℕ) (c : Icache)
    → Unique c
    → in_use (c.inode ip) ≡ true
    → Unique (set_entry c ip (fewer_refs (c.inode ip)))
fewer-Unique ip c u used =
    let e = c.inode ip in
    Unique-set c ip (fewer_refs e) c.disks c.woken u (in_use-Keeps e (fewer_refs e) used refl refl)

iput-Unique :
    (ip : ℕ) (c c' : Icache)
    → Unique c
    → in_use (c.inode ip) ≡ true
    → iput ip c ≡ some c'
    → Unique c'
unfolding iput
iput-Unique ip c c' u used h =
    let e = c.inode ip in
    elim (Bool-cases (e.ref == 1 && (e.valid && e.node.nlink == 0))) [
      | inl last ↦
          let (c1, dropped, rest) = >>=-eq-some (drop_inode ip c) _ c' (rw (last, iput) at h) in
          let (u1, used1) = drop_inode-Unique ip c c1 u used dropped in
          rw (get_some (set_entry c1 ip (fewer_refs (c1.inode ip))) c' rest)
            (fewer-Unique ip c1 u1 used1)
      | inr more ↦
          rw (get_some (set_entry c ip (fewer_refs e)) c' (rw (more, iput) at h))
            (fewer-Unique ip c u used)
    ]

iunlock-Unique : (ip : ℕ) (c c' : Icache) → Unique c → iunlock ip c ≡ some c' → Unique c'
unfolding iunlock
iunlock-Unique ip c c' u h =
    let e = c.inode ip in
    let e' = record e { busy = false } in
    let left : c' ≡ record { inode = update c.inode ip e'; disks = c.disks; woken = ip ∷ c.woken } =
      ground arith in
    let used : in_use e ≡ true = ground arith in
    rw left (Unique-set c ip e' c.disks (ip ∷ c.woken) u (in_use-Keeps e e' used refl refl))

load-inum : (ip : Inode) (d : Disk) → (load ip d).inum ≡ ip.inum
unfolding load
load-inum ip d = refl

-- What `ilock` leaves, with what it has loaded or without.
abbrev locked : (ip : ℕ) → Entry → Icache → Icache
locked ip e c = set_entry c ip (record e { busy = true })

abbrev loaded : Icache → Entry → Entry
loaded c e = record e { valid = true; node = load e.node (c.disks e.dev) }

pub ilock_lem :
    (ip : ℕ) (c c' : Icache)
    → ilock ip c ≡ some (some c')
    → (in_use (c.inode ip) ≡ true)
      × ((c' ≡ locked ip (c.inode ip) c) ⊎ (c' ≡ locked ip (loaded c (c.inode ip)) c))
unfolding ilock
ilock_lem ip c c' h =
    let e = c.inode ip in
    elim (Bool-cases (in_use e)) [
      | inr off ↦ absurd (clash (rw (off, ilock) at h))
      | inl on ↦ (
        on,
        elim (Bool-cases e.valid) [ inl v ↦ inl (ground arith) | inr v ↦ inr (ground arith) ],
      )
    ]
  where
    clash : none ≡ some (some c') → ⊥
    clash f = cc

ilock-Unique : (ip : ℕ) (c c' : Icache) → Unique c → ilock ip c ≡ some (some c') → Unique c'
ilock-Unique ip c c' u h =
    let e = c.inode ip in
    let (used, cases) = ilock_lem ip c c' h in
    let e1 = record e { busy = true } in
    let e2 = record (loaded c e) { busy = true } in
    elim cases [
      | inl left ↦ rw left (Unique-set c ip e1 c.disks c.woken u (in_use-Keeps e e1 used refl refl))
      | inr left ↦
          let number = load-inum e.node (c.disks e.dev) in
          rw left (Unique-set c ip e2 c.disks c.woken u (in_use-Keeps e e2 used refl number))
    ]

ialloc-Unique :
    (dev type ip : ℕ) (c c' : Icache) → Unique c → ialloc dev type c ≡ some (ip, c') → Unique c'
unfolding ialloc
ialloc-Unique dev type ip c c' u h =
    let d = c.disks dev in
    let (inum, found, rest) = >>=-eq-some (free_inode d) _ (ip, c') h in
    let ds = update c.disks dev (claim_inode inum type d) in
    iget-Unique dev inum (record c { disks = ds }) ip c' u rest

Step-Unique : (c c' : Icache) → Unique c → Step c c' → Unique c'
Step-Unique c c' u (gets dev inum ip h) = iget-Unique dev inum c ip c' u h
Step-Unique c c' u (allocates dev type ip h) = ialloc-Unique dev type ip c c' u h
Step-Unique c c' u (duplicates ip used) = idup-Unique ip c u used
Step-Unique c c' u (locks ip h) = ilock-Unique ip c c' u h
Step-Unique c c' u (unlocks ip h) = iunlock-Unique ip c c' u h
Step-Unique c c' u (puts ip used h) = iput-Unique ip c c' u used h

no_refs-Unique : (c : Icache) → ((x : ℕ) → (c.inode x).ref ≡ 0) → Unique c
no_refs-Unique c none_used x y dev inum a b p q = let z = none_used x in absurd (ground arith)

-- Whatever sequence of `iget`, `ialloc`, `idup`, `ilock`, `iunlock` and `iput`, each as one step, is run
-- from a cache without references, where `idup` and `iput` are given an entry in use: no two
-- entries in use stand for the same inode of a device.
pub Reached-Unique : (c : Icache) → Reached c → Unique c
Reached-Unique c (starts unused) = no_refs-Unique c unused
Reached-Unique c (goes_on {c = before} past step) =
    Step-Unique before c (Reached-Unique before past) step
