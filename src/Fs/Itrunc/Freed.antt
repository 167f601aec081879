-- ===== src/Fs/Itrunc/Freed.antt =====
-- Which blocks `itrunc` gives back.
use cs537_intro_to_os.Prelude.{
  ℕ, ◌+◌, ◌<◌, ◌≡◌, ◌≢◌, refl, true, false, ◌&&◌, ◌==◌, ltb, leb, if◌then◌else◌, arith, update,
  update_ne, some, List, [], ◌∷◌, ◌++◌, All, All-split, ap, ◌∙◌, sym, inl, inr, Bool-cases,
}
use cs537_intro_to_os.Fs.Block.{Disk, Superblock, bblock, readsb}
use cs537_intro_to_os.Fs.Block.Bitmap.{IsBytes}
use cs537_intro_to_os.Fs.Block.Alloc.{free}
use cs537_intro_to_os.Fs.Block.Free.All.{
  mem, Distinct, InUse, Freed, bfree_all, bfree_all-Freed, bfree_all-append,
}
use cs537_intro_to_os.Fs.Checksum.{get_addr}
use cs537_intro_to_os.Fs.Inode.{Inode, State, ndirect, nindirect, iupdate}
use cs537_intro_to_os.Fs.Itrunc.{iblock, free_named, free_table, itrunc}
use cs537_intro_to_os.Fs.Itrunc.Blocks.{
  direct_blocks, named_blocks, table_blocks, file_blocks, free_indirect-bfree_all, bfree_all-split,
  free_direct-Cut,
}

append_parts :
    (xs ys : List ℕ) (d d' : Disk)
    → bfree_all (xs ++ ys) d ≡ some d'
    → (d1 : Disk) × (bfree_all xs d ≡ some d1) × (bfree_all ys d1 ≡ some d')
unfolding bfree_all
append_parts [] ys d d' h = (d, refl, h)
append_parts (b ∷ xs) ys d d' h =
    let (d2, first, rest) = bfree_all-split b (xs ++ ys) d d' h in
    let (d1, left, right) = append_parts xs ys d2 d' rest in (d1, rw (first, bfree_all) left, right)

abbrev no_table : Inode → Inode
no_table ip = record ip { addrs = update ip.addrs ndirect 0 }

bfree_all-nil : (d d' : Disk) → bfree_all [] d ≡ some d' → d ≡ d'
unfolding bfree_all
bfree_all-nil d d' h = cc

free_named-bfree_all :
    (ip : Inode) (d d' : Disk)
    → let at = get_addr (ip.addrs ndirect) in
      bfree_all (named_blocks nindirect 0 (d at) ++ (at ∷ [])) d ≡ some d'
      → free_named (ip, d) ≡ some (no_table ip, d')
unfolding free_named
free_named-bfree_all ip d d' h =
    let at = get_addr (ip.addrs ndirect) in
    let names = named_blocks nindirect 0 (d at) in
    let (d1, left, right) = append_parts names (at ∷ []) d d' h in
    let (d2, first, rest) = bfree_all-split at [] d1 d' right in
    rw (free_indirect-bfree_all nindirect 0 (d at) d, left, first)
      (ap (λ d. some (no_table ip, d)) (bfree_all-nil d2 d' rest))

free_table-bfree_all :
    (ip : Inode) (d d' : Disk)
    → bfree_all (table_blocks ip d) d ≡ some d'
    → (ip' : Inode) × (free_table (ip, d) ≡ some (ip', d'))
      × (ip'.inum ≡ ip.inum)
      × ((x : ℕ) → ip'.addrs x ≡ (if x == ndirect then 0 else ip.addrs x))
unfolding free_table table_blocks
free_table-bfree_all ip d d' h = elim (Bool-cases (ip.addrs ndirect == 0)) [
  | inl e ↦ (
    ip,
    rw (e, free_table) (ap (λ d. some (ip, d)) (bfree_all-nil d d' (rw (e, table_blocks) at h))),
    refl,
    λ x. ground arith,
  )
  | inr e ↦ (
    no_table ip,
    rw (e, free_table) (free_named-bfree_all ip d d' (rw (e, table_blocks) at h)),
    refl,
    λ x. refl,
  )
]

-- Freeing the direct blocks leaves the block of pointers as it was.
mem-append : (x : ℕ) (xs ys : List ℕ) → mem x ys ≡ true → Distinct (xs ++ ys) → mem x xs ≡ false
mem-append x [] ys inside apart = refl
mem-append x (b ∷ xs) ys inside apart =
    let later = mem-append x xs ys inside apart.1 in
    let ne = behind x b xs ys inside apart.0 in ground arith
  where
    behind :
        (x b : ℕ) (xs ys : List ℕ) → mem x ys ≡ true → mem b (xs ++ ys) ≡ false → (x == b) ≡ false
    behind x b [] ys inside out = ground arith
    behind x b (c ∷ xs) ys inside out = behind x b xs ys inside (ground arith)

mem-last : (x : ℕ) (xs : List ℕ) → mem x (xs ++ (x ∷ [])) ≡ true
mem-last x [] = ground arith
mem-last x (b ∷ xs) = let ih = mem-last x xs in ground arith

Distinct-front : (xs ys : List ℕ) → Distinct (xs ++ ys) → Distinct xs
Distinct-front [] ys apart = tt
Distinct-front (b ∷ xs) ys apart = (front b xs ys apart.0, Distinct-front xs ys apart.1)
  where
    front : (b : ℕ) (xs ys : List ℕ) → mem b (xs ++ ys) ≡ false → mem b xs ≡ false
    front b [] ys out = refl
    front b (c ∷ xs) ys out = let ih = front b xs ys in ground arith

table_blocks-Freed :
    (bs : List ℕ) (ip ip1 : Inode) (d d1 : Disk)
    → ip1.addrs ndirect ≡ ip.addrs ndirect
    → Freed (readsb d) bs d d1
    → All (InUse (readsb d) d) (table_blocks ip d)
    → Distinct (bs ++ table_blocks ip d)
    → table_blocks ip1 d1 ≡ table_blocks ip d
unfolding table_blocks
table_blocks-Freed bs ip ip1 d d1 same f us apart = elim (Bool-cases (ip.addrs ndirect == 0)) [
  | inl e ↦ rw (same, e) refl
  | inr e ↦
      let at = get_addr (ip.addrs ndirect) in
      let names = named_blocks nindirect 0 (d at) in
      let named = All-split (InUse (readsb d) d) names (at ∷ []) (rw (e, table_blocks) at us) in
      let out =
        mem-append at bs (names ++ (at ∷ [])) (mem-last at names) (rw (e, table_blocks) at apart) in
      let stays : d1 at ≡ d at = f.others at out (named.1.0).not_map in rw (same, e, stays) refl
]

iupdate_other : (ip : Inode) (d : Disk) (s : ℕ) → s ≢ iblock ip.inum → iupdate (ip, d) s ≡ d s
unfolding iupdate
iupdate_other ip d s ne = update_ne d (iblock ip.inum) _ s ne

-- The bitmap lies behind the inodes.
iupdate-free :
    (sb : Superblock) (ip : Inode) (d : Disk) (x : ℕ)
    → ip.inum < sb.ninodes
    → free sb (iupdate (ip, d)) x ≡ free sb d x
iupdate-free sb ip d x lt = rw (iupdate_other ip d (bblock x sb.ninodes) (λ e. omega arith)) refl

-- On a disk of bytes, for an inode with a number below the superblock's count whose blocks are in
-- use, all different and neither the superblock nor in the bitmap, where the blocks are the addresses
-- of the direct pointers, the block of pointers, and the words that stand in it: `itrunc` does not
-- panic, leaves a file of size 0 without pointers, and frees these blocks and no
-- other of the device.
pub itrunc-Freed :
    (ip : Inode) (d : Disk)
    → ((s : ℕ) → IsBytes (d s))
    → ip.inum < (readsb d).ninodes
    → All (InUse (readsb d) d) (file_blocks ip d)
    → Distinct (file_blocks ip d)
    → (s' : State) × (itrunc (ip, d) ≡ some s')
      × (s'.0.size ≡ 0)
      × ((x : ℕ) → x < ndirect + 1 → s'.0.addrs x ≡ 0)
      × ((x : ℕ)
          → x < (readsb d).size
          → free (readsb d) s'.1 x
            ≡ (if mem x (file_blocks ip d) then true else free (readsb d) d x))
unfolding itrunc
itrunc-Freed ip d bytes lt us apart =
    let ds = direct_blocks ndirect 0 ip.addrs in
    let ts = table_blocks ip d in
    let (d2, all, f) = bfree_all-Freed (ds ++ ts) d bytes us apart in
    let (us1, us2) = All-split (InUse (readsb d) d) ds ts us in
    let (d1, direct, f1) = bfree_all-Freed ds d bytes us1 (Distinct-front ds ts apart) in
    let rest = sym (bfree_all-append ds ts d d1 direct) ∙ all in
    let (ip1, runs1, c) = free_direct-Cut ndirect 0 ip d d1 direct in
    let at_end : ip1.addrs ndirect ≡ ip.addrs ndirect = c.addrs ndirect in
    let same = table_blocks-Freed ds ip ip1 d d1 at_end f1 us2 apart in
    let (ip2, runs2, number, addrs) = free_table-bfree_all ip1 d1 d2 (rw same rest) in
    let ip3 = record ip2 { size = 0 } in
    (
      (ip3, iupdate (ip3, d2)),
      rw (runs1, runs2) refl,
      refl,
      λ x low. cut x low (ip1.addrs x) (ip.addrs x) (ip2.addrs x) (c.addrs x) (addrs x),
      λ x inside. iupdate-free (readsb d) ip3 d2 x (rw (number, c.number) lt) ∙ f.bits x inside,
    )
  where
    cut :
        (x : ℕ)
        → x < ndirect + 1
        → (a1 a a2 : ℕ) → a1 ≡ (if leb 0 x && ltb x (0 + ndirect) then 0 else a)
        → a2 ≡ (if x == ndirect then 0 else a1)
        → a2 ≡ 0
    cut x low a1 a a2 h1 h2 = ground arith
