-- ===== src/Fs/Icache/Refs.antt =====
-- References to inodes: taken once more and given back, and to the same inode twice.
use cs537_intro_to_os.Prelude.{
  ℕ, ◌+◌, ◌-◌, ◌%◌, ◌^◌, ◌<◌, ◌≡◌, refl, true, false, ◌==◌, none, some, arith, inl, inr, ◌∙◌, ap,
  update, update_self, update_ne, fun_ext, ℕ_discrete, find_from-hit,
}
use cs537_intro_to_os.Fs.Icache.{
  ninode, Entry, Icache, in_use, is_inode, more_refs, fewer_refs, set_entry, fresh, iget, idup,
  iput,
}
use cs537_intro_to_os.Fs.Icache.Unique.{Unique, iget_lem, iget-Unique, search-scans}

fewer-more : (e : Entry) → in_use e ≡ true → fewer_refs (more_refs e) ≡ e
fewer-more e used =
    let same : ((e.ref + 1) % 2 ^ 32 + (2 ^ 32 - 1)) % 2 ^ 32 ≡ e.ref = ground arith in
    ap (λ r. record e { ref = r }) same

put_back : (c : Icache) (ip : ℕ) (e : Entry) → set_entry (set_entry c ip e) ip (c.inode ip) ≡ c
put_back c ip e =
    ap (λ f. record c { inode = f })
      (fun_ext λ x. elim (ℕ_discrete x ip) [
        | yes s ↦ rw (s, update_self (update c.inode ip e) ip (c.inode ip)) refl
        | no ne ↦ update_ne (update c.inode ip e) ip (c.inode ip) x ne ∙ update_ne c.inode ip e x ne
      ])

-- A reference that `idup` takes and `iput` gives back leaves the cache, the disks and the log of
-- wakeups as they were, for an entry in use.
pub iput-idup : (ip : ℕ) (c : Icache) → in_use (c.inode ip) ≡ true → iput ip (idup ip c) ≡ some c
unfolding iput idup
iput-idup ip c used =
    let e = c.inode ip in
    let here = update_self c.inode ip (more_refs e) in
    let more : ((more_refs e).ref == 1) ≡ false = ground arith in
    let c1 = set_entry c ip (more_refs e) in
    rw (here, more, here)
      (ap (λ v. some (set_entry c1 ip v)) (fewer-more e used)
        ∙ ap some (put_back c ip (more_refs e)))

-- Where an inode has an entry in use, `iget` returns that entry.
iget-found :
    (dev inum ip : ℕ) (c : Icache)
    → Unique c
    → ip < ninode
    → is_inode dev inum (c.inode ip) ≡ true
    → iget dev inum c ≡ some (ip, set_entry c ip (more_refs (c.inode ip)))
unfolding iget
iget-found dev inum ip c u lt holds =
    let hits = λ (x : ℕ). is_inode dev inum (c.inode x) in
    let (j, found, first) = find_from-hit ninode 0 hits ip (omega arith) lt holds in
    let same = u j ip dev inum first.below lt first.passes holds in
    rw (search-scans ninode 0 none dev inum c.inode, found, same) refl

-- The entry that an `iget` returned is returned by the next `iget` of that inode, with one more
-- reference, as long as its count fits in an `int`.
pub iget-iget :
    (dev inum ip : ℕ) (c c1 : Icache)
    → Unique c
    → (c.inode ip).ref + 1 < 2 ^ 31
    → iget dev inum c ≡ some (ip, c1)
    → iget dev inum c1 ≡ some (ip, set_entry c1 ip (more_refs (c1.inode ip)))
iget-iget dev inum ip c c1 u room h =
    let u1 = iget-Unique dev inum c ip c1 u h in
    elim (iget_lem dev inum c ip c1 h) [
      | inl hit ↦
          let now : c1.inode ip ≡ more_refs (c.inode ip) =
            rw hit.after (update_self c.inode ip (more_refs (c.inode ip))) in
          iget-found dev inum ip c1 u1 hit.inside
            (rw now (more-is_inode dev inum (c.inode ip) room hit.holds))
      | inr miss ↦
          let now : c1.inode ip ≡ fresh dev inum (c.inode ip) =
            rw miss.after (update_self c.inode ip (fresh dev inum (c.inode ip))) in
          iget-found dev inum ip c1 u1 miss.inside (rw now (fresh-is_inode dev inum (c.inode ip)))
    ]
  where
    more-is_inode :
        (dev inum : ℕ) (e : Entry)
        → e.ref + 1 < 2 ^ 31
        → is_inode dev inum e ≡ true
        → is_inode dev inum (more_refs e) ≡ true
    more-is_inode dev inum e room holds = ground arith

    fresh-is_inode : (dev inum : ℕ) (e : Entry) → is_inode dev inum (fresh dev inum e) ≡ true
    fresh-is_inode dev inum e = ground arith
