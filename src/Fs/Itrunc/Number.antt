-- ===== src/Fs/Itrunc/Number.antt =====
-- `itrunc` leaves the number of the inode.
use cs537_intro_to_os.Prelude.{
  ℕ, zero, suc, ◌+◌, ◌≡◌, ◌==◌, Option, none, some, arith, inl, inr, Bool-cases, ◌∙◌, sym, ap,
  update,
}
use cs537_intro_to_os.Fs.Block.{bfree}
use cs537_intro_to_os.Fs.Checksum.{get_addr}
use cs537_intro_to_os.Fs.Inode.{State, ndirect, nindirect}
use cs537_intro_to_os.Fs.Inode.Size.{>>=-eq-some}
use cs537_intro_to_os.Fs.Itrunc.{free_direct, free_indirect, free_named, free_table, itrunc}

free_direct-inum : (k i : ℕ) (s s' : State) → free_direct k i s ≡ some s' → s'.0.inum ≡ s.0.inum
unfolding free_direct
free_direct-inum zero i s s' h = ground arith
free_direct-inum (suc k) i (ip, d) s' h = elim (Bool-cases (ip.addrs i == 0)) [
  | inl e ↦ free_direct-inum k (i + 1) (ip, d) s' (rw (e, free_direct) at h)
  | inr e ↦
      let (d1, _, rest) =
        >>=-eq-some (bfree d (get_addr (ip.addrs i))) _ s' (rw (e, free_direct) at h) in
      free_direct-inum k (i + 1) (record ip { addrs = update ip.addrs i 0 }, d1) s' rest
]

abbrev inum_of : Option State → ℕ
inum_of none = 0
inum_of (some s) = s.0.inum

free_named-inum : (s s' : State) → free_named s ≡ some s' → s'.0.inum ≡ s.0.inum
unfolding free_named
free_named-inum (ip, d) s' h =
    let at = get_addr (ip.addrs ndirect) in
    let (d1, _, rest) = >>=-eq-some (free_indirect nindirect 0 (d at) d) _ s' h in
    let (d2, _, last) = >>=-eq-some (bfree d1 at) _ s' rest in sym (ap inum_of last)

free_table-inum : (s s' : State) → free_table s ≡ some s' → s'.0.inum ≡ s.0.inum
unfolding free_table
free_table-inum (ip, d) s' h = elim (Bool-cases (ip.addrs ndirect == 0)) [
  | inl e ↦ sym (ap inum_of (rw (e, free_table) at h))
  | inr e ↦ free_named-inum (ip, d) s' (rw (e, free_table) at h)
]

pub itrunc-inum : (s s' : State) → itrunc s ≡ some s' → s'.0.inum ≡ s.0.inum
unfolding itrunc
itrunc-inum s s' h =
    let (s1, e1, rest) = >>=-eq-some (free_direct ndirect 0 s) _ s' h in
    let (s2, e2, last) = >>=-eq-some (free_table s1) _ s' rest in
    sym (ap inum_of last) ∙ free_table-inum s1 s2 e2 ∙ free_direct-inum ndirect 0 s s1 e1
