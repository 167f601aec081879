-- ===== src/Fs/Block/Free.antt =====
-- What `bfree` takes back.
pub mod All
use cs537_intro_to_os.Prelude.{
  ℕ, ◌%◌, ◌≡◌, ◌≢◌, refl, Bool, true, false, ◌==◌, if◌then◌else◌, arith, update, none, some,
  ℕ_discrete, ap, ◌∙◌, sym, update_self, update_ne,
}
use cs537_intro_to_os.Fs.Block.{Block, Disk, Superblock, bpb, bblock, unmark, bfree, readsb, bzero}
use cs537_intro_to_os.Fs.Block.Bitmap.{IsBytes, unmark-is_free}
use cs537_intro_to_os.Fs.Block.Alloc.{free}

bzero-IsBytes : (d : Disk) (b : ℕ) → ((s : ℕ) → IsBytes (d s)) → (s : ℕ) → IsBytes (bzero d b s)
unfolding bzero
bzero-IsBytes d b bytes s o = ground (arith, bytes s o)

-- Zeroing another block than the superblock leaves what `readsb` reads.
readsb-bzero : (d : Disk) (b : ℕ) → b ≢ 1 → readsb (bzero d b) ≡ readsb d
unfolding readsb bzero
readsb-bzero d b ne = ground arith

bzero-free :
    (sb : Superblock) (d : Disk) (b x : ℕ)
    → bblock x sb.ninodes ≢ b
    → free sb (bzero d b) x ≡ free sb d x
unfolding bzero
bzero-free sb d b x ne = rw (update_ne d b (λ o. 0) (bblock x sb.ninodes) ne) refl

unmark_here :
    (sb : Superblock) (d : Disk) (b x : ℕ)
    → ((s : ℕ) → IsBytes (d s))
    → let at = bblock b sb.ninodes in
      free sb (update d at (unmark (d at) (b % bpb))) x ≡ (if x == b then true else free sb d x)
unmark_here sb d b x bytes =
    let at = bblock b sb.ninodes in
    elim (ℕ_discrete (bblock x sb.ninodes) at) [
      | yes e ↦
          let test : (x == b) ≡ (x % bpb == b % bpb) = ground arith in
          rw (e, update_self d at (unmark (d at) (b % bpb)), test)
            (unmark-is_free (d at) (b % bpb) (x % bpb) (bytes at))
      | no ne ↦
          let test : (x == b) ≡ false = ground arith in
          rw (test, update_ne d at (unmark (d at) (b % bpb)) (bblock x sb.ninodes) ne) refl
    ]

bfree_parts :
    (d : Disk) (b : ℕ)
    → let d' = bzero d b in
      let at = bblock b (readsb d').ninodes in
      (free (readsb d') d' b ≡ true → bfree d b ≡ none)
      × (free (readsb d') d' b ≡ false → bfree d b ≡ some (update d' at (unmark (d' at) (b % bpb))))
unfolding bfree
bfree_parts d b = (λ e. rw (e, bfree) refl, λ e. rw (e, bfree) refl)

zeroed : (d : Disk) (b at : ℕ) (v : Block) → at ≢ b → (o : ℕ) → update (bzero d b) at v b o ≡ 0
unfolding bzero
zeroed d b at v ne o = ground arith

-- For a block other than the superblock and the block of the bitmap with its own bit, on a disk of
-- bytes: `bfree` panics if the block is free. If it is in use, `bfree` clears its bit and leaves the
-- block itself filled with zeros; a bit that does not stand in the zeroed block is else as it was.
pub bfree_lem :
    (d : Disk) (b : ℕ)
    → ((s : ℕ) → IsBytes (d s))
    → b ≢ 1
    → bblock b (readsb d).ninodes ≢ b
    → (free (readsb d) d b ≡ true → bfree d b ≡ none)
      × (free (readsb d) d b ≡ false
          → (d' : Disk) × (bfree d b ≡ some d')
            × ((x : ℕ)
                → bblock x (readsb d).ninodes ≢ b
                → free (readsb d) d' x ≡ (if x == b then true else free (readsb d) d x))
            × ((o : ℕ) → d' b o ≡ 0))
bfree_lem d b bytes ne apart =
    let same = readsb-bzero d b ne in
    let own = bzero-free (readsb d) d b b apart in
    let parts = bfree_parts d b in
    (
      λ f. parts.0 (rw same (own ∙ f)),
      λ f.
          let d1 = bzero d b in
          let at = bblock b (readsb d1).ninodes in
          (
            update d1 at (unmark (d1 at) (b % bpb)),
            parts.1 (rw same (own ∙ f)),
            λ x other.
                rw same (unmark_here (readsb d) d1 b x (bzero-IsBytes d b bytes))
                ∙ ap (λ (f : Bool). if x == b then true else f) (bzero-free (readsb d) d b x other),
            λ o. zeroed d b at _ (λ e. apart (ap (λ sb. bblock b sb.ninodes) (sym same) ∙ e)) o,
          ),
    )
