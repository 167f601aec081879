-- ===== src/Fs/Block/Alloc.antt =====
-- What `balloc` hands out and `bfree` takes back, over all bits of the bitmap.
use cs537_intro_to_os.Prelude.{
  ℕ, zero, suc, ◌+◌, ◌-◌, ◌*◌, ◌/◌, ◌%◌, ◌<◌, ◌≤◌, ◌≡◌, refl, Bool, true, false, ◌==◌,
  if◌then◌else◌, arith, update, Option, none, some, find_from, find_from-some, find_from-none,
  IsFirst, Option-cases, inl, inr, ℕ_discrete, ap, ◌∙◌, sym, update_self, update_ne, dec_lt,
}
use cs537_intro_to_os.Fs.Block.{
  Disk, Superblock, bpb, bblock, is_free, mark, balloc_loop, balloc, readsb,
}
use cs537_intro_to_os.Fs.Block.Bitmap.{IsBytes, mark-is_free}

-- The bit of block `n` in the bitmap is 0.
abbrev pub free : Superblock → Disk → ℕ → Bool
free sb d n = is_free (d (bblock n sb.ninodes)) (n % bpb)

-- A successful allocation from block `b` on.
pub record Allocated (sb : Superblock) (b : ℕ) (d : Disk) (n : ℕ) (d' : Disk) : Type 0 where
  pub from : b ≤ n
  pub was_free : free sb d n ≡ true
  pub first : (x : ℕ) → b ≤ x → x < n → free sb d x ≡ false
  pub marked : (x : ℕ) → free sb d' x ≡ (if x == n then false else free sb d x)

-- The bit of block `c * bpb + bi`, when the loop stands at block `c * bpb`.
free_here :
    (sb : Superblock) (d : Disk) (c bi : ℕ)
    → bi < bpb
    → free sb d (c * bpb + bi) ≡ is_free (d (bblock (c * bpb) sb.ninodes)) bi
free_here sb d c bi lt =
    let at : bblock (c * bpb + bi) sb.ninodes ≡ bblock (c * bpb) sb.ninodes = omega arith in
    let bit : (c * bpb + bi) % bpb ≡ bi = omega arith in rw (at, bit) refl

mark_here :
    (sb : Superblock) (d : Disk) (c bi x : ℕ)
    → bi < bpb
    → ((s : ℕ) → IsBytes (d s))
    → let at = bblock (c * bpb) sb.ninodes in
      free sb (update d at (mark (d at) bi)) x ≡ (if x == c * bpb + bi then false else free sb d x)
mark_here sb d c bi x lt bytes =
    let at = bblock (c * bpb) sb.ninodes in
    elim (ℕ_discrete (bblock x sb.ninodes) at) [
      | yes e ↦
          let test : (x == c * bpb + bi) ≡ (x % bpb == bi) = ground arith in
          rw (e, update_self d at (mark (d at) bi), test)
            (mark-is_free (d at) bi (x % bpb) (bytes at))
      | no ne ↦
          let test : (x == c * bpb + bi) ≡ false = ground arith in
          rw (test, update_ne d at (mark (d at) bi) (bblock x sb.ninodes) ne) refl
    ]

-- The whole `k`-round loop: with a free bit in the range it succeeds, at or before that bit.
Success : Superblock → (b x : ℕ) → Disk → Option (ℕ × Disk) → Type 0
Success sb b x d r = (n : ℕ) × (d' : Disk) × (r ≡ some (n, d')) × (n ≤ x) × Allocated sb b d n d'

Success-skip :
    (sb : Superblock) (b x : ℕ) (d : Disk) (r : Option (ℕ × Disk))
    → ((y : ℕ) → b ≤ y → y < b + bpb → free sb d y ≡ false)
    → Success sb (b + bpb) x d r
    → Success sb b x d r
unfolding Success
Success-skip sb b x d r full (n, d', e, le, a) = (
  n,
  d',
  e,
  le,
  record {
    from = omega arith;
    was_free = a.was_free;
    first = λ y lo lt. elim (dec_lt y (b + bpb)) [
      | yes early ↦ full y lo early
      | no late ↦ a.first y (omega arith) lt
    ];
    marked = a.marked;
  },
)

full_block :
    (sb : Superblock) (d : Disk) (c : ℕ)
    → find_from bpb 0 (is_free (d (bblock (c * bpb) sb.ninodes))) ≡ none
    → (y : ℕ) → c * bpb ≤ y
    → y < c * bpb + bpb
    → free sb d y ≡ false
full_block sb d c e y lo hi =
    let place : c * bpb + (y - c * bpb) ≡ y = omega arith in
    ap (free sb d) (sym place)
    ∙ free_here sb d c (y - c * bpb) (omega arith)
    ∙ find_from-none bpb 0 (is_free (d (bblock (c * bpb) sb.ninodes))) e (y - c * bpb) (omega arith)
        (omega arith)

found_block :
    (sb : Superblock) (d : Disk) (c bi x : ℕ)
    → ((s : ℕ) → IsBytes (d s))
    → IsFirst (is_free (d (bblock (c * bpb) sb.ninodes))) 0 bpb bi
    → let at = bblock (c * bpb) sb.ninodes in
      Allocated sb (c * bpb) d (c * bpb + bi) (update d at (mark (d at) bi))
found_block sb d c bi x bytes f = record {
  from = omega arith;
  was_free = free_here sb d c bi f.below ∙ f.passes;
  first = λ y lo lt.
      let place : c * bpb + (y - c * bpb) ≡ y = omega arith in
      let inside = f.below in
      ap (free sb d) (sym place)
      ∙ free_here sb d c (y - c * bpb) (omega arith)
      ∙ f.first (y - c * bpb) (omega arith) (omega arith);
  marked = λ y. mark_here sb d c bi y f.below bytes;
}

-- The step of the loop at bitmap block `c`.
loop_hit :
    (k c bi : ℕ) (sb : Superblock) (d : Disk)
    → c * bpb < sb.size
    → find_from bpb 0 (is_free (d (bblock (c * bpb) sb.ninodes))) ≡ some bi
    → let at = bblock (c * bpb) sb.ninodes in
      balloc_loop (suc k) (c * bpb) sb d ≡ some (c * bpb + bi, update d at (mark (d at) bi))
unfolding balloc_loop
loop_hit k c bi sb d lt e = ground arith

loop_miss :
    (k c : ℕ) (sb : Superblock) (d : Disk)
    → c * bpb < sb.size
    → find_from bpb 0 (is_free (d (bblock (c * bpb) sb.ninodes))) ≡ none
    → balloc_loop (suc k) (c * bpb) sb d ≡ balloc_loop k (c * bpb + bpb) sb d
unfolding balloc_loop
loop_miss k c sb d lt e = ground arith

loop-Success :
    (k c x : ℕ) (sb : Superblock) (d : Disk)
    → ((s : ℕ) → IsBytes (d s))
    → c * bpb ≤ x
    → x < (c + k) * bpb
    → x / bpb * bpb < sb.size
    → free sb d x ≡ true
    → Success sb (c * bpb) x d (balloc_loop k (c * bpb) sb d)
unfolding Success
loop-Success zero c x sb d bytes lo hi cover f = absurd (omega arith)
loop-Success (suc k) c x sb d bytes lo hi cover f =
    let test = is_free (d (bblock (c * bpb) sb.ninodes)) in
    let inside : c * bpb < sb.size = omega arith in
    elim (Option-cases (find_from bpb 0 test)) [
      | inl miss ↦
          let full = full_block sb d c miss in
          let beyond : c * bpb + bpb ≤ x = elim (dec_lt x (c * bpb + bpb)) [
            | yes early ↦ absurd (clash _ f (full x lo early))
            | no late ↦ omega arith
          ] in
          let step : c * bpb + bpb ≡ (c + 1) * bpb = omega arith in
          rw (loop_miss k c sb d inside miss) (
            Success-skip sb (c * bpb) x d (balloc_loop k (c * bpb + bpb) sb d) full
              (rw step (loop-Success k (c + 1) x sb d bytes (omega arith) (omega arith) cover f)))
      | inr (bi, hit) ↦
          let first : IsFirst test 0 bpb bi = find_from-some bpb 0 test hit in
          let a = found_block sb d c bi x bytes first in
          (_, _, loop_hit k c bi sb d inside hit, before a.first, a)
    ]
  where
    clash : (b : Bool) → b ≡ true → b ≡ false → ⊥
    clash b g h = cc

    before : {n : ℕ} → ((y : ℕ) → c * bpb ≤ y → y < n → free sb d y ≡ false) → n ≤ x
    before {n} none_free = elim (dec_lt x n) [
      | yes early ↦ absurd (clash _ f (none_free x lo early))
      | no late ↦ omega arith
    ]

-- On a disk of bytes, if a block that the scanned part of the bitmap covers is free, `balloc`
-- succeeds: it hands out the first free block, whose bit it sets, and changes no other bit.
pub balloc-Allocated :
    (d : Disk) (x : ℕ)
    → ((s : ℕ) → IsBytes (d s))
    → x / bpb * bpb < (readsb d).size
    → free (readsb d) d x ≡ true
    → (n : ℕ) × (d' : Disk) × (balloc d ≡ some (n, d')) × (n ≤ x) × Allocated (readsb d) 0 d n d'
unfolding balloc Success
balloc-Allocated d x bytes cover f =
    loop-Success ((readsb d).size / bpb + 1) 0 x (readsb d) d bytes (omega arith) (omega arith)
      cover f

-- `balloc` does not compare what it finds with the size: when all blocks of the disk are in use
-- and a bit behind the last one is clear, it hands out a block past the end of the disk.
pub balloc-past_end :
    (d : Disk) (x : ℕ)
    → ((s : ℕ) → IsBytes (d s))
    → x / bpb * bpb < (readsb d).size
    → free (readsb d) d x ≡ true
    → ((y : ℕ) → y < (readsb d).size → free (readsb d) d y ≡ false)
    → (n : ℕ) × (d' : Disk) × (balloc d ≡ some (n, d')) × ((readsb d).size ≤ n)
balloc-past_end d x bytes cover f full =
    let (n, d', e, le, a) = balloc-Allocated d x bytes cover f in (n, d', e, beyond n a.was_free)
  where
    clash : (b : Bool) → b ≡ true → b ≡ false → ⊥
    clash b g h = cc

    beyond : (n : ℕ) → free (readsb d) d n ≡ true → (readsb d).size ≤ n
    beyond n g = elim (dec_lt n (readsb d).size) [
      | yes small ↦ absurd (clash _ g (full n small))
      | no large ↦ omega arith
    ]
