-- ===== src/FsCheck/Blocks.antt =====
-- What the checker makes sure of the block bitmap: it marks exactly the blocks in use, and no block
-- is in use twice.
use cs537_intro_to_os.Prelude.{
  ℕ, zero, suc, ◌+◌, ◌/◌, ◌%◌, ◌≤◌, ◌≡◌, refl, ◌∙◌, Bool, true, false, ◌==◌, ◌||◌, ◌&&◌, ltb, leb,
  if◌then◌else◌, List, [], ◌∷◌, ◌++◌, count, count-append, All, All-append, arith, ℕ_discrete,
  Bool-cases, inl, inr, clear_at, bit_and-lt,
}
use cs537_intro_to_os.Fs.Block.{is_free, unmark}
use cs537_intro_to_os.Fs.Block.Bitmap.{IsBytes, unmark-is_free}
use cs537_intro_to_os.FsCheck.Image.{Image, rsect, bblock, ndirect, addr_of, blocks_of, block_of}
use cs537_intro_to_os.FsCheck.Marks.{
  address_free, address_twice, bad_address, ok, Marks, check_balloced, check_addr, addrs_loop,
  check_indirect, check_inode_addrs, table_size, >>=-eq-ok, if_stop, ok-eq,
}

-- the bit of block `b` in the checker's copy of the bitmap
abbrev pub bit_of : (ℕ → ℕ) → (b : ℕ) → ℕ
bit_of map b = if is_free map b then 0 else 1

-- From `m` to `m'` the checker has cleared one bit for each of the blocks `xs`, which were set.
pub record Took (xs : List ℕ) (m m' : Marks) : Type 0 where
  pub bytes : IsBytes m'.my_bitmap
  pub bits : (b : ℕ) → bit_of m.my_bitmap b ≡ count b xs + bit_of m'.my_bitmap b
  pub inode : m'.my_inode ≡ m.my_inode
  pub alloced : m'.my_inode_alloced ≡ m.my_inode_alloced

unmark-IsBytes : (map : ℕ → ℕ) (x : ℕ) → IsBytes map → IsBytes (unmark map x)
unmark-IsBytes map x v o =
    ground (arith, v o, bit_and-lt (map (x / 8)) (x % 8) (v (x / 8)) (omega arith))

pub Took-nil : (m : Marks) → IsBytes m.my_bitmap → Took [] m m
Took-nil m v = record { bytes = v; bits = λ b. omega arith; inode = refl; alloced = refl }

pub Took-append :
    (xs ys : List ℕ) (m m' m'' : Marks) → Took xs m m' → Took ys m' m'' → Took (xs ++ ys) m m''
Took-append xs ys m m' m'' s t = record {
  bytes = t.bytes;
  bits = λ b. omega (arith, s.bits b, t.bits b, count-append b xs ys);
  inode = t.inode ∙ s.inode;
  alloced = t.alloced ∙ s.alloced;
}

pub check_balloced-Took :
    (img : Image) (x : ℕ) (m m' : Marks)
    → IsBytes m.my_bitmap
    → check_balloced img x m ≡ ok m'
    → Took (x ∷ []) m m'
unfolding check_balloced
check_balloced-Took img x m m' v e =
    let twice =
      (if_stop (clear_at (img (rsect (bblock x table_size) + x / 8)) (x % 8)) address_free _ e).1 in
    let (was_set, done) = if_stop (is_free m.my_bitmap x) address_twice _ twice in
    rw (ok-eq done) (record {
      bytes = unmark-IsBytes m.my_bitmap x v;
      bits = λ b.
          unmarked b (is_free m.my_bitmap b) (is_free (unmark m.my_bitmap x) b)
            (unmark-is_free m.my_bitmap x b v) (λ q. rw q was_set);
      inode = refl;
      alloced = refl;
    })
  where
    unmarked :
        (b : ℕ) (before after : Bool)
        → after ≡ (if b == x then true else before)
        → (b ≡ x → before ≡ false)
        → (if before then 0 else 1) ≡ (if b == x then 1 else 0) + 0 + (if after then 0 else 1)
    unmarked b before after e h = elim (ℕ_discrete b x) [
      | yes q ↦ ground (arith, h q)
      | no ne ↦ ground arith
    ]

pub check_addr-Took :
    (img : Image) (x : ℕ) (m m' : Marks)
    → IsBytes m.my_bitmap
    → check_addr img x m ≡ ok m'
    → Took (x ∷ []) m m' × (29 ≤ x) × (x ≤ 1024)
unfolding check_addr
check_addr-Took img x m m' v e =
    let (inside, checked) = if_stop (ltb x 29 || ltb 1024 x) bad_address _ e in
    (check_balloced-Took img x m m' v checked, ground arith, ground arith)

-- The addresses of inode `i` from block `b` on.
unfoldable pub data_addrs : (k b : ℕ) → Image → (i : ℕ) → List ℕ
data_addrs zero b img i = []
data_addrs (suc k) b img i = block_of img i b ∷ data_addrs k (b + 1) img i

-- The blocks that an inode uses: its indirect block, if its size needs one, and its data blocks.
unfoldable pub inode_addrs : Image → (i : ℕ) → List ℕ
unfolding data_addrs
inode_addrs img i =
    (if ltb ndirect (blocks_of img i) then addr_of img i ndirect ∷ [] else [])
    ++ data_addrs (blocks_of img i) 0 img i

abbrev pub InData : ℕ → Type 0
InData x = (29 ≤ x) × (x ≤ 1024)

addrs_loop-Took :
    (k b : ℕ) (img : Image) (i : ℕ) (m m' : Marks)
    → IsBytes m.my_bitmap
    → addrs_loop k b img i m ≡ ok m'
    → Took (data_addrs k b img i) m m' × All InData (data_addrs k b img i)
unfolding addrs_loop data_addrs
addrs_loop-Took zero b img i m m' v e = (rw (ok-eq e) (Took-nil m v), tt)
addrs_loop-Took (suc k) b img i m m' v e =
    let (m1, one, rest) = >>=-eq-ok (check_addr img (block_of img i b) m) _ e in
    let (t, lo, hi) = check_addr-Took img (block_of img i b) m m1 v one in
    let (u, all) = addrs_loop-Took k (b + 1) img i m1 m' t.bytes rest in
    (Took-append (block_of img i b ∷ []) (data_addrs k (b + 1) img i) m m1 m' t u, ((lo, hi), all))

check_indirect-Took :
    (img : Image) (i : ℕ) (m m' : Marks)
    → IsBytes m.my_bitmap
    → check_indirect img i m ≡ ok m'
    → let xs : List ℕ = if ltb ndirect (blocks_of img i) then addr_of img i ndirect ∷ [] else [] in
      Took xs m m' × All InData xs
unfolding check_indirect
check_indirect-Took img i m m' v e = elim (Bool-cases (ltb ndirect (blocks_of img i))) [
  | inl more ↦
      let (t, lo, hi) = check_addr-Took img (addr_of img i ndirect) m m' v (rw more at e) in
      rw more (t, ((lo, hi), tt))
  | inr few ↦ rw (few, ok-eq (rw few at e)) (Took-nil m v, tt)
]

pub check_inode_addrs-Took :
    (img : Image) (i : ℕ) (m m' : Marks)
    → IsBytes m.my_bitmap
    → check_inode_addrs img i m ≡ ok m'
    → Took (inode_addrs img i) m m' × All InData (inode_addrs img i)
unfolding check_inode_addrs inode_addrs
check_inode_addrs-Took img i m m' v e =
    let (m1, first, rest) = >>=-eq-ok (check_indirect img i m) _ e in
    let (t, a) = check_indirect-Took img i m m1 v first in
    let (u, b) = addrs_loop-Took (blocks_of img i) 0 img i m1 m' t.bytes rest in
    let xs : List ℕ = if ltb ndirect (blocks_of img i) then addr_of img i ndirect ∷ [] else [] in
    let ys = data_addrs (blocks_of img i) 0 img i in
    (Took-append xs ys m m1 m' t u, All-append InData xs ys a b)

-- the blocks `i`, …, `i + k - 1`
unfoldable pub numbers : (k i : ℕ) → List ℕ
numbers zero i = []
numbers (suc k) i = i ∷ numbers k (i + 1)

pub count-numbers :
    (k i b : ℕ) → count b (numbers k i) ≡ (if leb i b && ltb b (i + k) then 1 else 0)
unfolding numbers
count-numbers zero i b = ground arith
count-numbers (suc k) i b = ground (arith, count-numbers k (i + 1) b)
