-- ===== src/FsCheck/Finished.antt =====
-- What the loop over the inodes and the checks behind it have tested.
use cs537_intro_to_os.Prelude.{
  ℕ, zero, suc, ◌+◌, ◌/◌, ◌%◌, ◌≤◌, ◌<◌, ◌≡◌, ◌≢◌, refl, ◌∙◌, ap, sym, Bool, true, false, not, ◌==◌,
  ltb, if◌then◌else◌, [], ◌∷◌, count, arith, ℕ_discrete, inl, inr, find_from, find_from-none,
  zero-clear_at, Option-cases,
}
use cs537_intro_to_os.Fs.Block.Bitmap.{IsBytes}
use cs537_intro_to_os.Fs.Block.{is_free}
use cs537_intro_to_os.FsCheck.Image.{Image, type_of, nlink_of, t_file}
use cs537_intro_to_os.FsCheck.Marks.{
  Error, no_root, parent_mismatch, block_not_used, inode_not_found, bad_reference_count, ok, stop,
  Marks, table_size, check_balloced, >>=-eq-ok, if_stop, ok-eq,
}
use cs537_intro_to_os.FsCheck.Main.{
  count_inode, count_loop, meta_loop, refuse, unless, final_checks,
}
use cs537_intro_to_os.FsCheck.Blocks.{
  bit_of, Took, Took-nil, Took-append, check_balloced-Took, numbers, count-numbers,
}

-- The first loop over the inodes.
pub record Counted (img : Image) (k i : ℕ) (m m' : Marks) : Type 0 where
  pub bitmap : m'.my_bitmap ≡ m.my_bitmap
  pub inode :
      (n : ℕ) → i ≤ n → n < i + k → type_of img n ≡ t_file → m'.my_inode n ≡ nlink_of img n % 256
  pub alloced :
      (n : ℕ)
      → i ≤ n
      → n < i + k
      → type_of img n ≢ 0
      → (m'.my_inode_alloced n ≡ 1) × (n < table_size)
  pub before :
      (n : ℕ)
      → n < i
      → (m'.my_inode n ≡ m.my_inode n) × (m'.my_inode_alloced n ≡ m.my_inode_alloced n)

count_inode-cases :
    (img : Image) (i : ℕ) (m m' : Marks)
    → count_inode img i m ≡ ok m'
    → (m'.my_bitmap ≡ m.my_bitmap)
      × (type_of img i ≡ t_file → m'.my_inode i ≡ nlink_of img i % 256)
      × (type_of img i ≢ 0 → (m'.my_inode_alloced i ≡ 1) × (i < table_size))
      × ((n : ℕ)
          → n ≢ i
          → (m'.my_inode n ≡ m.my_inode n) × (m'.my_inode_alloced n ≡ m.my_inode_alloced n))
unfolding count_inode
count_inode-cases img i m m' e = (
  ground arith,
  λ file. ground arith,
  λ used. (ground arith, ground arith),
  λ n ne. (ground arith, ground arith),
)

pub count_loop-Counted :
    (k i : ℕ) (img : Image) (m m' : Marks) → count_loop k i img m ≡ ok m' → Counted img k i m m'
unfolding count_loop
count_loop-Counted zero i img m m' e = rw (ok-eq e) (record {
  bitmap = refl;
  inode = λ n lo hi. absurd (omega arith);
  alloced = λ n lo hi. absurd (omega arith);
  before = λ n lt. (refl, refl);
})
count_loop-Counted (suc k) i img m m' e =
    let (m1, one, rest) = >>=-eq-ok (count_inode img i m) _ e in
    let (map, links, marked, others) = count_inode-cases img i m m1 one in
    let c : Counted img k (i + 1) m1 m' = count_loop-Counted k (i + 1) img m1 m' rest in
    record {
      bitmap = c.bitmap ∙ map;
      inode = λ n lo hi file. elim (ℕ_discrete n i) [
        | yes here ↦ rw here ((c.before i (omega arith)).0 ∙ links (rw (← here) file))
        | no later ↦ c.inode n (omega arith) (omega arith) file
      ];
      alloced = λ n lo hi used. elim (ℕ_discrete n i) [
        | yes here ↦
            let (one, small) = marked (rw (← here) used) in
            rw here ((c.before i (omega arith)).1 ∙ one, small)
        | no later ↦ c.alloced n (omega arith) (omega arith) used
      ];
      before = λ n lt.
          let (a, b) = c.before n (omega arith) in
          let (a', b') = others n (omega arith) in (a ∙ a', b ∙ b');
    }

meta_loop-Took :
    (k i : ℕ) (img : Image) (m m' : Marks)
    → IsBytes m.my_bitmap
    → meta_loop k i img m ≡ ok m'
    → Took (numbers k i) m m'
unfolding meta_loop numbers
meta_loop-Took zero i img m m' v e = rw (ok-eq e) (Took-nil m v)
meta_loop-Took (suc k) i img m m' v e =
    let (m1, one, rest) = >>=-eq-ok (check_balloced img i m) _ e in
    let t : Took (i ∷ []) m m1 = check_balloced-Took img i m m1 v one in
    Took-append (i ∷ []) (numbers k (i + 1)) m m1 m' t
      (meta_loop-Took k (i + 1) img m1 m' t.bytes rest)

refuse-none :
    (n : ℕ) (test : ℕ → Bool) (x : Error) (m m' : Marks)
    → refuse n test x m ≡ ok m'
    → (m' ≡ m) × ((i : ℕ) → i < n → test i ≡ false)
refuse-none n test x m m' e = elim (Option-cases (find_from n 0 test)) [
  | inl miss ↦
      (ok-eq (rw miss at e), λ i lt. find_from-none n 0 test miss i (omega arith) (omega arith))
  | inr (j, hit) ↦ absurd (stopped (rw hit at e))
]
  where
    stopped : {y : Error} → stop y ≡ ok m' → ⊥
    stopped q = cc

-- What the last checks make sure of.
pub record Finished (m m' : Marks) : Type 0 where
  pub root : m.seen_root ≡ true
  pub parents : m.parent_mismatch_seen ≡ false
  pub bits : (b : ℕ) → b < 4096 → bit_of m.my_bitmap b ≡ (if ltb b 29 then 1 else 0)
  pub named : (n : ℕ) → n < table_size → m.my_inode_alloced n ≢ 1
  pub links : (n : ℕ) → n < table_size → m.my_inode n ≡ 0

zero_free : (map : ℕ → ℕ) (b : ℕ) → map (b / 8) ≡ 0 → is_free map b ≡ true
zero_free map b e = rw e (zero-clear_at (b % 8) (omega arith))

not_nonzero : (x : ℕ) → not (x == 0) ≡ false → x ≡ 0
not_nonzero x e = ground arith

not_one : (x : ℕ) → (x == 1) ≡ false → x ≢ 1
not_one x e q = ground arith

below_29 : (k : ℕ) → count k (numbers 29 0) ≡ (if ltb k 29 then 1 else 0)
below_29 k = ground (arith, count-numbers 29 0 k)

pub final_checks-Finished :
    (img : Image) (m m' : Marks) → IsBytes m.my_bitmap → final_checks img m ≡ ok m' → Finished m m'
unfolding final_checks
final_checks-Finished img m m' v e =
    let (m1, a, e1) = >>=-eq-ok (unless (not m.seen_root) no_root m) _ e in
    let (m2, b, e2) = >>=-eq-ok (unless m1.parent_mismatch_seen parent_mismatch m1) _ e1 in
    let (m3, c, e3) = >>=-eq-ok (meta_loop 29 0 img m2) _ e2 in
    let (m4, d, e4) =
      >>=-eq-ok (refuse 512 (λ i. not (m3.my_bitmap i == 0)) block_not_used m3) _ e3 in
    let (m5, f, g) =
      >>=-eq-ok (refuse 200 (λ i. m4.my_inode_alloced i == 1) inode_not_found m4) _ e4 in
    let (z, inodes) = refuse-none 200 (λ i. not (m5.my_inode i == 0)) bad_reference_count m5 m' g in
    let (y, alloced) = refuse-none 200 (λ i. m4.my_inode_alloced i == 1) inode_not_found m4 m5 f in
    let (x, clear) = refuse-none 512 (λ i. not (m3.my_bitmap i == 0)) block_not_used m3 m4 d in
    let (no_mismatch, s2) = if_stop m1.parent_mismatch_seen parent_mismatch (ok m1) b in
    let (rooted, s1) = if_stop (not m.seen_root) no_root (ok m) a in
    let same1 : m1 ≡ m = ok-eq s1 in
    let same2 : m2 ≡ m = ok-eq s2 ∙ same1 in
    let t : Took (numbers 29 0) m m3 = meta_loop-Took 29 0 img m m3 v (rw same2 at c) in
    let same4 : m4.my_inode_alloced ≡ m.my_inode_alloced =
      ap (λ (q : Marks). q.my_inode_alloced) x ∙ t.alloced in
    let same5 : m5.my_inode ≡ m.my_inode = ap (λ (q : Marks). q.my_inode) (y ∙ x) ∙ t.inode in
    record {
      root = ground arith;
      parents = rw (← same1) no_mismatch;
      bits = λ k lt.
          let gone : bit_of m3.my_bitmap k ≡ 0 =
            rw
              (zero_free m3.my_bitmap k
                (not_nonzero (m3.my_bitmap (k / 8)) (clear (k / 8) (omega arith))))
              refl in
          omega (arith, t.bits k, gone, below_29 k);
      named = λ n lt. not_one (m.my_inode_alloced n) (rw same4 at (alloced n lt));
      links =
          λ n lt. ap (λ (h : ℕ → ℕ). h n) (sym same5) ∙ not_nonzero (m5.my_inode n) (inodes n lt);
    }
