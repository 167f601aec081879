-- ===== src/FsCheck/Inodes.antt =====
-- What the loop over the inodes makes sure of.
use cs537_intro_to_os.Prelude.{
  ℕ, zero, suc, ◌+◌, ◌%◌, ◌≤◌, ◌<◌, ◌≡◌, ◌≢◌, ap, false, ◌==◌, ◌||◌, if◌then◌else◌, List, [], ◌++◌,
  count, count-append, All, All-append, arith, ℕ_discrete, Bool-cases, inl, inr,
}
use mathlib.Core.List.{append-nil}
use cs537_intro_to_os.Fs.Block.Bitmap.{IsBytes}
use cs537_intro_to_os.FsCheck.Image.{Image, type_of, t_dir, t_file, t_dev}
use cs537_intro_to_os.FsCheck.Marks.{Error, ok, stop, Marks, check_inode_addrs, >>=-eq-ok, ok-eq}
use cs537_intro_to_os.FsCheck.Main.{check_inode, inode_loop}
use cs537_intro_to_os.FsCheck.Blocks.{
  bit_of, Took, Took-nil, InData, inode_addrs, check_inode_addrs-Took,
}
use cs537_intro_to_os.FsCheck.Links.{dir_inums, Visited, check_dir_inode-Visited}

-- The addresses in the inodes from `i` on, of `k` inodes; the inodes that their directories name, as far
-- as the checker reads (see `dir_inums`).
unfoldable pub used_addrs : (k i : ℕ) → Image → List ℕ
used_addrs zero i img = []
used_addrs (suc k) i img =
    (if type_of img i == 0 then [] else inode_addrs img i) ++ used_addrs k (i + 1) img

unfoldable pub named_inodes : (k i : ℕ) → Image → List ℕ
named_inodes zero i img = []
named_inodes (suc k) i img =
    (if type_of img i == t_dir then dir_inums img i else []) ++ named_inodes k (i + 1) img

-- From `m` to `m'` the checker has met the block addresses `xs` and the named inodes `ys`.
pub record Checked (img : Image) (xs ys : List ℕ) (m m' : Marks) : Type 0 where
  pub bytes : IsBytes m'.my_bitmap
  pub bits : (b : ℕ) → bit_of m.my_bitmap b ≡ count b xs + bit_of m'.my_bitmap b
  pub in_data : All InData xs
  pub links :
      (n : ℕ) → type_of img n ≡ t_file → m.my_inode n % 256 ≡ (m'.my_inode n + count n ys) % 256
  pub alloced :
      (n : ℕ) → m'.my_inode_alloced n ≡ (if count n ys == 0 then m.my_inode_alloced n else 0)
  pub in_use : All (λ n. type_of img n ≢ 0) ys

Checked-append :
    (img : Image) (xs xs' ys ys' : List ℕ) (m m' m'' : Marks)
    → Checked img xs ys m m'
    → Checked img xs' ys' m' m''
    → Checked img (xs ++ xs') (ys ++ ys') m m''
Checked-append img xs xs' ys ys' m m' m'' c d = record {
  bytes = d.bytes;
  bits = λ b. omega (arith, c.bits b, d.bits b, count-append b xs xs');
  in_data = All-append InData xs xs' c.in_data d.in_data;
  links = λ n file. omega (arith, c.links n file, d.links n file, count-append n ys ys');
  alloced = λ n. ground (arith, c.alloced n, d.alloced n, count-append n ys ys');
  in_use = All-append (λ n. type_of img n ≢ 0) ys ys' c.in_use d.in_use;
}

Checked-blocks :
    (img : Image) (xs : List ℕ) (m m' : Marks)
    → Took xs m m'
    → All InData xs
    → Checked img xs [] m m'
Checked-blocks img xs m m' t a = record {
  bytes = t.bytes;
  bits = t.bits;
  in_data = a;
  links = λ n file. omega (arith, ap (λ (f : ℕ → ℕ). f n) t.inode);
  alloced = λ n. ap (λ (f : ℕ → ℕ). f n) t.alloced;
  in_use = tt;
}

Checked-dir :
    (img : Image) (ys : List ℕ) (m m' : Marks)
    → IsBytes m.my_bitmap
    → Visited img ys m m'
    → Checked img [] ys m m'
Checked-dir img ys m m' v w = record {
  bytes = rw w.bitmap v;
  bits = λ b. rw w.bitmap (omega arith);
  in_data = tt;
  links = w.links;
  alloced = w.alloced;
  in_use = w.in_use;
}

Checked-nil : (img : Image) (m : Marks) → IsBytes m.my_bitmap → Checked img [] [] m m
Checked-nil img m v = Checked-blocks img [] m m (Took-nil m v) tt

check_inode-Checked :
    (img : Image) (i : ℕ) (m m' : Marks)
    → IsBytes m.my_bitmap
    → check_inode img i m ≡ ok m'
    → Checked img
        (if type_of img i == 0 then [] else inode_addrs img i)
        (if type_of img i == t_dir then dir_inums img i else [])
        m
        m'
      × (type_of img i ≤ 3)
unfolding check_inode
check_inode-Checked img i m m' v e = elim (Bool-cases (type_of img i == 0)) [
  | inl free ↦
      let not_dir : (type_of img i == t_dir) ≡ false = ground arith in
      (rw (free, not_dir, ok-eq (rw free at e)) (Checked-nil img m v), ground arith)
  | inr used ↦ elim (Bool-cases ((type_of img i == t_dev) || (type_of img i == t_file))) [
    | inl plain ↦
        let not_dir : (type_of img i == t_dir) ≡ false = ground arith in
        let (t, a) = check_inode_addrs-Took img i m m' v (rw (used, plain) at e) in
        (rw (used, not_dir) (Checked-blocks img (inode_addrs img i) m m' t a), ground arith)
    | inr special ↦ elim (Bool-cases (type_of img i == t_dir)) [
      | inl dir ↦
          let (m1, blocks, names) =
            >>=-eq-ok (check_inode_addrs img i m) _ (rw (used, special, dir) at e) in
          let (t, a) = check_inode_addrs-Took img i m m1 v blocks in
          let w : Visited img (dir_inums img i) m1 m' = check_dir_inode-Visited img i m1 m' names in
          let both : Checked img (inode_addrs img i ++ []) ([] ++ dir_inums img i) m m' =
            Checked-append img (inode_addrs img i) [] [] (dir_inums img i) m m1 m'
              (Checked-blocks img (inode_addrs img i) m m1 t a)
              (Checked-dir img (dir_inums img i) m1 m' t.bytes w) in
          (rw (used, dir) (rw (append-nil (inode_addrs img i)) at both), ground arith)
      | inr bad ↦ absurd (stopped (rw (used, special, bad) at e))
    ]
  ]
]
  where
    stopped : {x : Error} → stop x ≡ ok m' → ⊥
    stopped q = cc

pub inode_loop-Checked :
    (k i : ℕ) (img : Image) (m m' : Marks)
    → IsBytes m.my_bitmap
    → inode_loop k i img m ≡ ok m'
    → Checked img (used_addrs k i img) (named_inodes k i img) m m'
      × ((n : ℕ) → i ≤ n → n < i + k → type_of img n ≤ 3)
unfolding inode_loop used_addrs named_inodes
inode_loop-Checked zero i img m m' v e =
    (rw (ok-eq e) (Checked-nil img m v), λ n lo hi. absurd (omega arith))
inode_loop-Checked (suc k) i img m m' v e =
    let (m1, one, rest) = >>=-eq-ok (check_inode img i m) _ e in
    let (c, known) = check_inode-Checked img i m m1 v one in
    let (d, others) = inode_loop-Checked k (i + 1) img m1 m' c.bytes rest in
    (
      Checked-append img (if type_of img i == 0 then [] else inode_addrs img i)
          (used_addrs k (i + 1) img) (if type_of img i == t_dir then dir_inums img i else [])
          (named_inodes k (i + 1) img) m m1 m' c d,
      λ n lo hi. elim (ℕ_discrete n i) [
        | yes here ↦ rw here known
        | no later ↦ others n (omega arith) (omega arith)
      ],
    )
