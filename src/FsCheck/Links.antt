-- ===== src/FsCheck/Links.antt =====
-- What the walks over the directories leave in the tables: each inode that an entry names is counted
-- off, and the block bitmap stays.
use cs537_intro_to_os.Prelude.{
  ℕ, zero, suc, ◌+◌, ◌%◌, ◌≡◌, ◌≢◌, refl, ◌∙◌, ap, false, not, ◌==◌, ◌&&◌, if◌then◌else◌, arith,
  Bool-cases, inl, inr, List, [], ◌∷◌, ◌++◌, count, count-append, All, All-append,
}
use cs537_intro_to_os.FsCheck.Image.{
  Image, rsect, type_of, t_file, blocks_of, block_of, inum_at, is_dot, is_dotdot,
}
use cs537_intro_to_os.FsCheck.Marks.{
  directory_format, ok, stop, Marks, check_inode_alloced, >>=-eq-ok, in_table-ok,
}
use cs537_intro_to_os.FsCheck.Dirs.{
  Walk, check_parent_dir, note_root, note_dir, classify, dir_entry, dir_entries, dir_blocks,
  check_dir_inode,
}

-- the inodes named by the entries of a block before the first free one
unfoldable pub entry_inums : (k e : ℕ) → Image → List ℕ
entry_inums zero e img = []
entry_inums (suc k) e img =
    let rest = entry_inums k (e + 16) img in if inum_at img e == 0 then [] else inum_at img e ∷ rest

unfoldable pub block_inums : (k b : ℕ) → Image → (n : ℕ) → List ℕ
unfolding entry_inums
block_inums zero b img n = []
block_inums (suc k) b img n =
    entry_inums 32 (rsect (block_of img n b)) img ++ block_inums k (b + 1) img n

-- The inodes named in the directory `n`, as far as the checker reads: in each block the entries behind a
-- free one are left out.
unfoldable pub dir_inums : Image → (n : ℕ) → List ℕ
unfolding block_inums
dir_inums img n = block_inums (blocks_of img n) 0 img n

-- `m'` is `m` but for what the checker knows of parents.
record Same (m m' : Marks) : Type 0 where
  bitmap : m'.my_bitmap ≡ m.my_bitmap
  inode : m'.my_inode ≡ m.my_inode
  alloced : m'.my_inode_alloced ≡ m.my_inode_alloced

note_dir-Same : (img : Image) (n i : ℕ) (m m' : Marks) → note_dir img n i m ≡ ok m' → Same m m'
unfolding note_dir
note_dir-Same img n i m m' e = record {
  bitmap = ground arith;
  inode = ground arith;
  alloced = ground arith;
}

check_parent_dir-Same : (img : Image) (p c : ℕ) (m : Marks) → Same m (check_parent_dir img p c m)
unfolding check_parent_dir
check_parent_dir-Same img p c m = record {
  bitmap = ground arith;
  inode = ground arith;
  alloced = ground arith;
}

walk-eq : {w w' : Walk} → ok w ≡ ok w' → w' ≡ w
walk-eq e = cc

classify-Same :
    (img : Image) (n e : ℕ) (w w' : Walk) → classify img n e w ≡ ok w' → Same w.marks w'.marks
unfolding classify
classify-Same img n e w w' h = elim (Bool-cases (not w.seen_self && is_dot img e)) [
  | inl self ↦ rw (walk-eq (rw self at h)) (record { bitmap = refl; inode = refl; alloced = refl })
  | inr other ↦ elim (Bool-cases (not w.seen_parent && is_dotdot img e)) [
    | inl up ↦
        let s : Same (note_root n (inum_at img e) w.marks)
            (check_parent_dir img (inum_at img e) n (note_root n (inum_at img e) w.marks)) =
          check_parent_dir-Same img (inum_at img e) n (note_root n (inum_at img e) w.marks) in
        rw (walk-eq (rw (other, up) at h))
          (record { bitmap = s.bitmap; inode = s.inode; alloced = s.alloced })
    | inr down ↦
        let (m, noted, rest) =
          >>=-eq-ok (note_dir img n (inum_at img e) w.marks) _ (rw (other, down) at h) in
        rw (walk-eq rest) (note_dir-Same img n (inum_at img e) w.marks m noted)
  ]
]

-- From `m` to `m'` the walk has met the inodes `xs`, one for each entry.
pub record Visited (img : Image) (xs : List ℕ) (m m' : Marks) : Type 0 where
  pub bitmap : m'.my_bitmap ≡ m.my_bitmap
  pub links :
      (n : ℕ) → type_of img n ≡ t_file → m.my_inode n % 256 ≡ (m'.my_inode n + count n xs) % 256
  pub alloced :
      (n : ℕ) → m'.my_inode_alloced n ≡ (if count n xs == 0 then m.my_inode_alloced n else 0)
  pub in_use : All (λ n. type_of img n ≢ 0) xs

pub Visited-nil : (img : Image) (m : Marks) → Visited img [] m m
Visited-nil img m = record {
  bitmap = refl;
  links = λ n file. omega arith;
  alloced = λ n. refl;
  in_use = tt;
}

pub Visited-append :
    (img : Image) (xs ys : List ℕ) (m m' m'' : Marks)
    → Visited img xs m m'
    → Visited img ys m' m''
    → Visited img (xs ++ ys) m m''
Visited-append img xs ys m m' m'' v w = record {
  bitmap = w.bitmap ∙ v.bitmap;
  links = λ n file. omega (arith, v.links n file, w.links n file, count-append n xs ys);
  alloced = λ n. ground (arith, v.alloced n, w.alloced n, count-append n xs ys);
  in_use = All-append (λ n. type_of img n ≢ 0) xs ys v.in_use w.in_use;
}

-- What `check_inode_alloced` does to the tables of an inode that is in use.
counted_off :
    (img : Image) (i : ℕ) (m m' : Marks)
    → check_inode_alloced img i m ≡ ok m'
    → (type_of img i ≢ 0)
      × (m'.my_bitmap ≡ m.my_bitmap)
      × (m'.my_inode_alloced ≡ m.my_inode_alloced)
      × ((n : ℕ)
          → m'.my_inode n ≡ (
              if (n == i) && (type_of img i == t_file)
              then (m.my_inode n + 255) % 256
              else m.my_inode n))
unfolding check_inode_alloced
counted_off img i m m' e = (ground arith, ground arith, ground arith, λ n. ground arith)

dir_entry-Visited :
    (img : Image) (n e : ℕ) (w w' : Walk)
    → dir_entry img n e w ≡ ok w'
    → Visited img (inum_at img e ∷ []) w.marks w'.marks
unfolding dir_entry
dir_entry-Visited img n e w w' h =
    let i = inum_at img e in
    let (w1, sorted, rest) = >>=-eq-ok (classify img n e w) _ h in
    let (m2, counted, last) = >>=-eq-ok (check_inode_alloced img i w1.marks) _ rest in
    let s : Same w.marks w1.marks = classify-Same img n e w w1 sorted in
    let (used, map, others, links) = counted_off img i w1.marks m2 counted in
    rw (in_table-ok i _ last) (record {
      bitmap = map ∙ s.bitmap;
      links = λ k file. ground (arith, links k, s.inode, ap (λ (f : ℕ → ℕ). f k) s.inode);
      alloced =
          λ k. ground (arith, ap (λ (f : ℕ → ℕ). f k) others, ap (λ (f : ℕ → ℕ). f k) s.alloced);
      in_use = (used, tt);
    })

dir_entries-Visited :
    (k e : ℕ) (img : Image) (n : ℕ) (w w' : Walk)
    → dir_entries k e img n w ≡ ok w'
    → Visited img (entry_inums k e img) w.marks w'.marks
unfolding dir_entries entry_inums
dir_entries-Visited zero e img n w w' h = rw (walk-eq h) (Visited-nil img w.marks)
dir_entries-Visited (suc k) e img n w w' h = elim (Bool-cases (inum_at img e == 0)) [
  | inl end ↦ rw (end, walk-eq (rw (end, dir_entries) at h)) (Visited-nil img w.marks)
  | inr more ↦
      let (w1, one, rest) = >>=-eq-ok (dir_entry img n e w) _ (rw (more, dir_entries) at h) in
      rw (more, entry_inums)
        (Visited-append img (inum_at img e ∷ []) (entry_inums k (e + 16) img) w.marks w1.marks
          w'.marks (dir_entry-Visited img n e w w1 one)
          (dir_entries-Visited k (e + 16) img n w1 w' rest))
]

dir_blocks-Visited :
    (k b : ℕ) (img : Image) (n : ℕ) (w w' : Walk)
    → dir_blocks k b img n w ≡ ok w'
    → Visited img (block_inums k b img n) w.marks w'.marks
unfolding dir_blocks block_inums
dir_blocks-Visited zero b img n w w' h = rw (walk-eq h) (Visited-nil img w.marks)
dir_blocks-Visited (suc k) b img n w w' h =
    let at = rsect (block_of img n b) in
    let (w1, one, rest) = >>=-eq-ok (dir_entries 32 at img n w) _ h in
    Visited-append img (entry_inums 32 at img) (block_inums k (b + 1) img n) w.marks w1.marks
      w'.marks (dir_entries-Visited 32 at img n w w1 one)
      (dir_blocks-Visited k (b + 1) img n w1 w' rest)

-- In a directory that passes each inode named in it is in use and counted off.
pub check_dir_inode-Visited :
    (img : Image) (n : ℕ) (m m' : Marks)
    → check_dir_inode img n m ≡ ok m'
    → Visited img (dir_inums img n) m m'
unfolding check_dir_inode dir_inums
check_dir_inode-Visited img n m m' h =
    let start : Walk = record { marks = m; seen_self = false; seen_parent = false } in
    let (w, walked, rest) = >>=-eq-ok (dir_blocks (blocks_of img n) 0 img n start) _ h in
    let v : Visited img (block_inums (blocks_of img n) 0 img n) m w.marks =
      dir_blocks-Visited (blocks_of img n) 0 img n start w walked in
    rw (formatted w rest) v
  where
    formatted :
        (w : Walk)
        → (if w.seen_self && w.seen_parent then ok w.marks else stop directory_format) ≡ ok m'
        → m' ≡ w.marks
    formatted w e = ground arith
