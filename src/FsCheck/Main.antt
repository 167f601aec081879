-- ===== src/FsCheck/Main.antt =====
-- `main` of the checker, from the mapped image on.
use cs537_intro_to_os.Prelude.{
  ℕ, zero, suc, ◌+◌, ◌%◌, Bool, false, not, ◌==◌, ◌||◌, ltb, if◌then◌else◌, update, Option, none,
  some, find_from,
}
use cs537_intro_to_os.FsCheck.Image.{
  Image, rsect, bblock, sb_ninodes, type_of, nlink_of, t_dir, t_file, t_dev,
}
use cs537_intro_to_os.FsCheck.Marks.{
  Error, bad_inode, no_root, parent_mismatch, block_not_used, inode_not_found, bad_reference_count,
  Result, ok, stop, ◌>>=◌, Marks, in_table, check_balloced, check_inode_addrs,
}
use cs537_intro_to_os.FsCheck.Dirs.{check_dir_inode}

-- the tables before the first loop over the inodes, with the copy of the bitmap
abbrev pub start_marks : Image → Marks
start_marks img = record {
  my_bitmap = λ i. if ltb i 512 then img (rsect (bblock 1 (sb_ninodes img)) + i) else 0;
  my_inode = λ i. 0;
  my_inode_alloced = λ i. 0;
  my_dir_parent_inode = λ i. 0;
  seen_root = false;
  parent_mismatch_seen = false;
}

-- one round of the first loop over the inodes
unfoldable pub count_inode : Image → (i : ℕ) → Marks → Result Marks
count_inode img i m =
    let used = record m { my_inode_alloced = update m.my_inode_alloced i 1 } in
    let linked = record used { my_inode = update m.my_inode i (nlink_of img i % 256) } in
    if type_of img i == 0
    then ok m
    else in_table i (if type_of img i == t_file then linked else used)

unfoldable pub count_loop : (k i : ℕ) → Image → Marks → Result Marks
unfolding count_inode
count_loop zero i img m = ok m
count_loop (suc k) i img m = do m' ← count_inode img i m; count_loop k (i + 1) img m'

-- the `switch` of the second loop
unfoldable pub check_inode : Image → (i : ℕ) → Marks → Result Marks
unfolding check_inode_addrs check_dir_inode
check_inode img i m =
    let dir = (do m' ← check_inode_addrs img i m; check_dir_inode img i m') in
    if type_of img i == 0
    then ok m
    else if (type_of img i == t_dev) || (type_of img i == t_file)
    then check_inode_addrs img i m
    else if type_of img i == t_dir
    then dir
    else stop bad_inode

unfoldable pub inode_loop : (k i : ℕ) → Image → Marks → Result Marks
unfolding check_inode
inode_loop zero i img m = ok m
inode_loop (suc k) i img m = do m' ← check_inode img i m; inode_loop k (i + 1) img m'

-- the loop over the blocks that hold no data
unfoldable pub meta_loop : (k i : ℕ) → Image → Marks → Result Marks
unfolding check_balloced
meta_loop zero i img m = ok m
meta_loop (suc k) i img m = do m' ← check_balloced img i m; meta_loop k (i + 1) img m'

-- `for (i=0; i<n; i++) if (test(i)) …exit(1);`
abbrev pub refuse_at : Option ℕ → Error → Marks → Result Marks
refuse_at none e m = ok m
refuse_at (some i) e m = stop e

abbrev pub refuse : (n : ℕ) → (ℕ → Bool) → Error → Marks → Result Marks
refuse n test e m = refuse_at (find_from n 0 test) e m

abbrev pub unless : Bool → Error → Marks → Result Marks
unless b e m = if b then stop e else ok m

-- The checks behind the loops over the inodes.
unfoldable pub final_checks : Image → Marks → Result Marks
unfolding meta_loop find_from
final_checks img m = do
  m1 ← unless (not m.seen_root) no_root m
  m2 ← unless m1.parent_mismatch_seen parent_mismatch m1
  m3 ← meta_loop 29 0 img m2
  m4 ← refuse 512 (λ i. not (m3.my_bitmap i == 0)) block_not_used m3
  m5 ← refuse 200 (λ i. m4.my_inode_alloced i == 1) inode_not_found m4
  refuse 200 (λ i. not (m5.my_inode i == 0)) bad_reference_count m5

-- `ok` where the program returns 0.
unfoldable pub check_image : Image → Result Marks
unfolding count_loop inode_loop final_checks
check_image img = do
  m1 ← count_loop (sb_ninodes img) 0 img (start_marks img)
  m2 ← inode_loop (sb_ninodes img) 0 img m1
  final_checks img m2
