-- ===== src/FsCheck/Dirs.antt =====
-- The checker's walks over directories.
use cs537_intro_to_os.Prelude.{
  ℕ, zero, suc, ◌+◌, ◌%◌, Bool, true, false, not, ◌==◌, ◌||◌, ◌&&◌, if◌then◌else◌, update,
}
use cs537_intro_to_os.FsCheck.Image.{
  Image, rsect, type_of, t_dir, blocks_of, block_of, inum_at, is_dot, is_dotdot,
}
use cs537_intro_to_os.FsCheck.Marks.{
  directory_twice, directory_format, Result, ok, stop, ◌>>=◌, Marks, in_table, check_inode_alloced,
}

-- the entries of one block in `check_parent_dir`, from address `e` on, for `k` rounds
unfoldable pub find_child : (k e : ℕ) → Image → (child : ℕ) → Bool
find_child zero e img child = false
find_child (suc k) e img child =
    let rest = find_child k (e + 16) img child in
    if inum_at img e == 0
    then false
    else if is_dotdot img e || is_dot img e
    then rest
    else if inum_at img e == child
    then true
    else rest

-- the blocks of the directory `parent` from block `b` on: `seen_child`
unfoldable pub parent_blocks : (k b : ℕ) → Image → (parent child : ℕ) → Bool
unfolding find_child
parent_blocks zero b img parent child = false
parent_blocks (suc k) b img parent child =
    find_child 32 (rsect (block_of img parent b)) img child
    || parent_blocks k (b + 1) img parent child

unfoldable pub check_parent_dir : Image → (parent child : ℕ) → Marks → Marks
unfolding parent_blocks
check_parent_dir img parent child m =
    let seen =
      (type_of img parent == t_dir) && parent_blocks (blocks_of img parent) 0 img parent child in
    if not seen && not (child == 1) then record m { parent_mismatch_seen = true } else m

-- `seen_self_dir` and `seen_parent_dir`, with the tables
pub record Walk : Type 0 where
  pub marks : Marks
  pub seen_self : Bool
  pub seen_parent : Bool

-- `if (0 == seen_root && dir_entry->inum == inode_num && inode_num == 1) seen_root = 1;`
abbrev pub note_root : (n inum : ℕ) → Marks → Marks
note_root n inum m = record m { seen_root = m.seen_root || ((inum == n) && (n == 1)) }

-- the directories met: each may stand in one place only
unfoldable pub note_dir : Image → (n inum : ℕ) → Marks → Result Marks
note_dir img n inum m =
    let first = record m { my_dir_parent_inode = update m.my_dir_parent_inode inum (n % 256) } in
    if type_of img inum == t_dir
    then (do
      t ← in_table inum m
      if t.my_dir_parent_inode inum == 0 then ok first else stop directory_twice)
    else ok m

-- one entry of the directory `n`, up to its call of `check_inode_alloced`
unfoldable pub classify : Image → (n e : ℕ) → Walk → Result Walk
unfolding check_parent_dir note_dir
classify img n e w =
    let inum = inum_at img e in
    if not w.seen_self && is_dot img e
    then ok (record w { seen_self = true })
    else if not w.seen_parent && is_dotdot img e
    then ok (record w {
      seen_parent = true;
      marks = check_parent_dir img inum n (note_root n inum w.marks);
    })
    else (do m ← note_dir img n inum w.marks; ok (record w { marks = m }))

unfoldable pub dir_entry : Image → (n e : ℕ) → Walk → Result Walk
unfolding classify check_inode_alloced
dir_entry img n e w = do
  w' ← classify img n e w
  m ← check_inode_alloced img (inum_at img e) w'.marks
  in_table (inum_at img e) (record w' {
    marks = record m { my_inode_alloced = update m.my_inode_alloced (inum_at img e) 0 };
  })

-- the entries of one block, up to the first free one
unfoldable pub dir_entries : (k e : ℕ) → Image → (n : ℕ) → Walk → Result Walk
unfolding dir_entry
dir_entries zero e img n w = ok w
dir_entries (suc k) e img n w =
    let rest = (do w' ← dir_entry img n e w; dir_entries k (e + 16) img n w') in
    if inum_at img e == 0 then ok w else rest

unfoldable pub dir_blocks : (k b : ℕ) → Image → (n : ℕ) → Walk → Result Walk
unfolding dir_entries
dir_blocks zero b img n w = ok w
dir_blocks (suc k) b img n w = do
  w' ← dir_entries 32 (rsect (block_of img n b)) img n w
  dir_blocks k (b + 1) img n w'

unfoldable pub check_dir_inode : Image → (n : ℕ) → Marks → Result Marks
unfolding dir_blocks
check_dir_inode img n m = do
  w ←
      dir_blocks (blocks_of img n) 0 img n
        (record { marks = m; seen_self = false; seen_parent = false })
  if w.seen_self && w.seen_parent then ok w.marks else stop directory_format
