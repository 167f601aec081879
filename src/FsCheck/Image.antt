-- ===== src/FsCheck/Image.antt =====
-- What the checker reads: blocks, inodes and directory entries of the image, as
-- Project5a/include/fs.h lays them out.
use cs537_intro_to_os.Prelude.{
  ℕ, ◌+◌, ◌-◌, ◌*◌, ◌/◌, ◌%◌, ◌^◌, Bool, ◌==◌, ◌&&◌, ltb, if◌then◌else◌,
}

abbrev pub Image : Type 0
Image = ℕ → ℕ

abbrev pub get_ushort : Image → (at : ℕ) → ℕ
get_ushort img at = img at + img (at + 1) * 2 ^ 8

abbrev pub get_uint : Image → (at : ℕ) → ℕ
get_uint img at = get_ushort img at + get_ushort img (at + 2) * 2 ^ 16

-- `rsect`, as an offset into the image: `sect*BSIZE` is an unsigned product
abbrev pub rsect : (sect : ℕ) → ℕ
rsect sect = sect * 512 % 2 ^ 32

abbrev pub bblock : (b ninodes : ℕ) → ℕ
bblock b ninodes = b / 4096 + ninodes / 8 + 3

-- `sb->ninodes`
abbrev pub sb_ninodes : Image → ℕ
sb_ninodes img = get_uint img (rsect 1 + 8)

-- `T_DIR`, `T_FILE` and `T_DEV` of stat.h, and `NDIRECT`
abbrev pub t_dir : ℕ
t_dir = 1

abbrev pub t_file : ℕ
t_file = 2

abbrev pub t_dev : ℕ
t_dev = 3

abbrev pub ndirect : ℕ
ndirect = 12

-- `dip[i]`: 64 bytes each, from block 2 on
abbrev pub inode_at : ℕ → ℕ
inode_at i = rsect 2 + i * 64

abbrev pub type_of : Image → (i : ℕ) → ℕ
type_of img i = get_ushort img (inode_at i)

abbrev pub nlink_of : Image → (i : ℕ) → ℕ
nlink_of img i = get_ushort img (inode_at i + 6)

abbrev pub size_of : Image → (i : ℕ) → ℕ
size_of img i = get_uint img (inode_at i + 8)

abbrev pub addr_of : Image → (i k : ℕ) → ℕ
addr_of img i k = get_uint img (inode_at i + 12 + k * 4)

-- `file_size / 512`, and one more for a rest
abbrev pub blocks_of : Image → (i : ℕ) → ℕ
blocks_of img i = size_of img i / 512 + (if size_of img i % 512 == 0 then 0 else 1)

-- `dip->addrs[b]` for a direct block, `indirect[b-NDIRECT]` for another
abbrev pub block_of : Image → (i b : ℕ) → ℕ
block_of img i b =
    if ltb b ndirect
    then addr_of img i b
    else get_uint img (rsect (addr_of img i ndirect) + (b - ndirect) * 4)

-- `dir_entry->inum`, and the comparisons of `dir_entry->name` with "." and ".."
abbrev pub inum_at : Image → (e : ℕ) → ℕ
inum_at img e = get_ushort img e

abbrev pub is_dot : Image → (e : ℕ) → Bool
is_dot img e = (img (e + 2) == b'.') && (img (e + 3) == 0)

abbrev pub is_dotdot : Image → (e : ℕ) → Bool
is_dotdot img e = (img (e + 2) == b'.') && (img (e + 3) == b'.') && (img (e + 4) == 0)
