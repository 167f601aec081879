-- ===== src/Fs/Dir.antt =====
-- Directories of fs.c: `namecmp` and `dirlookup`. A directory is a file of entries of 16 bytes: a
-- `short` with the number of an inode, and a name of `DIRSIZ` bytes.
pub mod Scan
pub mod Lookup
mod Tests
use cs537_intro_to_os.Prelude.{
  ℕ, zero, suc, ◌+◌, ◌-◌, ◌*◌, ◌/◌, Bool, not, ◌&&◌, ◌==◌, ltb, if◌then◌else◌, update, Option, none,
  some, find_from,
}
use cs537_intro_to_os.Str.{strncmp}
use cs537_intro_to_os.Fs.Block.{Block, bsize}
use cs537_intro_to_os.Fs.Inode.{State, bmap, ◌>>=◌}
use cs537_intro_to_os.Fs.Path.{dirsiz}
use cs537_intro_to_os.Fs.Itrunc.{get_ushort}
use cs537_intro_to_os.Fs.Icache.{Icache, Entry, iget}

-- `T_DIR`
abbrev pub t_dir : ℕ
t_dir = 1

-- `sizeof(struct dirent)`, and how many fill a block
abbrev pub dirent_size : ℕ
dirent_size = 16

abbrev pub per_block : ℕ
per_block = 32

-- The memory that `namecmp` reads: the buffer, and behind it the bytes of the caller's name.
abbrev pub beside : (name : ℕ → ℕ) → Block → ℕ → ℕ
beside name b a = if ltb a bsize then b a else name (a - bsize)

-- `namecmp(name, de->name)` for entry `k` of a block
unfoldable pub namecmp : (name : ℕ → ℕ) → Block → (k : ℕ) → ℕ
namecmp name b k = strncmp (beside name b) bsize (k * dirent_size + 2) dirsiz

-- The entry is in use and has the name.
abbrev pub is_entry : (name : ℕ → ℕ) → Block → (k : ℕ) → Bool
is_entry name b k = not (get_ushort b (k * dirent_size) == 0) && (namecmp name b k == 0)

-- What the loops return: a panic, or the offset and the number in the entry, if there is one.
abbrev pub Found : Type 0
Found = Option (Option (ℕ × ℕ) × State)

-- At the end of the inner loop: the entry it has found, or the next block.
abbrev pub after_block : (entry : Option ℕ) → (off : ℕ) → Block → State → (next : Found) → Found
after_block none off b s next = next
after_block (some k) off b s next =
    some (some (off + k * dirent_size, get_ushort b (k * dirent_size)), s)

-- The two loops, from offset `off` on. `size / BSIZE + 1` rounds are enough, since each covers a
-- block.
unfoldable pub dir_loop : (rounds off : ℕ) → (name : ℕ → ℕ) → State → Found
dir_loop zero off name s = none
dir_loop (suc n) off name s =
    let round = (do
      (addr, s1) ← bmap (off / bsize) s
      after_block (find_from per_block 0 (is_entry name (s1.1 addr))) off (s1.1 addr) s1
          (dir_loop n (off + bsize) name s1)) in
    if ltb off s.0.size then round else some (none, s)

-- What `dirlookup` does with the entry that its loops have found: the offset for `*poff`, and the
-- inode from the cache.
unfoldable pub get_found : (dev : ℕ) → Option (ℕ × ℕ) → Icache → Option (Option (ℕ × ℕ) × Icache)
get_found dev none c = some (none, c)
get_found dev (some (off, inum)) c = do (ip, c1) ← iget dev inum c; some (some (off, ip), c1)

-- `dp` is an index of the cache; `none` is a panic, `some (none, c)` the result 0.
unfoldable pub dirlookup : (dp : ℕ) → (name : ℕ → ℕ) → Icache → Option (Option (ℕ × ℕ) × Icache)
dirlookup dp name c =
    let e = c.inode dp in
    let found = (do
      (entry, (node, d)) ← dir_loop (e.node.size / bsize + 1) 0 name (e.node, c.disks e.dev)
      get_found e.dev entry (record c {
        inode = update c.inode dp (record e { node = node });
        disks = update c.disks e.dev d;
      })) in
    if e.node.type == t_dir then found else none
