-- ===== src/Fs/Icache.antt =====
-- The inode cache of fs.c. An inode pointer that is not null is the index of its entry; the
-- spinlock `icache.lock` makes each step between its acquire and its release one step.
pub mod Unique
pub mod Reach
pub mod Refs
mod Tests
use cs537_intro_to_os.Prelude.{
  ℕ, zero, suc, ◌+◌, ◌-◌, ◌%◌, ◌*◌, ◌^◌, Bool, true, false, not, ◌&&◌, ◌||◌, ◌==◌, ltb,
  if◌then◌else◌, update, Option, none, some, List, [], ◌∷◌, find_from, for_each,
}
use cs537_intro_to_os.Fs.Block.{Block, Disk, readsb}
use cs537_intro_to_os.Fs.Inode.{Inode, State, put_ushort, iupdate, ◌>>=◌}
use cs537_intro_to_os.Fs.Itrunc.{get_ushort, iblock, inode_start, load, itrunc}

-- `NINODE`
abbrev pub ninode : ℕ
ninode = 50

-- `struct inode`: `ref` is the 32-bit pattern of the `int`, `busy` and `valid` are the bits of
-- `flags`, and `node` holds `inum` and the copy of the disk inode.
pub record Entry : Type 0 where
  pub dev : ℕ
  pub ref : ℕ
  pub busy : Bool
  pub valid : Bool
  pub node : Inode

-- `icache.inode`, the devices, and the channels of the calls of `wakeup`, the latest first.
pub record Icache : Type 0 where
  pub inode : ℕ → Entry
  pub disks : ℕ → Disk
  pub woken : List ℕ

abbrev pub set_entry : Icache → ℕ → Entry → Icache
set_entry c ip e = record c { inode = update c.inode ip e }

-- `ip->ref > 0`
abbrev pub in_use : Entry → Bool
in_use e = ltb 0 e.ref && ltb e.ref (2 ^ 31)

-- `ip->ref++` and `ip->ref--`
abbrev pub more_refs : Entry → Entry
more_refs e = record e { ref = (e.ref + 1) % 2 ^ 32 }

abbrev pub fewer_refs : Entry → Entry
fewer_refs e = record e { ref = (e.ref + (2 ^ 32 - 1)) % 2 ^ 32 }

abbrev pub is_inode : (dev inum : ℕ) → Entry → Bool
is_inode dev inum e = in_use e && (e.dev == dev && e.node.inum == inum)

-- How the loop of `iget` ends: at the entry, or with the slot that it remembered.
pub data Search : Type 0 where
  cached : (ip : ℕ) → Search
  missed : (empty : Option ℕ) → Search

abbrev pub remember : (empty : Option ℕ) → Entry → ℕ → Option ℕ
remember (some ip) e i = some ip
remember none e i = if e.ref == 0 then some i else none

unfoldable pub search : (rounds i : ℕ) → (empty : Option ℕ) → (dev inum : ℕ) → (ℕ → Entry) → Search
search zero i empty dev inum c = missed empty
search (suc k) i empty dev inum c =
    let next = search k (i + 1) (remember empty (c i) i) dev inum c in
    if is_inode dev inum (c i) then cached i else next

-- A fresh entry.
abbrev pub fresh : (dev inum : ℕ) → Entry → Entry
fresh dev inum e = record e {
  dev = dev;
  ref = 1;
  busy = false;
  valid = false;
  node = record e.node { inum = inum };
}

-- What `iget` does behind its loop; `none` is the panic "no inodes".
abbrev pub take_entry : Search → (dev inum : ℕ) → Icache → Option (ℕ × Icache)
take_entry (cached ip) dev inum c = some (ip, set_entry c ip (more_refs (c.inode ip)))
take_entry (missed none) dev inum c = none
take_entry (missed (some ip)) dev inum c = some (ip, set_entry c ip (fresh dev inum (c.inode ip)))

unfoldable pub iget : (dev inum : ℕ) → Icache → Option (ℕ × Icache)
unfolding search
iget dev inum c = take_entry (search ninode 0 none dev inum c.inode) dev inum c

unfoldable pub idup : (ip : ℕ) → Icache → Icache
idup ip c = set_entry c ip (more_refs (c.inode ip))

-- `none` is a panic, `some none` the sleep on a busy inode, after which the test is made again.
unfoldable pub ilock : (ip : ℕ) → Icache → Option (Option Icache)
ilock ip c =
    let e = c.inode ip in
    let node = load e.node (c.disks e.dev) in
    if not (in_use e)
    then none
    else if e.busy
    then some none
    else if e.valid
    then some (some (set_entry c ip (record e { busy = true })))
    else if node.type == 0
    then none
    else some (some (set_entry c ip (record e { busy = true; valid = true; node = node })))

unfoldable pub iunlock : (ip : ℕ) → Icache → Option Icache
iunlock ip c =
    let e = c.inode ip in
    if not e.busy || not (in_use e)
    then none
    else some
        (record c { inode = update c.inode ip (record e { busy = false }); woken = ip ∷ c.woken })

-- The last reference to an inode without links: its blocks and the inode itself are freed.
unfoldable pub drop_inode : (ip : ℕ) → Icache → Option Icache
drop_inode ip c =
    let e = c.inode ip in
    if e.busy then none else (do
      (node, d) ← itrunc (e.node, c.disks e.dev)
      let freed = record node { type = 0 }
      some (record c {
        inode = update c.inode ip (record e { busy = false; valid = false; node = freed });
        disks = update c.disks e.dev (iupdate (freed, d));
        woken = ip ∷ c.woken;
      }))

unfoldable pub iput : (ip : ℕ) → Icache → Option Icache
iput ip c =
    let e = c.inode ip in
    let last = e.ref == 1 && (e.valid && e.node.nlink == 0) in
    do
      c1 ← if last then drop_inode ip c else some c
      some (set_entry c1 ip (fewer_refs (c1.inode ip)))

unfoldable pub iunlockput : (ip : ℕ) → Icache → Option Icache
iunlockput ip c = do c1 ← iunlock ip c; iput ip c1

-- `memset(dip, 0, sizeof(*dip)); dip->type = type;`
abbrev pub new_dinode : Block → (inum type : ℕ) → Block
new_dinode b inum type =
    let o = inode_start inum in put_ushort (for_each 64 0 (λ i b. update b (o + i) 0) b) o type

-- the loop of `ialloc`: the first inode of type 0
unfoldable pub free_inode : Disk → Option ℕ
free_inode d =
    find_from ((readsb d).ninodes - 1) 1
      λ inum. get_ushort (d (iblock inum)) (inode_start inum) == 0

unfoldable pub claim_inode : (inum type : ℕ) → Disk → Disk
claim_inode inum type d = update d (iblock inum) (new_dinode (d (iblock inum)) inum type)

-- `none` is a panic, "no inodes" on the disk or in the cache.
unfoldable pub ialloc : (dev type : ℕ) → Icache → Option (ℕ × Icache)
ialloc dev type c =
    let d = c.disks dev in
    do
      inum ← free_inode d
      iget dev inum (record c { disks = update c.disks dev (claim_inode inum type d) })
