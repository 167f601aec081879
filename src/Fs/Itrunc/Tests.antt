-- ===== src/Fs/Itrunc/Tests.antt =====
-- The theorems on whole inodes at a concrete device.
use cs537_intro_to_os.Prelude.{
  ℕ, ◌<◌, ◌≡◌, ◌≢◌, true, false, some, [], ◌∷◌, arith, update, if◌then◌else◌, refl,
}
use cs537_intro_to_os.Fs.Block.{Disk, readsb}
use cs537_intro_to_os.Fs.Block.Bitmap.{IsBytes}
use cs537_intro_to_os.Fs.Block.Alloc.{free}
use cs537_intro_to_os.Fs.Inode.{Inode, State, iupdate}
use cs537_intro_to_os.Fs.Block.Free.All.{InUse, mem}
use cs537_intro_to_os.Fs.Itrunc.{load, itrunc}
use cs537_intro_to_os.Fs.Itrunc.Blocks.{file_blocks, direct_blocks, table_blocks, named_blocks}
use cs537_intro_to_os.Fs.Itrunc.Freed.{itrunc-Freed}
use cs537_intro_to_os.Fs.Itrunc.Load.{Agrees, load-iupdate}

-- A device of 4096 blocks with 8 inodes, whose blocks 0, …, 15 and 40, …, 47 are in use. The
-- inode of `small` has the blocks 40 and 41, and block 42 with a pointer to block 43.
abbrev pub device : Disk
device =
    update
      (update (update (λ s o. 0) 1 (update (update (λ o. 0) 1 16) 8 8)) 4
        (update (update (update (λ o. 0) 0 255) 1 255) 5 255))
      42 (update (λ o. 0) 0 43)

abbrev pub small : Inode
small = record {
  inum = 5;
  type = 2;
  major = 0;
  minor = 0;
  nlink = 0;
  size = 1000;
  addrs = update (update (update (λ i. 0) 0 40) 1 41) 12 42;
}

device-IsBytes : (s : ℕ) → IsBytes (device s)
device-IsBytes s o = ground arith

device-size : readsb device ≡ record { size = 4096; nblocks = 0; ninodes = 8 }
unfolding readsb
device-size = refl

device-InUse :
    (b : ℕ)
    → b < 4096
    → b ≢ 4
    → b ≢ 1
    → free (readsb device) device b ≡ false
    → InUse (readsb device) device b
unfolding readsb
device-InUse b lt map super used = record {
  inside = lt;
  not_super = super;
  not_map = λ x low e. map (omega arith);
  used = used;
}

small_blocks : file_blocks small device ≡ 40 ∷ 41 ∷ 43 ∷ 42 ∷ []
unfolding direct_blocks table_blocks named_blocks
small_blocks = refl

itrunc-Freed_example :
    (s' : State) × (itrunc (small, device) ≡ some s')
    × (s'.0.size ≡ 0)
    × ((x : ℕ) → x < 13 → s'.0.addrs x ≡ 0)
    × ((x : ℕ)
        → x < (readsb device).size
        → free (readsb device) s'.1 x
          ≡ (if mem x (file_blocks small device) then true else free (readsb device) device x))
unfolding readsb
itrunc-Freed_example =
    itrunc-Freed small device device-IsBytes (omega arith)
      (rw small_blocks (
        device-InUse 40 (omega arith) (λ e. omega arith) (λ e. omega arith) refl,
        (
          device-InUse 41 (omega arith) (λ e. omega arith) (λ e. omega arith) refl,
          (
            device-InUse 43 (omega arith) (λ e. omega arith) (λ e. omega arith) refl,
            (device-InUse 42 (omega arith) (λ e. omega arith) (λ e. omega arith) refl, tt),
          ),
        ),
      ))
      (rw small_blocks (refl, (refl, (refl, (refl, tt)))))

load-iupdate_example :
    Agrees (load (record small { size = 0; addrs = λ i. 0 }) (iupdate (small, device))) small
load-iupdate_example =
    load-iupdate small (record small { size = 0; addrs = λ i. 0 }) device
      (record {
        type = omega arith;
        major = omega arith;
        minor = omega arith;
        nlink = omega arith;
        size = omega arith;
        addrs = λ i. ground arith;
      })
      refl
