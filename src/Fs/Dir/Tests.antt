-- ===== src/Fs/Dir/Tests.antt =====
-- The theorem on directories at a concrete one.
use cs537_intro_to_os.Prelude.{ℕ, ◌≡◌, refl, arith, update, some, [], false}
use cs537_intro_to_os.Fs.Block.{Disk}
use cs537_intro_to_os.Fs.Itrunc.Tests.{device}
use cs537_intro_to_os.Fs.Inode.{Inode}
use cs537_intro_to_os.Fs.Icache.{Icache}
use cs537_intro_to_os.Fs.Dir.{namecmp, get_found, dirlookup}
use cs537_intro_to_os.Fs.Dir.Lookup.{answer, matches, dirlookup-find_from}
use cs537_intro_to_os.Prelude.{find_from}
use cs537_intro_to_os.Str.{strncmp}

-- A directory of one block, block 40, whose entry 2 is "a" with inode 7.
abbrev with_entry : Disk
with_entry = update device 40 (update (update (λ o. 0) 32 7) 34 97)

abbrev folder : Inode
folder = record { inum = 5; type = 1; major = 0; minor = 0; nlink = 1; size = 512; addrs = λ i. 40 }

abbrev folders : Icache
folders = record {
  inode = λ x. record { dev = 1; ref = 0; busy = false; valid = false; node = folder };
  disks = λ dev. with_entry;
  woken = [];
}

-- the name "a"
abbrev name_a : ℕ → ℕ
name_a = update (λ o. 0) 0 97

third_entry : find_from 32 0 (matches name_a folder with_entry) ≡ some 2
unfolding find_from namecmp strncmp
third_entry = refl

dirlookup-find_from_example :
    dirlookup 0 name_a folders
    ≡ get_found 1
        (answer folder with_entry (find_from 32 0 (matches name_a folder with_entry)))
        folders
dirlookup-find_from_example =
    dirlookup-find_from 0 1 name_a folders refl (λ b lt e. omega arith) refl (omega arith)
