-- ===== src/Fs/Icache/Tests.antt =====
-- The theorems on the inode cache at a cache of two inodes.
use cs537_intro_to_os.Prelude.{◌≡◌, false, some, [], arith, refl}
use cs537_intro_to_os.Fs.Icache.{Icache, search, set_entry, fresh, more_refs, iget}
use cs537_intro_to_os.Fs.Icache.Unique.{Unique}
use cs537_intro_to_os.Fs.Icache.Reach.{Reached, starts, goes_on, gets, Reached-Unique}
use cs537_intro_to_os.Fs.Itrunc.Tests.{device, small}

abbrev empty_cache : Icache
empty_cache = record {
  inode = λ x. record { dev = 0; ref = 0; busy = false; valid = false; node = small };
  disks = λ dev. device;
  woken = [];
}

-- after `iget` of inode 7 of device 1, and after another reference to it
abbrev one_ref : Icache
one_ref = set_entry empty_cache 0 (fresh 1 7 (empty_cache.inode 0))

abbrev two_refs : Icache
two_refs = set_entry one_ref 0 (more_refs (one_ref.inode 0))

abbrev two_inodes : Icache
two_inodes = set_entry two_refs 1 (fresh 1 8 (two_refs.inode 1))

gets_seven : iget 1 7 empty_cache ≡ some (0, one_ref)
unfolding iget search
gets_seven = refl

gets_eight : iget 1 8 two_refs ≡ some (1, two_inodes)
unfolding iget search
gets_eight = refl

gets_seven_again : iget 1 7 one_ref ≡ some (0, two_refs)
unfolding iget search
gets_seven_again = refl

two_inodes-Reached : Reached two_inodes
two_inodes-Reached =
    goes_on
      (goes_on (goes_on (starts (λ x. refl)) (gets 1 7 0 gets_seven)) (gets 1 7 0 gets_seven_again))
      (gets 1 8 1 gets_eight)

Reached-Unique_example : Unique two_inodes
Reached-Unique_example = Reached-Unique two_inodes two_inodes-Reached

empty_cache-Unique : Unique empty_cache
empty_cache-Unique x y dev inum a b p q = absurd (ground arith)
