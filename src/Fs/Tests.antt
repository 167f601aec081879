-- ===== src/Fs/Tests.antt =====
-- The theorems on the file system at concrete disks.
use cs537_intro_to_os.Prelude.{
  take, replicate, ◌++◌, none, ℕ, zero, suc, ◌+◌, ◌*◌, ◌/◌, ◌<◌, ◌≤◌, ◌≡◌, ◌≢◌, true, false, none,
  some, [], ◌∷◌, arith, update, refl, max,
}
use cs537_intro_to_os.Fs.Block.{Block, Disk, bpb, readsb, balloc}
use cs537_intro_to_os.Fs.Block.Bitmap.{IsBytes}
use cs537_intro_to_os.Fs.Block.Alloc.{free, Allocated, balloc-Allocated, balloc-past_end}
use cs537_intro_to_os.Fs.Checksum.{calculate_checksum}
use cs537_intro_to_os.Fs.Checksum.Detect.{calculate_checksum-detects}
use cs537_intro_to_os.Fs.Inode.{Inode, State, t_checked, readi, writei}
use cs537_intro_to_os.Fs.Path.{skipelem, slash, dirsiz}
use cs537_intro_to_os.Fs.Path.Elements.{skipelem_lem}
use cs537_intro_to_os.Fs.Inode.Total.{Mapped, writei-size}
use cs537_intro_to_os.Fs.Inode.Sums.{readi-detects}

-- Eight blocks, no inode block, and a bitmap at block 3 whose low byte is 0xff: all are in use.
abbrev full_disk : Disk
full_disk = update (update (λ s o. 0) 1 (update (λ o. 0) 0 8)) 3 (update (λ o. 0) 0 255)

full_disk-IsBytes : (s : ℕ) → IsBytes (full_disk s)
full_disk-IsBytes s o = ground arith

full_disk-full : (y : ℕ) → y < (readsb full_disk).size → free (readsb full_disk) full_disk y ≡ false
unfolding readsb
full_disk-full zero lt = refl
full_disk-full (suc zero) lt = refl
full_disk-full (suc (suc zero)) lt = refl
full_disk-full (suc (suc (suc zero))) lt = refl
full_disk-full (suc (suc (suc (suc zero)))) lt = refl
full_disk-full (suc (suc (suc (suc (suc zero))))) lt = refl
full_disk-full (suc (suc (suc (suc (suc (suc zero)))))) lt = refl
full_disk-full (suc (suc (suc (suc (suc (suc (suc zero))))))) lt = refl
full_disk-full (suc (suc (suc (suc (suc (suc (suc (suc y)))))))) lt = absurd (omega arith)

nine_free : free (readsb full_disk) full_disk 9 ≡ true
unfolding readsb
nine_free = refl

nine_covered : 9 / bpb * bpb < (readsb full_disk).size
unfolding readsb
nine_covered = omega arith

balloc-Allocated_example :
    (n : ℕ) × (d' : Disk) × (balloc full_disk ≡ some (n, d'))
    × (n ≤ 9)
    × Allocated (readsb full_disk) 0 full_disk n d'
balloc-Allocated_example = balloc-Allocated full_disk 9 full_disk-IsBytes nine_covered nine_free

balloc-past_end_example :
    (n : ℕ) × (d' : Disk) × (balloc full_disk ≡ some (n, d')) × ((readsb full_disk).size ≤ n)
balloc-past_end_example =
    balloc-past_end full_disk 9 full_disk-IsBytes nine_covered nine_free full_disk-full

abbrev zeros : Block
zeros = λ o. 0

zeros-IsBytes : IsBytes zeros
zeros-IsBytes o = omega arith

calculate_checksum-detects_example :
    calculate_checksum (update zeros 7 1) 512 ≢ calculate_checksum zeros 512
calculate_checksum-detects_example =
    calculate_checksum-detects zeros 512 7 1 zeros-IsBytes (omega arith) (omega arith)
      (λ e. omega arith)

-- A checked file of 600 bytes, all its direct pointers at block 40 with checksum 0.
abbrev file : Inode
file = record { inum = 5; type = 4; major = 0; minor = 0; nlink = 1; size = 600; addrs = λ i. 40 }

file-Mapped : Mapped file
file-Mapped bn lt e = omega arith

writei-size_example :
    (s : State) × (writei (λ m. none) (1 ∷ 2 ∷ []) 0 2 (file, full_disk) ≡ some (some 2, s))
    × (4 ≡ t_checked → s.0.size ≡ 0 + 2)
    × (4 ≢ t_checked → s.0.size ≡ max 600 (0 + 2))
writei-size_example =
    writei-size (λ m. none) (1 ∷ 2 ∷ []) 0 2 file full_disk file-Mapped (λ e. omega arith)
      (omega arith) (omega arith) (omega arith)

abbrev bad_disk : Disk
bad_disk = update full_disk 40 (update zeros 3 1)

bad_sum : calculate_checksum (bad_disk 40) 512 ≢ 0
unfolding calculate_checksum
bad_sum e = omega arith

readi-detects_example : (s : State) × (readi (λ m. none) 0 10 (file, bad_disk) ≡ some (none, s))
readi-detects_example =
    readi-detects (λ m. none) 0 10 file bad_disk file-Mapped refl (omega arith) (omega arith)
      (omega arith) (omega arith) bad_sum

-- "//a", "//a/b"
skipelem_lem_example :
    let a : ℕ = 97 in
    (skipelem (replicate 2 slash) ≡ none)
    × (skipelem (replicate 2 slash ++ (a ∷ [])) ≡ some (take dirsiz (a ∷ []), []))
    × (skipelem (replicate 2 slash ++ ((a ∷ []) ++ (slash ∷ (replicate 3 slash ++ (98 ∷ [])))))
        ≡ some (take dirsiz (a ∷ []), 98 ∷ []))
skipelem_lem_example = skipelem_lem 2 3 97 [] (98 ∷ []) refl refl
