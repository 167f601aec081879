-- ===== src/FsCheck/Tests.antt =====
-- The theorems on the checker at a small image: 8 inodes, of which 1 is the root directory and 2 an
-- empty file "f" in it.
use cs537_intro_to_os.Prelude.{
  ℕ, ◌+◌, ◌%◌, ◌≤◌, ◌<◌, ◌≡◌, ◌≢◌, refl, if◌then◌else◌, ◌==◌, ltb, count, All, arith, List, [], ◌∷◌,
}
use cs537_intro_to_os.Fs.Block.Bitmap.{IsBytes}
use cs537_intro_to_os.FsCheck.Image.{Image, rsect, bblock, sb_ninodes, type_of, nlink_of, t_file}
use cs537_intro_to_os.FsCheck.Marks.{Result, ok, Marks}
use cs537_intro_to_os.FsCheck.Main.{start_marks, check_image}
use cs537_intro_to_os.FsCheck.Blocks.{bit_of, InData}
use cs537_intro_to_os.FsCheck.Inodes.{used_addrs, named_inodes}
use cs537_intro_to_os.FsCheck.Links.{dir_inums}
use cs537_intro_to_os.FsCheck.Accepted.{check_image-bitmap, check_image-links}

-- the bytes of the image that are not 0, by their addresses
abbrev look : List (ℕ × ℕ) → Image
look [] o = 0
look ((at, v) ∷ rest) o = if o == at then v else look rest o

abbrev contents : List (ℕ × ℕ)
contents =
    (520, 8)
    ∷ (1088, 1)
    ∷ (1094, 1)
    ∷ (1097, 2)
    ∷ (1100, 29)
    ∷ (1152, 2)
    ∷ (1158, 1)
    ∷ (2048, 255)
    ∷ (2049, 255)
    ∷ (2050, 255)
    ∷ (2051, 63)
    ∷ (14336, 255)
    ∷ (14337, 255)
    ∷ (14338, 255)
    ∷ (14339, 63)
    ∷ (14848, 1)
    ∷ (14850, 46)
    ∷ (14864, 1)
    ∷ (14866, 46)
    ∷ (14867, 46)
    ∷ (14880, 2)
    ∷ (14882, 102)
    ∷ []

image : Image
unfolding look
image = look contents

abbrev marks_of : Result Marks → Marks
marks_of (ok m) = m
marks_of r = start_marks image

final_marks : Marks
unfolding check_image image
final_marks = marks_of (check_image image)

accepted : check_image image ≡ ok final_marks
unfolding final_marks
accepted = refl

image-IsBytes : IsBytes image
unfolding image
image-IsBytes o = look-IsBytes contents (omega arith) o
  where
    look-IsBytes : (xs : List (ℕ × ℕ)) → All (λ p. p.1 < 256) xs → (o : ℕ) → look xs o < 256
    look-IsBytes [] small o = omega arith
    look-IsBytes ((at, v) ∷ rest) small o = ground (arith, small.0, look-IsBytes rest small.1 o)

check_image-bitmap_example :
    let used = used_addrs (sb_ninodes image) 0 image in
    let bitmap = λ (o : ℕ). image (rsect (bblock 1 (sb_ninodes image)) + o) in
    All InData used
    × ((b : ℕ) → b < 4096 → count b used + (if ltb b 29 then 1 else 0) ≡ bit_of bitmap b)
check_image-bitmap_example = check_image-bitmap image final_marks image-IsBytes accepted

check_image-links_example :
    let named = named_inodes (sb_ninodes image) 0 image in
    All (λ n. type_of image n ≢ 0) named
    × ((n : ℕ)
        → n < sb_ninodes image
        → (type_of image n ≤ 3)
          × (type_of image n ≢ 0 → 0 < count n named)
          × (type_of image n ≡ t_file → nlink_of image n % 256 ≡ count n named % 256))
check_image-links_example = check_image-links image final_marks image-IsBytes accepted

-- the root directory names itself twice and the file once
names : named_inodes 8 0 image ≡ 1 ∷ 1 ∷ 2 ∷ []
unfolding image named_inodes dir_inums
names = refl
