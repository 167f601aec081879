-- ===== src/FsCheck/Accepted.antt =====
-- What an image has that the checker accepts.
use cs537_intro_to_os.Prelude.{
  ℕ, ◌+◌, ◌/◌, ◌%◌, ◌≤◌, ◌<◌, ◌≡◌, ◌≢◌, refl, ◌∙◌, ap, true, ◌==◌, ltb, if◌then◌else◌, count, All,
  arith, clear_at,
}
use cs537_intro_to_os.Fs.Block.Bitmap.{IsBytes}
use cs537_intro_to_os.FsCheck.Image.{Image, rsect, bblock, sb_ninodes, type_of, nlink_of, t_file}
use cs537_intro_to_os.FsCheck.Marks.{ok, Marks, >>=-eq-ok}
use cs537_intro_to_os.FsCheck.Main.{start_marks, count_loop, inode_loop, check_image}
use cs537_intro_to_os.FsCheck.Blocks.{bit_of, InData}
use cs537_intro_to_os.FsCheck.Inodes.{used_addrs, named_inodes, Checked, inode_loop-Checked}
use cs537_intro_to_os.FsCheck.Finished.{
  Counted, count_loop-Counted, Finished, final_checks-Finished,
}

-- The whole run, with the tables between its loops.
record Run (img : Image) : Type 0 where
  counted : Marks
  checked : Marks
  result : Marks
  first : Counted img (sb_ninodes img) 0 (start_marks img) counted
  second :
      Checked img
        (used_addrs (sb_ninodes img) 0 img)
        (named_inodes (sb_ninodes img) 0 img)
        counted
        checked
  types : (n : ℕ) → n < sb_ninodes img → type_of img n ≤ 3
  third : Finished checked result

start-IsBytes : (img : Image) → IsBytes img → IsBytes (start_marks img).my_bitmap
start-IsBytes img v o = ground (arith, v (rsect (bblock 1 (sb_ninodes img)) + o))

Run-of : (img : Image) (m : Marks) → IsBytes img → check_image img ≡ ok m → Run img
unfolding check_image
Run-of img m v e =
    let n = sb_ninodes img in
    let (m1, a, e1) = >>=-eq-ok (count_loop n 0 img (start_marks img)) _ e in
    let (m2, b, c) = >>=-eq-ok (inode_loop n 0 img m1) _ e1 in
    let first : Counted img n 0 (start_marks img) m1 =
      count_loop-Counted n 0 img (start_marks img) m1 a in
    let bytes : IsBytes m1.my_bitmap = rw first.bitmap (start-IsBytes img v) in
    let (second, types) = inode_loop-Checked n 0 img m1 m2 bytes b in
    record {
      counted = m1;
      checked = m2;
      result = m;
      first = first;
      second = second;
      types = λ k lt. types k (omega arith) (omega arith);
      third = final_checks-Finished img m2 m second.bytes c;
    }

-- In an image of bytes that the checker accepts, the bitmap marks exactly the blocks in use: each of
-- the 29 blocks that hold no data, and each address in an inode that is in use, once. No block is
-- used twice, and the addresses lie from 29 to 1024.
pub check_image-bitmap :
    (img : Image) (m : Marks)
    → IsBytes img
    → check_image img ≡ ok m
    → let used = used_addrs (sb_ninodes img) 0 img in
      let bitmap = λ (o : ℕ). img (rsect (bblock 1 (sb_ninodes img)) + o) in
      All InData used
      × ((b : ℕ) → b < 4096 → count b used + (if ltb b 29 then 1 else 0) ≡ bit_of bitmap b)
check_image-bitmap img m v e =
    let r : Run img = Run-of img m v e in
    let c = r.second in
    let f = r.third in (c.in_data, λ b lt. omega (arith, c.bits b, f.bits b lt, same_bit r b lt))
  where
    same_bit :
        (r : Run img) (b : ℕ)
        → b < 4096
        → bit_of r.counted.my_bitmap b
          ≡ bit_of (λ (o : ℕ). img (rsect (bblock 1 (sb_ninodes img)) + o)) b
    same_bit r b lt =
        let small : ltb (b / 8) 512 ≡ true = ground arith in
        ap (λ (map : ℕ → ℕ). bit_of map b) r.first.bitmap
        ∙ ap (λ v. if clear_at v (b % 8) then 0 else 1) (rw small refl)

-- If the checker accepts an image of bytes, in a run that never reads or writes past the end of its
-- tables of 200 inodes, then of the names that it reads, which in each block of a directory are the
-- entries before the first free one: every inode has a known type; each inode in use is named; no name
-- is that of a free inode; and the link count of a file is the number of the names that are its own,
-- modulo 256. Names that stand behind a free entry are not read, and nothing is said of them.
pub check_image-links :
    (img : Image) (m : Marks)
    → IsBytes img
    → check_image img ≡ ok m
    → let named = named_inodes (sb_ninodes img) 0 img in
      All (λ n. type_of img n ≢ 0) named
      × ((n : ℕ)
          → n < sb_ninodes img
          → (type_of img n ≤ 3)
            × (type_of img n ≢ 0 → 0 < count n named)
            × (type_of img n ≡ t_file → nlink_of img n % 256 ≡ count n named % 256))
check_image-links img m v e =
    let r : Run img = Run-of img m v e in
    let a = r.first in
    let c = r.second in
    let f = r.third in
    (
      c.in_use,
      λ n lt. (
        r.types n lt,
        λ used.
            let (marked, small) = a.alloced n (omega arith) (omega arith) used in
            found marked (c.alloced n) (f.named n small),
        λ file.
            let used : type_of img n ≢ 0 = λ z. omega arith in
            let (marked, small) = a.alloced n (omega arith) (omega arith) used in
            omega
              (arith, c.links n file, f.links n small, a.inode n (omega arith) (omega arith) file),
      ),
    )
  where
    found :
        {before after : ℕ} {k : ℕ}
        → before ≡ 1
        → after ≡ (if k == 0 then before else 0)
        → after ≢ 1
        → 0 < k
    found one e ne = ground arith
