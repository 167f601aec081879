-- ===== src/Fs/Block/Bitmap.antt =====
-- Marking one bit of a bitmap block leaves all other bits alone.
use cs537_intro_to_os.Prelude.{
  ℕ, ◌/◌, ◌%◌, ◌<◌, ◌≡◌, ◌≢◌, refl, Bool, true, false, ◌==◌, if◌then◌else◌, arith, update, clear_at,
  bit_or-clear_at, bit_and-clear_at, ℕ_discrete, update_self, update_ne,
}
use cs537_intro_to_os.Fs.Block.{Block, is_free, mark, unmark}

-- every byte of the block is one
abbrev pub IsBytes : Block → Type 0
IsBytes b = (o : ℕ) → b o < 256

-- Two bits in one byte are the same bit if they are at the same place in it.
same_bit : (a b : ℕ) → a / 8 ≡ b / 8 → (a == b) ≡ (a % 8 == b % 8)
same_bit a b e = ground arith

other_byte : (a b : ℕ) → a / 8 ≢ b / 8 → (a == b) ≡ false
other_byte a b ne = ground arith

-- A new byte in place of the one that holds bit `bi`, with only that bit changed.
change-is_free :
    (map : Block) (bi x v : ℕ) (c : Bool)
    → ((j : ℕ) → j < 8 → clear_at v j ≡ (if j == bi % 8 then c else clear_at (map (bi / 8)) j))
    → is_free (update map (bi / 8) v) x ≡ (if x == bi then c else is_free map x)
change-is_free map bi x v c law = elim (ℕ_discrete (x / 8) (bi / 8)) [
  | yes e ↦ rw (same_bit x bi e, e, update_self map (bi / 8) v) (law (x % 8) (omega arith))
  | no ne ↦ rw (other_byte x bi ne, update_ne map (bi / 8) v (x / 8) ne) refl
]

pub mark-is_free :
    (map : Block) (bi x : ℕ)
    → IsBytes map
    → is_free (mark map bi) x ≡ (if x == bi then false else is_free map x)
mark-is_free map bi x b =
    change-is_free map bi x _ false
      λ j lt. bit_or-clear_at (map (bi / 8)) (bi % 8) j (b (bi / 8)) (omega arith) lt

pub unmark-is_free :
    (map : Block) (bi x : ℕ)
    → IsBytes map
    → is_free (unmark map bi) x ≡ (if x == bi then true else is_free map x)
unmark-is_free map bi x b =
    change-is_free map bi x _ true
      λ j lt. bit_and-clear_at (map (bi / 8)) (bi % 8) j (b (bi / 8)) (omega arith) lt
