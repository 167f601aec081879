-- ===== src/Fs/Checksum/Detect.antt =====
-- The checksum of a block detects the corruption of one byte.
use cs537_intro_to_os.Prelude.{
  ℕ, zero, suc, ◌+◌, ◌<◌, ◌≤◌, ◌≡◌, ◌≢◌, refl, arith, update, bit_xor, bit_xor-lt, bit_xor-cancel,
  bit_xor_comm, ℕ_discrete, ap, ◌∙◌, sym, update_self, update_ne,
}
use cs537_intro_to_os.Fs.Block.{Block}
use cs537_intro_to_os.Fs.Block.Bitmap.{IsBytes}
use cs537_intro_to_os.Fs.Checksum.{checksum_from, calculate_checksum}

-- On bytes, `^` is injective in either argument.
xor_left : (a b x : ℕ) → a < 256 → b < 256 → x < 256 → bit_xor a x ≡ bit_xor b x → a ≡ b
xor_left a b x p q r e =
    sym (bit_xor-cancel a x p r) ∙ ap (λ v. bit_xor v x) e ∙ bit_xor-cancel b x q r

xor_right : (a b x : ℕ) → a < 256 → b < 256 → x < 256 → bit_xor a b ≡ bit_xor a x → b ≡ x
xor_right a b x p q r e = xor_left b x a q r p (bit_xor_comm b a q p ∙ e ∙ bit_xor_comm a x p r)

-- Two different running results stay different over the same bytes.
checksum_from-injective :
    (k i a b : ℕ) (m : Block)
    → IsBytes m
    → a < 256
    → b < 256
    → checksum_from k i a m ≡ checksum_from k i b m
    → a ≡ b
unfolding checksum_from
checksum_from-injective zero i a b m bytes p q e = e
checksum_from-injective (suc k) i a b m bytes p q e = xor_left a b (m i) p q (bytes i) (
    checksum_from-injective k (i + 1) (bit_xor a (m i)) (bit_xor b (m i)) m bytes
      (bit_xor-lt a (m i) p (bytes i)) (bit_xor-lt b (m i) q (bytes i)) e)

-- Bytes before the start do not matter.
checksum_from-update :
    (k i a j v : ℕ) (m : Block) → j < i → checksum_from k i a (update m j v) ≡ checksum_from k i a m
unfolding checksum_from
checksum_from-update zero i a j v m lt = refl
checksum_from-update (suc k) i a j v m lt =
    rw (update_ne m j v i (omega arith))
      (checksum_from-update k (i + 1) (bit_xor a (m i)) j v m (omega arith))

checksum_from-detects :
    (k i a j v : ℕ) (m : Block)
    → IsBytes m
    → a < 256
    → v < 256
    → i ≤ j
    → j < i + k
    → checksum_from k i a (update m j v) ≡ checksum_from k i a m
    → v ≡ m j
unfolding checksum_from
checksum_from-detects zero i a j v m bytes p q lo hi e = absurd (omega arith)
checksum_from-detects (suc k) i a j v m bytes p q lo hi e = elim (ℕ_discrete i j) [
  | yes here ↦
      let v_here : update m j v i ≡ v = rw here (update_self m j v) in
      let tail = checksum_from-update k (i + 1) (bit_xor a v) j v m (omega arith) in
      let same =
        sym tail
        ∙ sym (ap (λ w. checksum_from k (i + 1) (bit_xor a w) (update m j v)) v_here)
        ∙ e in
      xor_right a v (m j) p q (bytes j) (
        checksum_from-injective k (i + 1) (bit_xor a v) (bit_xor a (m j)) m bytes
          (bit_xor-lt a v p q) (bit_xor-lt a (m j) p (bytes j))
          (same ∙ ap (λ x. checksum_from k (i + 1) (bit_xor a (m x)) m) here))
  | no later ↦
      let same =
        ap (λ w. checksum_from k (i + 1) (bit_xor a w) (update m j v))
          (sym (update_ne m j v i later)) in
      checksum_from-detects k (i + 1) (bit_xor a (m i)) j v m bytes (bit_xor-lt a (m i) p (bytes i))
        q (omega arith) (omega arith) (same ∙ e)
]

-- If one of the checked bytes of a block changes, so does the checksum of the block.
pub calculate_checksum-detects :
    (m : Block) (size j v : ℕ)
    → IsBytes m
    → v < 256
    → j < size
    → v ≢ m j
    → calculate_checksum (update m j v) size ≢ calculate_checksum m size
unfolding calculate_checksum
calculate_checksum-detects m size j v bytes q lt ne e =
    ne (checksum_from-detects size 0 0 j v m bytes (omega arith) q (omega arith) (omega arith) e)
