-- ===== src/Fs/Inode/Size.antt =====
-- What `writei` makes of the size of a file.
use cs537_intro_to_os.Prelude.{
  drop, ℕ, zero, suc, ◌+◌, ◌-◌, ◌%◌, ◌≡◌, ◌≢◌, refl, Bool, true, false, ◌==◌, Option, none, some,
  List, arith, ℕ_discrete, update, ◌/◌, ◌∙◌,
}
use cs537_intro_to_os.Fs.Inode.{State, chunk, bmap, update_checksum, write_loop, seal, ◌>>=◌, blit}
use cs537_intro_to_os.Fs.Block.{Block, bsize}

-- `bmap` and `update_checksum` leave the size and the type alone.
bmap-size :
    (bn : ℕ) (s : State) (a : ℕ) (s' : State) → bmap bn s ≡ some (a, s') → s'.0.size ≡ s.0.size
unfolding bmap
bmap-size bn (ip, d) a s' e = ground arith

update_checksum-size :
    (bn c : ℕ) (s s' : State) → update_checksum bn c s ≡ some s' → s'.0.size ≡ s.0.size
unfolding update_checksum
update_checksum-size bn c (ip, d) s' e = ground arith

seal-size :
    (checked : Bool) (bn : ℕ) (b : Block) (s s' : State)
    → seal checked bn b s ≡ some s'
    → s'.0.size ≡ s.0.size
seal-size true bn b s s' e = update_checksum-size bn _ s s' e
seal-size false bn b s s' e = ground arith

-- The inversion of a chain of steps that may panic.
pub >>=-eq-some {ℓ κ} :
    {A : Type ℓ} {B : Type κ} (m : Option A) (f : A → Option B) (b : B)
    → (m >>= f) ≡ some b
    → (a : A) × (m ≡ some a) × (f a ≡ some b)
>>=-eq-some none f b h = absurd (cc)
>>=-eq-some (some a) f b h = (a, refl, h)

write_loop-step :
    (fuel : ℕ) (checked : Bool) (src : List ℕ) (off left : ℕ) (s : State) (r : ℕ × State)
    → left ≢ 0
    → write_loop (suc fuel) checked src off left s ≡ some r
    → (s2 : State) × (s2.0.size ≡ s.0.size)
      × (write_loop fuel checked
            (drop (chunk off left) src)
            (off + chunk off left)
            (left - chunk off left)
            s2
          ≡ some r)
unfolding write_loop
write_loop-step fuel checked src off left s r ne e =
    let more : (left == 0) ≡ false = ground arith in
    let ((addr, s1), e1, h1) =
      >>=-eq-some (bmap (off / bsize) s) _ r (rw (more, write_loop) at e) in
    let b = blit src (off % bsize) (chunk off left) (s1.1 addr) in
    let (s2, e2, h2) = >>=-eq-some (seal checked (off / bsize) b s1) _ r h1 in
    (
      (s2.0, update s2.1 addr b),
      seal-size checked (off / bsize) b s1 s2 e2 ∙ bmap-size (off / bsize) s addr s1 e1,
      h2,
    )

pub write_loop-end :
    (fuel : ℕ) (checked : Bool) (src : List ℕ) (off left : ℕ) (s : State) (r : ℕ × State)
    → write_loop fuel checked src off left s ≡ some r
    → (r.0 ≡ off + left) × (r.1.0.size ≡ s.0.size)
unfolding write_loop
write_loop-end zero checked src off left s r e = ground arith
write_loop-end (suc fuel) checked src off left s r e = elim (ℕ_discrete left 0) [
  | yes done ↦ ground arith
  | no more ↦
      let (s2, same, rest) = write_loop-step fuel checked src off left s r more e in
      let ih =
        write_loop-end fuel checked (drop (chunk off left) src) (off + chunk off left)
          (left - chunk off left) s2 r rest in
      ground arith
]
