-- ===== src/FsCheck/Marks.antt =====
-- The checker's tables, and its checks on inodes and on block addresses.
use cs537_intro_to_os.Prelude.{
  ℕ, zero, suc, ◌+◌, ◌/◌, ◌%◌, Bool, true, false, ◌≡◌, refl, ◌==◌, ◌||◌, ltb, if◌then◌else◌, update,
  clear_at, Bool-cases, inl, inr,
}
use cs537_intro_to_os.Fs.Block.{is_free, unmark}
use cs537_intro_to_os.FsCheck.Image.{
  Image, rsect, bblock, type_of, t_file, ndirect, addr_of, blocks_of, block_of,
}

-- The messages with which the checker gives up.
pub data Error : Type 0 where
  free_inode_referred address_free address_twice : Error
  directory_twice directory_format bad_address bad_inode : Error
  no_root parent_mismatch block_not_used inode_not_found bad_reference_count : Error

-- What a part of the run comes to: it goes on, it stops with a message, or it has read or written past
-- the end of an array. The program does not test for the last, and what it does from there on is
-- undefined in C; the model says nothing about it.
pub data Result {ℓ} (A : Type ℓ) : Type ℓ where
  ok : A → Result A
  stop : Error → Result A
  undefined_behaviour : Result A

infixl 5 ◌>>=◌
abbrev pub ◌>>=◌ {ℓ κ} : {A : Type ℓ} {B : Type κ} → Result A → (A → Result B) → Result B
ok a >>= f = f a
stop e >>= f = stop e
undefined_behaviour >>= f = undefined_behaviour

-- Inversion of a successful run.
pub >>=-eq-ok {ℓ κ} :
    {A : Type ℓ} {B : Type κ} (r : Result A) (f : A → Result B) {b : B}
    → (r >>= f) ≡ ok b
    → (a : A) × (r ≡ ok a) × (f a ≡ ok b)
>>=-eq-ok (ok a) f e = (a, refl, e)
>>=-eq-ok (stop x) f e = cc
>>=-eq-ok undefined_behaviour f e = cc

pub if_stop {ℓ} :
    {A : Type ℓ} (test : Bool) (x : Error) (r : Result A) {a : A}
    → (if test then stop x else r) ≡ ok a
    → (test ≡ false) × (r ≡ ok a)
if_stop true x r e = cc
if_stop false x r e = (refl, e)

-- The global variables. An entry of the three tables of inodes is a `char`, in its 8-bit pattern.
pub record Marks : Type 0 where
  pub my_bitmap : ℕ → ℕ
  pub my_inode : ℕ → ℕ
  pub my_inode_alloced : ℕ → ℕ
  pub my_dir_parent_inode : ℕ → ℕ
  pub seen_root : Bool
  pub parent_mismatch_seen : Bool

pub ok-eq : {m m' : Marks} → ok m ≡ ok m' → m' ≡ m
ok-eq e = cc

-- the number of inodes that the tables have room for
abbrev pub table_size : ℕ
table_size = 200

-- An access to one of the tables at index `i`. The program has no test here: an index past the end is
-- undefined behaviour.
abbrev pub in_table {ℓ} : {A : Type ℓ} → (i : ℕ) → A → Result A
in_table i a = if ltb i table_size then ok a else undefined_behaviour

pub in_table-ok {ℓ} : {A : Type ℓ} (i : ℕ) (a : A) {b : A} → in_table i a ≡ ok b → b ≡ a
in_table-ok i a {b} e = elim (Bool-cases (ltb i table_size)) [
  | inl within ↦ ok-same (rw within at e)
  | inr outside ↦ absurd (stopped (rw outside at e))
]
  where
    ok-same : ok a ≡ ok b → b ≡ a
    ok-same e = cc

    stopped : undefined_behaviour ≡ ok b → ⊥
    stopped e = cc

unfoldable pub check_inode_alloced : Image → (inode_num : ℕ) → Marks → Result Marks
check_inode_alloced img n m =
    if type_of img n == 0
    then stop free_inode_referred
    else if type_of img n == t_file
    then in_table n (record m { my_inode = update m.my_inode n ((m.my_inode n + 255) % 256) })
    else ok m

unfoldable pub check_balloced : Image → (block : ℕ) → Marks → Result Marks
check_balloced img block m =
    if clear_at (img (rsect (bblock block table_size) + block / 8)) (block % 8)
    then stop address_free
    else if is_free m.my_bitmap block
    then stop address_twice
    else ok (record m { my_bitmap = unmark m.my_bitmap block })

-- `if (curr_addr < 29 || curr_addr > 1024) …; check_balloced(curr_addr, img_ptr);`
unfoldable pub check_addr : Image → (addr : ℕ) → Marks → Result Marks
unfolding check_balloced
check_addr img addr m =
    if ltb addr 29 || ltb 1024 addr then stop bad_address else check_balloced img addr m

-- the loop over the blocks of inode `i` from block `b` on, for `k` rounds
unfoldable pub addrs_loop : (k b : ℕ) → Image → (i : ℕ) → Marks → Result Marks
unfolding check_addr
addrs_loop zero b img i m = ok m
addrs_loop (suc k) b img i m = do
  m' ← check_addr img (block_of img i b) m
  addrs_loop k (b + 1) img i m'

unfoldable pub check_indirect : Image → (i : ℕ) → Marks → Result Marks
unfolding check_addr
check_indirect img i m =
    if ltb ndirect (blocks_of img i) then check_addr img (addr_of img i ndirect) m else ok m

unfoldable pub check_inode_addrs : Image → (i : ℕ) → Marks → Result Marks
unfolding check_indirect addrs_loop
check_inode_addrs img i m = do m' ← check_indirect img i m; addrs_loop (blocks_of img i) 0 img i m'
