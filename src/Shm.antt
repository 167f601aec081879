-- ===== src/Shm.antt =====
-- The shared pages of Project3b: `spages` of xv6/kernel/vm.c, and what proc.h, proc.c and vm.c keep of
-- them in each process. What the `i`-th call of `kalloc` returns is an argument; the pages that `kfree`
-- gets are logged. A page table is a function of the user addresses below USERTOP, which one table page
-- of the hardware covers, so that `walkpgdir` finds an entry for each. The contents of pages are left
-- out.
pub mod Users
pub mod Free
pub mod Detach
pub mod Map
pub mod Place
pub mod Attach
pub mod Branches
pub mod Outcome
pub mod Share
pub mod Fork
pub mod Refused
pub mod Reach
pub mod Panic
mod Tests
use cs537_intro_to_os.Prelude.{
  ℕ, zero, suc, ◌+◌, ◌-◌, ◌*◌, ◌/◌, ◌%◌, ◌^◌, Bool, true, false, ◌&&◌, ◌||◌, ◌==◌, ltb, leb,
  if◌then◌else◌, bit_and, bit_or, update, Option, none, some, List, [], ◌∷◌, for_each,
}

abbrev pub pgsize : ℕ
pgsize = 4096

abbrev pub usertop : ℕ
usertop = 0xa0000

abbrev pub phystop : ℕ
phystop = 0x100_0000

abbrev pub max_shared_keys : ℕ
max_shared_keys = 8

abbrev pub max_shared_pages_per_key : ℕ
max_shared_pages_per_key = 4

-- `keys_pages_t`; an `int` is its 32-bit word.
pub record Key : Type 0 where
  pub addr : ℕ → ℕ
  pub n : ℕ
  pub refcount : ℕ

-- `struct proc`, as far as it matters here: the entries of its page table, and `spages_info`.
pub record Proc : Type 0 where
  pub sz : ℕ
  pub ptes : ℕ → ℕ
  pub key_addresses : ℕ → ℕ
  pub current_top : ℕ

pub record Shm : Type 0 where
  pub spages : ℕ → Key
  pub procs : ℕ → Proc
  pub freed : List ℕ

abbrev pub set_key : Shm → ℕ → Key → Shm
set_key s k key = record s { spages = update s.spages k key }

abbrev pub set_proc : Shm → ℕ → Proc → Shm
set_proc s c p = record s { procs = update s.procs c p }

-- The difference of two `uint`.
abbrev pub minus : (a b : ℕ) → ℕ
minus a b = (a + (2 ^ 32 - b)) % 2 ^ 32

abbrev pub empty_key : Key → Key
empty_key key = record {
  addr = λ j. if ltb j max_shared_pages_per_key then 0 else key.addr j;
  n = 0;
  refcount = 0;
}

abbrev pub shminit : Shm → Shm
shminit s = for_each max_shared_keys 0 (λ i t. set_key t i (empty_key (t.spages i))) s

abbrev pub shm_inc_refcount : Key → Key
shm_inc_refcount key = record key { refcount = (key.refcount + 1) % 2 ^ 32 }

abbrev pub shm_dec_refcount : Key → Key
shm_dec_refcount key = record key { refcount = minus key.refcount 1 }

-- `mappages` for one page with PTE_P, PTE_W and PTE_U; `none` is the panic "remap".
unfoldable pub map_page : (la pa : ℕ) → Proc → Option Proc
map_page la pa p =
    if bit_and (p.ptes la) 1 == 1
    then none
    else some (record p { ptes = update p.ptes la (bit_or pa 7) })

-- The allocation of the pages of a key; `false` if `kalloc` returns NULL.
unfoldable pub alloc_pages : (rounds i : ℕ) → (kalloc : ℕ → ℕ) → Key → Bool × Key
alloc_pages zero i kalloc key = (true, key)
alloc_pages (suc m) i kalloc key =
    let key' = record key { addr = update key.addr i (kalloc i) } in
    let rest = alloc_pages m (i + 1) kalloc key' in if kalloc i == 0 then (false, key') else rest

unfoldable pub map_pages : (rounds i : ℕ) → (location : ℕ) → (addr : ℕ → ℕ) → Proc → Option Proc
map_pages zero i location addr p = some p
map_pages (suc m) i location addr p = elim (map_page (location + i * pgsize) (addr i) p) [
  | none ↦ none
  | some q ↦ map_pages m (i + 1) location addr q
]

abbrev pub no_room : Proc → (npages : ℕ) → Bool
no_room p npages = ltb (minus p.current_top p.sz) (npages * pgsize)

-- The branch of `attach_pages_to_process` for a key that no process has; `false` for -1.
abbrev pub make_key : Proc → (npages : ℕ) → (kalloc : ℕ → ℕ) → Key → Bool × Key
make_key p npages kalloc key =
    let key' = record key { n = npages } in
    if no_room p npages then (false, key') else alloc_pages npages 0 kalloc key'

abbrev pub attached_at : (k location : ℕ) → Proc → Proc
attached_at k location p = record p {
  key_addresses = update p.key_addresses k location;
  current_top = location;
}

-- The part of `attach_pages_to_process` that maps the pages of a key. The result is the address, or
-- `none` for -1; `none` for all is a panic.
unfoldable pub map_key : (c k : ℕ) → Shm → Option (Option ℕ × Shm)
map_key c k s =
    let p = s.procs c in
    let key = s.spages k in
    let location = minus p.current_top (pgsize * key.n) in
    let mapped : Option (Option ℕ × Shm) = elim (map_pages key.n 0 location key.addr p) [
      | none ↦ none
      | some q ↦ some (
        some location,
        set_key (set_proc s c (attached_at k location q)) k (shm_inc_refcount key),
      )
    ] in
    if no_room p key.n then some (none, s) else mapped

abbrev pub after_make : (c k : ℕ) → Shm → Bool × Key → Option (Option ℕ × Shm)
after_make c k s (false, key) = some (none, set_key s k key)
after_make c k s (true, key) = map_key c k (set_key s k key)

-- `attach_pages_to_process` for the process `c`
unfoldable pub attach_pages_to_process :
    (c k npages : ℕ) → (kalloc : ℕ → ℕ) → Shm → Option (Option ℕ × Shm)
attach_pages_to_process c k npages kalloc s =
    let at = (s.procs c).key_addresses k in
    if (s.spages k).refcount == 0
    then after_make c k s (make_key (s.procs c) npages kalloc (s.spages k))
    else if at == 0
    then map_key c k s
    else some (some at, s)

abbrev pub bad_key : ℕ → Bool
bad_key key = leb (2 ^ 31) key || leb max_shared_keys key

abbrev pub bad_npages : ℕ → Bool
bad_npages npages = leb (2 ^ 31) npages || (ltb npages 1 || ltb max_shared_pages_per_key npages)

-- The arguments are `none` where `argint` fails.
unfoldable pub sys_shmgetat :
    (c : ℕ) → (key npages : Option ℕ) → (kalloc : ℕ → ℕ) → Shm → Option (Option ℕ × Shm)
sys_shmgetat c (some key) (some npages) kalloc s =
    if bad_key key || bad_npages npages
    then some (none, s)
    else attach_pages_to_process c key npages kalloc s
sys_shmgetat c (some key) none kalloc s = some (none, s)
sys_shmgetat c none npages kalloc s = some (none, s)

unfoldable pub sys_shm_refcount : (key : Option ℕ) → Shm → Option ℕ
sys_shm_refcount none s = none
sys_shm_refcount (some key) s = if bad_key key then none else some (s.spages key).refcount

-- What `kfree` asks of a page; it panics otherwise. `kernel_end` is the address `end` of the linker.
abbrev pub is_page : (kernel_end v : ℕ) → Bool
is_page kernel_end v = v % pgsize == 0 && (leb kernel_end v && ltb v phystop)

-- `for (i = current_top; i < USERTOP; i += PGSIZE)` of `sys_shmdt`
unfoldable pub clear_pages : (rounds i : ℕ) → (ℕ → ℕ) → ℕ → ℕ
clear_pages zero i ptes = ptes
clear_pages (suc m) i ptes =
    let rest = clear_pages m (i + pgsize) (update ptes i 0) in if ltb i usertop then rest else ptes

unfoldable pub free_pages :
    (rounds k : ℕ) → (kernel_end : ℕ) → (addr : ℕ → ℕ) → List ℕ → Option ((ℕ → ℕ) × List ℕ)
free_pages zero k kernel_end addr freed = some (addr, freed)
free_pages (suc m) k kernel_end addr freed =
    let rest = free_pages m (k + 1) kernel_end (update addr k 0) (addr k ∷ freed) in
    if is_page kernel_end (addr k) then rest else none

-- `for (k = 0; k < spages[i].N; ++k)` and the reset of N
abbrev pub free_key : (kernel_end i : ℕ) → Shm → Option Shm
free_key kernel_end i s =
    let key = s.spages i in
    elim (free_pages key.n 0 kernel_end key.addr s.freed) [
      | none ↦ none
      | some (addr, freed) ↦ some (record s {
        spages = update s.spages i (record key { addr = addr; n = 0 });
        freed = freed;
      })
    ]

abbrev pub dropped : (c i : ℕ) → Shm → Key
dropped c i s =
    if (s.procs c).key_addresses i == 0 then s.spages i else shm_dec_refcount (s.spages i)

abbrev pub without_key : (i : ℕ) → Proc → Proc
without_key i p = record p { key_addresses = update p.key_addresses i 0; current_top = usertop }

-- One round of the loop of `sys_shmdt` over the keys.
unfoldable pub detach_key : (kernel_end c i : ℕ) → Shm → Option Shm
detach_key kernel_end c i s =
    let s' = set_key (set_proc s c (without_key i (s.procs c))) i (dropped c i s) in
    if (dropped c i s).refcount == 0 then free_key kernel_end i s' else some s'

unfoldable pub detach_keys : (rounds i : ℕ) → (kernel_end c : ℕ) → Shm → Option Shm
detach_keys zero i kernel_end c s = some s
detach_keys (suc m) i kernel_end c s = elim (detach_key kernel_end c i s) [
  | none ↦ none
  | some t ↦ detach_keys m (i + 1) kernel_end c t
]

-- `sys_shmdt` for the process `c`; `none` is a panic of `kfree`.
unfoldable pub sys_shmdt : (kernel_end c : ℕ) → Shm → Option Shm
sys_shmdt kernel_end c s =
    let p = s.procs c in
    let ptes = clear_pages (usertop / pgsize) p.current_top p.ptes in
    detach_keys max_shared_keys 0 kernel_end c (set_proc s c (record p { ptes = ptes }))

-- The second loop of `copyuvm`, downward from the page at `i`, into a new table `d` whose entries
-- there are clear.
unfoldable pub share_ptes : (rounds i : ℕ) → (top : ℕ) → (ptes d : ℕ → ℕ) → ℕ → ℕ
share_ptes zero i top ptes d = d
share_ptes (suc m) i top ptes d =
    let d' = if ptes i == 0 then d else update d i (bit_or (ptes i / pgsize * pgsize) 7) in
    let rest = share_ptes m (i - pgsize) top ptes d' in if leb top i then rest else d

-- The loop at the end of `fork`, for one key.
abbrev pub share_key : (parent child : ℕ) → ℕ → Shm → Shm
share_key parent child i s =
    let at = (s.procs parent).key_addresses i in
    let np = s.procs child in
    let np' : Proc = record np { key_addresses = update np.key_addresses i at } in
    if at == 0 then s else set_key (set_proc s child np') i (shm_inc_refcount (s.spages i))

-- What a successful `fork` does to the shared pages: the reset by `allocproc`, the shared entries of the
-- new page table `d`, and the keys.
unfoldable pub fork_shared : (parent child : ℕ) → (d : ℕ → ℕ) → Shm → Shm
fork_shared parent child d s =
    let p = s.procs parent in
    let np : Proc = record {
      sz = p.sz;
      ptes = share_ptes (usertop / pgsize) (usertop - pgsize) p.current_top p.ptes d;
      key_addresses = λ i. 0;
      current_top = usertop;
    } in
    let t = for_each max_shared_keys 0 (share_key parent child) (set_proc s child np) in
    set_proc t child (record (t.procs child) { current_top = (t.procs parent).current_top })
