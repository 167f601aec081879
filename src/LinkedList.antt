-- ===== src/LinkedList.antt =====
-- The doubly linked list of the shell, Project2a/linked_list.c and linked_list.h. Pointers are
-- addresses of cells; a routine returns `none` where the program would follow NULL or a freed
-- pointer. What `malloc` returns is an argument.
pub mod Chain
pub mod Insert
pub mod Delete
pub mod Unlink
pub mod Remove
pub mod Walk
mod Tests
use cs537_intro_to_os.Prelude.{
  ℕ, zero, suc, ◌+◌, ◌==◌, ◌≡◌, Bool, true, false, ◌||◌, if◌then◌else◌, update, Option, none, some,
}

pub record Node : Type 0 where
  pub prev : Option ℕ
  pub next : Option ℕ
  pub datum : ℕ

-- the memory, with the `linked_list_t` that the routines are given
pub record State : Type 0 where
  pub cells : ℕ → Option Node
  pub head : Option ℕ
  pub tail : Option ℕ

infixl 5 ◌>>=◌
abbrev pub ◌>>=◌ {ℓ κ} : {A : Type ℓ} {B : Type κ} → Option A → (A → Option B) → Option B
none >>= f = none
some a >>= f = f a

abbrev pub is_null : Option ℕ → Bool
is_null none = true
is_null (some p) = false

-- `*p`
abbrev pub load : Option ℕ → State → Option Node
load none s = none
load (some p) s = s.cells p

abbrev pub put_cell : ℕ → Option Node → State → State
put_cell p c s = record s { cells = update s.cells p c }

-- `p->prev = v` and `p->next = v`
abbrev pub set_prev : (p v : Option ℕ) → State → Option State
set_prev none v s = none
set_prev (some p) v s = s.cells p >>= λ n. some (put_cell p (some (record n { prev = v })) s)

abbrev pub set_next : (p v : Option ℕ) → State → Option State
set_next none v s = none
set_next (some p) v s = s.cells p >>= λ n. some (put_cell p (some (record n { next = v })) s)

-- `free(p)`, of an allocated cell
abbrev pub free : Option ℕ → State → Option State
free none s = some s
free (some p) s = s.cells p >>= λ n. some (put_cell p none s)

abbrev pub ll_initialize : State → State
ll_initialize s = record s { head = none; tail = none }

-- `create_new_node`, with what `malloc` returns; a NULL is followed at once.
abbrev pub create_new_node : (new : Option ℕ) → (datum : ℕ) → State → Option State
create_new_node none x s = none
create_new_node (some p) x s =
    some (put_cell p (some (record { prev = none; next = none; datum = x })) s)

unfoldable pub ll_insert_head : (new : Option ℕ) → (datum : ℕ) → State → Option State
ll_insert_head new x s =
    let front = (do
      s1 ← create_new_node new x s
      s2 ← set_next new s.head s1
      s3 ← set_prev s.head new s2
      some (record s3 { head = new })) in
    let alone = (do s1 ← create_new_node new x s; some (record s1 { head = new; tail = new })) in
    if is_null s.head || is_null s.tail then alone else front

unfoldable pub ll_insert_tail : (new : Option ℕ) → (datum : ℕ) → State → Option State
ll_insert_tail new x s =
    let back = (do
      s1 ← create_new_node new x s
      s2 ← set_prev new s.tail s1
      s3 ← set_next s.tail new s2
      some (record s3 { tail = new })) in
    let alone = (do s1 ← create_new_node new x s; some (record s1 { head = new; tail = new })) in
    if is_null s.head || is_null s.tail then alone else back

unfoldable pub ll_delete_head : State → Option State
ll_delete_head s =
    let work = (do
      n ← load s.head s
      s1 ←
          (if is_null n.next
            then some (record s { head = n.next; tail = none })
            else set_prev n.next none (record s { head = n.next }))
      free s.head s1) in
    if is_null s.head then some s else work

unfoldable pub ll_delete_tail : State → Option State
ll_delete_tail s =
    let work = (do
      n ← load s.tail s
      s1 ←
          (if is_null n.prev
            then some (record s { tail = n.prev; head = none })
            else set_next n.prev none (record s { tail = n.prev }))
      free s.tail s1) in
    if is_null s.tail then some s else work

-- what `ll_delete_node` does with the node at `p` that it has found
unfoldable pub unlink : (p : Option ℕ) → State → Option State
unlink p s = do
  n ← load p s
  s1 ← set_next n.prev n.next s
  m ← load p s1
  s2 ← set_prev m.next m.prev s1
  free p s2

-- The loop of `ll_delete_node` from the node at `p`; running out of fuel counts as a fault.
unfoldable pub delete_loop : (fuel : ℕ) → (p : Option ℕ) → (key : ℕ) → State → Option State
unfolding unlink
delete_loop zero p key s = none
delete_loop (suc fuel) none key s = some s
delete_loop (suc fuel) (some p) key s = elim (s.cells p) [
  | none ↦ none
  | some n ↦
      let rest = delete_loop fuel n.next key s in if n.datum == key then unlink (some p) s else rest
]

unfoldable pub ll_delete_node : (fuel key : ℕ) → State → Option State
unfolding ll_delete_head ll_delete_tail delete_loop
ll_delete_node fuel key s =
    let inner = (do
      last ← load s.tail s
      if last.datum == key then ll_delete_tail s else delete_loop fuel s.head key s) in
    let work = (do first ← load s.head s; if first.datum == key then ll_delete_head s else inner) in
    if is_null s.head then some s else work

-- The loop of `ll_find`: the pointer to the first node that passes.
unfoldable pub find_loop :
    (fuel : ℕ) → (p : Option ℕ) → (compare : ℕ → Bool) → State → Option (Option ℕ)
find_loop zero p compare s = none
find_loop (suc fuel) none compare s = some none
find_loop (suc fuel) (some p) compare s = elim (s.cells p) [
  | none ↦ none
  | some n ↦
      let rest = find_loop fuel n.next compare s in if compare n.datum then some (some p) else rest
]

unfoldable pub ll_find : (fuel : ℕ) → (compare : ℕ → Bool) → State → Option (Option ℕ)
unfolding find_loop
ll_find fuel compare s = find_loop fuel s.head compare s

-- The loop of `ll_free`; that it sets the pointers of a node to NULL before it frees the node is
-- left out.
unfoldable pub free_loop : (fuel : ℕ) → (p : Option ℕ) → State → Option State
free_loop zero p s = none
free_loop (suc fuel) none s = some s
free_loop (suc fuel) (some p) s = s.cells p >>= λ n. free_loop fuel n.next (put_cell p none s)

unfoldable pub ll_free : (fuel : ℕ) → State → Option State
unfolding free_loop
ll_free fuel s = elim s.head [
  | none ↦ some s
  | some p ↦ free_loop fuel (some p) s >>= λ s'. some (ll_initialize s')
]

-- the loop of `ll_size`
unfoldable pub size_loop : (fuel : ℕ) → (p : Option ℕ) → (n : ℕ) → State → Option ℕ
size_loop zero p n s = none
size_loop (suc fuel) none n s = some n
size_loop (suc fuel) (some p) n s = s.cells p >>= λ node. size_loop fuel node.next (n + 1) s

unfoldable pub ll_size : (fuel : ℕ) → State → Option ℕ
unfolding size_loop
ll_size fuel s = size_loop fuel s.head 0 s
