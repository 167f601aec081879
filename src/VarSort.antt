-- ===== src/VarSort.antt =====
-- The sort of Project1a/mannual_sorting_varsort.c: `quick_sort` on an array of records in memory. A
-- pointer into the array is an index.
pub mod Files
pub mod Scan
pub mod Partition
pub mod Placed
pub mod Sorted
mod Tests
use cs537_intro_to_os.Prelude.{
  ℕ, zero, suc, ◌+◌, ◌-◌, Bool, ◌&&◌, ◌==◌, ltb, if◌then◌else◌, update, Option, none, some,
}

-- `rec_dataptr_t` of sort.h
pub record Rec : Type 0 where
  pub key : ℕ
  pub data_ints : ℕ
  pub data_ptr : ℕ

abbrev pub Arr : Type 0
Arr = ℕ → Rec

-- `SWAP(arr[i], arr[j], tmp_swap)`
abbrev pub swap : (i j : ℕ) → Arr → Arr
swap i j a = update (update a i (a j)) j (a i)

-- `while (arr[++i].key < pivot && i < (N - 1));` on the array at `lo`. `N` rounds are enough.
unfoldable pub scan_up : (rounds i : ℕ) → (lo n pivot : ℕ) → Arr → ℕ
scan_up zero i lo n pivot a = i
scan_up (suc k) i lo n pivot a =
    let rest = scan_up k (i + 1) lo n pivot a in
    if ltb (a (lo + (i + 1))).key pivot && ltb (i + 1) (n - 1) then rest else i + 1

-- `while (arr[--j].key > pivot && j > 0);` for a positive `j`
unfoldable pub scan_down : (j : ℕ) → (lo pivot : ℕ) → Arr → ℕ
scan_down zero lo pivot a = zero
scan_down (suc j) lo pivot a =
    let rest = scan_down j lo pivot a in if ltb pivot (a (lo + j)).key && ltb 0 j then rest else j

-- The outer loop: where `j` ends, and the array; `none` if the rounds run out.
unfoldable pub partition : (rounds i j : ℕ) → (lo n pivot : ℕ) → Arr → Option (ℕ × Arr)
partition zero i j lo n pivot a = none
partition (suc k) i j lo n pivot a =
    let i' = scan_up n i lo n pivot a in
    let j' = scan_down j lo pivot a in
    let a' = if ltb i' j' then swap (lo + i') (lo + j') a else a in
    let rest = partition k i' j' lo n pivot a' in if ltb i j then rest else some (j, a)

-- What is left to do once the pivot's place `j` is known.
abbrev pub sort_parts :
    (sort : (lo n : ℕ) → Arr → Option Arr) → (lo n : ℕ) → Option (ℕ × Arr) → Option Arr
sort_parts sort lo n none = none
sort_parts sort lo n (some (j, a)) = elim (sort lo j (swap lo (lo + j) a)) [
  | none ↦ none
  | some b ↦ sort (lo + j + 1) (n - j - 1) b
]

-- `quick_sort(arr, N)`; `none` if the fuel, a bound on the depth of the calls, runs out.
unfoldable pub quick_sort : (fuel : ℕ) → (lo n : ℕ) → Arr → Option Arr
unfolding partition
quick_sort zero lo n a = if ltb n 2 then some a else none
quick_sort (suc f) lo n a =
    let pair = some (if ltb (a (lo + 1)).key (a lo).key then swap lo (lo + 1) a else a) in
    let more =
      sort_parts (λ lo n a. quick_sort f lo n a) lo n (partition (n + 1) 0 n lo n (a lo).key a) in
    if ltb n 2 then some a else (if n == 2 then pair else more)
