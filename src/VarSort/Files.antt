-- ===== src/VarSort/Files.antt =====
-- The files of the sort: the records of the input file, and those of the output file. A file is a
-- sequence of 32-bit words, the number of records first; `words` is what stands behind that number,
-- and a pointer into it is an index.
use cs537_intro_to_os.Prelude.{
  ℕ, zero, suc, ◌+◌, ◌<◌, ◌≡◌, refl, List, [], ◌∷◌, ◌++◌, arith, update, update_self, update_ne,
  Option, none, some, ap, ◌∙◌,
}
use cs537_intro_to_os.VarSort.{Rec, Arr, quick_sort}
use cs537_intro_to_os.Tally.{Rearranged}
use cs537_intro_to_os.VarSort.Placed.{IsSorted}
use cs537_intro_to_os.VarSort.Sorted.{quick_sort-IsSorted}

abbrev pub Words : Type 0
Words = ℕ → ℕ

-- The loop of `populate_record_array`, for `k` records from the `i`-th on.
unfoldable pub populate_record_array : (k i cur_rec_ptr : ℕ) → Words → Arr → Arr
populate_record_array zero i cur words a = a
populate_record_array (suc k) i cur words a =
    let r : Rec = record { key = words cur; data_ints = words (cur + 1); data_ptr = cur + 2 } in
    populate_record_array k (i + 1) (cur + 2 + words (cur + 1)) words (update a i r)

-- `write(fd, ptr, m * sizeof(uint))`
unfoldable pub words_at : Words → (ptr m : ℕ) → List ℕ
words_at words ptr zero = []
words_at words ptr (suc m) = words ptr ∷ words_at words (ptr + 1) m

-- The loop of `write_sorted_data`.
unfoldable pub write_records : (k i : ℕ) → Words → Arr → List ℕ
write_records zero i words a = []
write_records (suc k) i words a =
    (a i).key
    ∷ (a i).data_ints
    ∷ (words_at words (a i).data_ptr (a i).data_ints ++ write_records k (i + 1) words a)

unfoldable pub write_sorted_data : (r : ℕ) → Words → Arr → List ℕ
write_sorted_data r words a = r ∷ write_records r 0 words a

-- From the input file of `r` records to the output file; `a` is what stands in the fresh array.
unfoldable pub sort_file : (r : ℕ) → Words → (a : Arr) → Option (List ℕ)
sort_file r words a = elim (quick_sort r 0 r (populate_record_array r 0 0 words a)) [
  | none ↦ none
  | some b ↦ some (write_sorted_data r words b)
]

-- Where the `k` records from `cur` on end.
unfoldable pub records_size : (k cur : ℕ) → Words → ℕ
records_size zero cur words = 0
records_size (suc k) cur words =
    let n = words (cur + 1) in 2 + n + records_size k (cur + 2 + n) words

words_at-split :
    (words : Words) (m n ptr : ℕ)
    → words_at words ptr (m + n) ≡ words_at words ptr m ++ words_at words (ptr + m) n
unfolding words_at
words_at-split words zero n ptr =
    let left : zero + n ≡ n = omega arith in
    let at : ptr + zero ≡ ptr = omega arith in rw (left, at) refl
words_at-split words (suc m) n ptr =
    let step : suc m + n ≡ suc (m + n) = omega arith in
    let at : ptr + suc m ≡ ptr + 1 + m = omega arith in
    rw (step, at, words_at) (ap (λ l. words ptr ∷ l) (words_at-split words m n (ptr + 1)))

populate-before :
    (k i cur : ℕ) (words : Words) (a : Arr) (x : ℕ)
    → x < i
    → populate_record_array k i cur words a x ≡ a x
unfolding populate_record_array
populate-before zero i cur words a x lt = refl
populate-before (suc k) i cur words a x lt =
    populate-before k (i + 1) (cur + 2 + words (cur + 1)) words (update a i _) x (omega arith)
    ∙ update_ne a i _ x (λ e. omega arith)

-- The records as they were read, written in their order, are the words that they were read from.
pub write-populate :
    (k i cur : ℕ) (words : Words) (a : Arr)
    → write_records k i words (populate_record_array k i cur words a)
      ≡ words_at words cur (records_size k cur words)
unfolding write_records populate_record_array records_size words_at
write-populate zero i cur words a = refl
write-populate (suc k) i cur words a =
    let n = words (cur + 1) in
    let r : Rec = record { key = words cur; data_ints = n; data_ptr = cur + 2 } in
    let here =
      populate-before k (i + 1) (cur + 2 + n) words (update a i r) i (omega arith)
      ∙ update_self a i r in
    let rest = write-populate k (i + 1) (cur + 2 + n) words (update a i r) in
    let size : 2 + n + records_size k (cur + 2 + n) words
        ≡ suc (suc (n + records_size k (cur + 2 + n) words)) =
      omega arith in
    let at : cur + 1 + 1 ≡ cur + 2 = omega arith in
    rw
      (
        here,
        rest,
        size,
        words_at,
        at,
        words_at-split words n (records_size k (cur + 2 + n) words) (cur + 2),
      )
      refl

-- `sort_file` returns the file of the records that it has read, in an order in which the keys
-- ascend.
pub sort_file-IsSorted :
    (r : ℕ) (words : Words) (a : Arr)
    → (b : Arr) × (sort_file r words a ≡ some (write_sorted_data r words b))
      × IsSorted 0 r b
      × Rearranged 0 r (populate_record_array r 0 0 words a) b
unfolding sort_file
sort_file-IsSorted r words a =
    let (b, returns, sorted, same) =
      quick_sort-IsSorted r 0 r (populate_record_array r 0 0 words a) (omega arith) in
    (b, rw (returns, sort_file) refl, sorted, same)
