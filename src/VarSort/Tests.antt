-- ===== src/VarSort/Tests.antt =====
-- The sort on an array of five records, and the files on two.
use cs537_intro_to_os.Prelude.{
  ℕ, ◌==◌, if◌then◌else◌, ◌≡◌, refl, arith, update, Option, some, none, List, [], ◌∷◌,
}
use cs537_intro_to_os.VarSort.{Rec, Arr, scan_up, scan_down, partition, quick_sort}
use cs537_intro_to_os.Tally.{Rearranged}
use cs537_intro_to_os.VarSort.Files.{
  Words, populate_record_array, words_at, write_records, records_size, write-populate,
}
use cs537_intro_to_os.VarSort.Placed.{IsSorted}
use cs537_intro_to_os.VarSort.Sorted.{quick_sort-IsSorted}

abbrev rec_of : (key ptr : ℕ) → Rec
rec_of key ptr = record { key = key; data_ints = 1; data_ptr = ptr }

abbrev five : Arr
five =
    update
      (update
        (update (update (update (λ i. rec_of 0 0) 0 (rec_of 3 10)) 1 (rec_of 5 11)) 2 (rec_of 3 12))
        3 (rec_of 1 13))
      4 (rec_of 4 14)

abbrev ptrs : Option Arr → List ℕ
ptrs none = []
ptrs (some a) =
    (a 0).data_ptr ∷ (a 1).data_ptr ∷ (a 2).data_ptr ∷ (a 3).data_ptr ∷ (a 4).data_ptr ∷ []

five-runs : ptrs (quick_sort 4 0 5 five) ≡ 13 ∷ 12 ∷ 10 ∷ 14 ∷ 11 ∷ []
unfolding quick_sort partition scan_up scan_down
five-runs = refl

quick_sort-IsSorted_example :
    (b : Arr) × (quick_sort 4 0 5 five ≡ some b) × IsSorted 0 5 b × Rearranged 0 5 five b
quick_sort-IsSorted_example = quick_sort-IsSorted 4 0 5 five (omega arith)

-- Two records of one and of two data words.
abbrev words : Words
words =
    λ x. if x == 0 then 7 else if x == 1 then 1 else if x == 3 then 4 else if x == 4 then 2 else x

write-populate_example :
    write_records 2 0 words (populate_record_array 2 0 0 words five)
    ≡ words_at words 0 (records_size 2 0 words)
write-populate_example = write-populate 2 0 0 words five

words-run : words_at words 0 (records_size 2 0 words) ≡ 7 ∷ 1 ∷ 2 ∷ 4 ∷ 2 ∷ 5 ∷ 6 ∷ []
unfolding words_at records_size
words-run = refl
