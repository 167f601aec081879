-- ===== src/Proc/Life/Calls.antt =====
-- The calls that the loops over the open files make.
use cs537_intro_to_os.Prelude.{
  ℕ, zero, suc, ◌+◌, ◌≤◌, ◌≡◌, refl, arith, Option, none, some, List, ◌∷◌,
}
use cs537_intro_to_os.Proc.Table.{Call}

abbrev pub file_call : (call : ℕ → Call) → Option ℕ → List Call → List Call
file_call call none calls = calls
file_call call (some f) calls = call f ∷ calls

-- One call for each open file of the descriptors from `i` on, `k` in number, the latest first.
unfoldable pub file_calls : (call : ℕ → Call) → (k i : ℕ) → (ℕ → Option ℕ) → List Call → List Call
file_calls call zero i files calls = calls
file_calls call (suc k) i files calls =
    file_calls call k (i + 1) files (file_call call (files i) calls)

-- The calls depend on the descriptors of the loop only.
pub file_calls-cong :
    (call : ℕ → Call) (k i : ℕ) (files files' : ℕ → Option ℕ) (calls : List Call)
    → ((fd : ℕ) → i ≤ fd → files fd ≡ files' fd)
    → file_calls call k i files calls ≡ file_calls call k i files' calls
unfolding file_calls
file_calls-cong call zero i files files' calls same = refl
file_calls-cong call (suc k) i files files' calls same = rw (same i (omega arith)) (
    file_calls-cong call k (i + 1) files files' (file_call call (files' i) calls)
      (λ fd le. same fd (omega arith)))
