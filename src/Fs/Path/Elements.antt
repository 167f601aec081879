-- ===== src/Fs/Path/Elements.antt =====
-- `skipelem` takes a path apart at its slashes.
use cs537_intro_to_os.Prelude.{
  ℕ, zero, suc, ◌≡◌, refl, sym, ◌∙◌, ap, ◌==◌, Bool, true, false, not, ◌&&◌, none, some, List, [],
  ◌∷◌, ◌++◌, take, replicate, arith,
}
use mathlib.Core.List.{append-nil}
use cs537_intro_to_os.Fs.Path.{dirsiz, slash, skip_slashes, element, behind, split, skipelem}

abbrev pub no_slash : List ℕ → Bool
no_slash [] = true
no_slash (c ∷ cs) = not (c == slash) && no_slash cs

abbrev pub leading_slash : List ℕ → Bool
leading_slash [] = false
leading_slash (c ∷ cs) = c == slash

skip_slashes-replicate :
    (n : ℕ) (xs : List ℕ) → skip_slashes (replicate n slash ++ xs) ≡ skip_slashes xs
unfolding skip_slashes
skip_slashes-replicate zero xs = refl
skip_slashes-replicate (suc n) xs = skip_slashes-replicate n xs

skip_slashes-none : (xs : List ℕ) → leading_slash xs ≡ false → skip_slashes xs ≡ xs
unfolding skip_slashes
skip_slashes-none [] e = refl
skip_slashes-none (c ∷ cs) e = rw e refl

element-append :
    (name rest : List ℕ) → no_slash name ≡ true → element (name ++ (slash ∷ rest)) ≡ name
unfolding element
element-append [] rest e = refl
element-append (c ∷ name) rest e = ground (arith, element-append name rest)

behind-append :
    (name rest : List ℕ) → no_slash name ≡ true → behind (name ++ (slash ∷ rest)) ≡ slash ∷ rest
unfolding behind
behind-append [] rest e = refl
behind-append (c ∷ name) rest e = ground (arith, behind-append name rest)

element-all : (name : List ℕ) → no_slash name ≡ true → element name ≡ name
unfolding element
element-all [] e = refl
element-all (c ∷ name) e = ground (arith, element-all name)

behind-all : (name : List ℕ) → no_slash name ≡ true → behind name ≡ []
unfolding behind
behind-all [] e = refl
behind-all (c ∷ name) e = ground (arith, behind-all name)

split-cons :
    (c : ℕ) (name xs ys : List ℕ)
    → element (c ∷ name) ≡ xs
    → skip_slashes (behind (c ∷ name)) ≡ ys
    → split (c ∷ name) ≡ some (take dirsiz xs, ys)
split-cons c name xs ys e f = rw (e, f) refl

starts : (c : ℕ) (name : List ℕ) → no_slash (c ∷ name) ≡ true → (c == slash) ≡ false
starts c name e = ground arith

-- Any number of slashes may stand before and behind an element. A path of slashes has no element.
-- Otherwise `skipelem` gives the first element, cut at `dirsiz` bytes, and the path behind it and
-- behind the slashes that follow it; behind the last element that is the empty path.
pub skipelem_lem :
    (n m c : ℕ) (name rest : List ℕ)
    → no_slash (c ∷ name) ≡ true
    → leading_slash rest ≡ false
    → (skipelem (replicate n slash) ≡ none)
      × (skipelem (replicate n slash ++ (c ∷ name)) ≡ some (take dirsiz (c ∷ name), []))
      × (skipelem (replicate n slash ++ ((c ∷ name) ++ (slash ∷ (replicate m slash ++ rest))))
          ≡ some (take dirsiz (c ∷ name), rest))
unfolding skipelem skip_slashes
skipelem_lem n m c name rest e f =
    let tail = name ++ (slash ∷ (replicate m slash ++ rest)) in
    (
      ap (λ xs. split (skip_slashes xs)) (sym (append-nil (replicate n slash)))
          ∙ ap split (skip_slashes-replicate n []),
      ap split
            (skip_slashes-replicate n (c ∷ name) ∙ skip_slashes-none (c ∷ name) (starts c name e))
          ∙ split-cons c name (c ∷ name) [] (element-all (c ∷ name) e)
              (ap skip_slashes (behind-all (c ∷ name) e)),
      ap split
            (skip_slashes-replicate n (c ∷ tail) ∙ skip_slashes-none (c ∷ tail) (starts c name e))
          ∙ split-cons c tail (c ∷ name) rest
              (element-append (c ∷ name) (replicate m slash ++ rest) e)
              (ap skip_slashes (behind-append (c ∷ name) (replicate m slash ++ rest) e)
                ∙ skip_slashes-replicate m rest
                ∙ skip_slashes-none rest f),
    )
