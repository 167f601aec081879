-- ===== src/Fs/Path.antt =====
-- Path names of fs.c: `skipelem`, on a path as the list of its bytes before the NUL.
pub mod Elements
use cs537_intro_to_os.Prelude.{
  ℕ, ◌==◌, if◌then◌else◌, Bool, true, false, Option, none, some, List, [], ◌∷◌, take,
}

abbrev pub dirsiz : ℕ
dirsiz = 14

-- '/'
abbrev pub slash : ℕ
slash = 47

-- `while(*path == '/') path++;`
unfoldable pub skip_slashes : List ℕ → List ℕ
skip_slashes [] = []
skip_slashes (c ∷ path) = let rest = skip_slashes path in if c == slash then rest else c ∷ path

-- what `while(*path != '/' && *path != 0) path++;` passes over, and where it stops
unfoldable pub element : List ℕ → List ℕ
element [] = []
element (c ∷ path) = let rest = element path in if c == slash then [] else c ∷ rest

unfoldable pub behind : List ℕ → List ℕ
behind [] = []
behind (c ∷ path) = let rest = behind path in if c == slash then c ∷ path else rest

-- What is left of the path at its first element; `name` gets at most `dirsiz` bytes.
abbrev pub split : List ℕ → Option (List ℕ × List ℕ)
split [] = none
split (c ∷ path) = some (take dirsiz (element (c ∷ path)), skip_slashes (behind (c ∷ path)))

-- The name and the rest of the path; `none` is the result 0.
unfoldable pub skipelem : List ℕ → Option (List ℕ × List ℕ)
unfolding skip_slashes element behind
skipelem path = split (skip_slashes path)
