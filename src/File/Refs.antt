-- ===== src/File/Refs.antt =====
-- Reference counts: an open file is released once, with its last reference.
use cs537_intro_to_os.Prelude.{
  ℕ, zero, suc, ◌+◌, ◌-◌, ◌<◌, ◌≡◌, ◌≢◌, ◌⊎◌, refl, ◌==◌, Bool, true, false, ltb, update, Option,
  none, some, arith, find_from, find_from-some, find_from-none, IsFirst, inl, inr, Option-cases,
  ==_iff, ap, ◌∙◌,
}
use cs537_intro_to_os.File.{
  nfile, fd_none, Ftable, set_file, filealloc, filedup, release, fileclose,
}

-- Doing an operation that may panic `n` times.
unfoldable pub repeat : ℕ → (Ftable → Option Ftable) → Ftable → Option Ftable
repeat zero op t = some t
repeat (suc n) op t = elim (op t) [ none ↦ none | some u ↦ repeat n op u ]

-- An entry after one of its operations.
pub record Counted (f n : ℕ) (t u : Ftable) : Type 0 where
  pub count : (u.files f).ref ≡ n
  pub same : u.files f ≡ record (t.files f) { ref = n }
  pub others : (g : ℕ) → g ≢ f → u.files g ≡ t.files g
  pub calls : u.calls ≡ t.calls

-- A file with `k + 1` references that is duplicated `n` times has `k + 1 + n`, and nothing else
-- changes.
pub filedup-Counted :
    (n k f : ℕ) (t : Ftable)
    → (t.files f).ref ≡ suc k
    → (u : Ftable) × (repeat n (filedup f) t ≡ some u) × Counted f (suc k + n) t u
unfolding repeat filedup
filedup-Counted zero k f t e = (
  t,
  refl,
  record {
    count = omega (arith, e);
    same = ap (λ r. record (t.files f) { ref = r }) (omega (arith, e));
    others = λ g o. refl;
    calls = refl;
  },
)
filedup-Counted (suc n) k f t e =
    let t1 = set_file t f (record (t.files f) { ref = (t.files f).ref + 1 }) in
    let alive : ltb (t.files f).ref 1 ≡ false = ground arith in
    let (u, runs, c) = filedup-Counted n (suc k) f t1 (ground arith) in
    (
      u,
      rw (alive, repeat) runs,
      record {
        count = c.count ∙ omega arith;
        same = c.same ∙ ground arith;
        others = λ g o. c.others g o ∙ ground arith;
        calls = c.calls;
      },
    )

-- What the last close leaves.
pub record Closed (f : ℕ) (t u : Ftable) : Type 0 where
  pub free : (u.files f).ref ≡ 0
  pub no_type : (u.files f).type ≡ fd_none
  pub others : (g : ℕ) → g ≢ f → u.files g ≡ t.files g
  pub calls : u.calls ≡ release (t.files f) t.calls

-- A file with `n + 1` references can be closed `n + 1` times: the entry is then free, and the pipe
-- or the inode behind it has been released once, whatever its number of references was.
pub fileclose-Closed :
    (n f : ℕ) (t : Ftable)
    → (t.files f).ref ≡ suc n
    → (u : Ftable) × (repeat (suc n) (fileclose f) t ≡ some u) × Closed f t u
unfolding repeat fileclose
fileclose-Closed zero f t e =
    let alive : ltb (t.files f).ref 1 ≡ false = ground arith in
    let last : ltb 0 ((t.files f).ref - 1) ≡ false = ground arith in
    let closed = record t {
      files = update t.files f (record (t.files f) { ref = 0; type = fd_none });
      calls = release (t.files f) t.calls;
    } in
    (
      closed,
      rw (alive, repeat, last) refl,
      record {
        free = ground arith;
        no_type = ground arith;
        others = λ g o. ground arith;
        calls = refl;
      },
    )
fileclose-Closed (suc n) f t e =
    let t1 = set_file t f (record (t.files f) { ref = (t.files f).ref - 1 }) in
    let alive : ltb (t.files f).ref 1 ≡ false = ground arith in
    let more : ltb 0 ((t.files f).ref - 1) ≡ true = ground arith in
    let (u, runs, c) = fileclose-Closed n f t1 (ground arith) in
    (
      u,
      rw (alive, repeat, more) runs,
      record {
        free = c.free;
        no_type = c.no_type;
        others = λ g o. c.others g o ∙ ground arith;
        calls = c.calls ∙ ground arith;
      },
    )

-- `filealloc` gives the first free entry a single reference and changes nothing else; it fails only
-- when every entry has a reference.
pub filealloc_lem :
    (t : Ftable)
    → ((f : ℕ) × (filealloc t ≡ (some f, set_file t f (record (t.files f) { ref = 1 })))
        × (f < nfile)
        × ((t.files f).ref ≡ 0)
        × ((g : ℕ) → g < f → (t.files g).ref ≢ 0))
      ⊎ ((filealloc t ≡ (none, t)) × ((g : ℕ) → g < nfile → (t.files g).ref ≢ 0))
unfolding filealloc
filealloc_lem t = elim (Option-cases (find_from nfile 0 test)) [
  | inl e ↦ inr (
    rw (e, filealloc) refl,
    λ g lt z.
        let used = find_from-none nfile 0 test e g (omega arith) (omega arith) in ground arith,
  )
  | inr (f, e) ↦
      let first : IsFirst test 0 nfile f = find_from-some nfile 0 test e in
      inl (
        f,
        rw (e, filealloc) refl,
        first.below,
        (==_iff _ _).0 first.passes,
        λ g lt z. let used = first.first g (omega arith) lt in ground arith,
      )
]
  where
    test : ℕ → Bool
    test f = (t.files f).ref == 0
