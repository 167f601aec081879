-- ===== src/File.antt =====
-- The table of open files, Project5b/xv6/kernel/file.c (the same text in every project's kernel). A
-- file pointer is the index of its entry; `none` for a result of type `Ftable` is a panic.
pub mod Refs
mod Tests
use cs537_intro_to_os.Prelude.{
  ℕ, ◌+◌, ◌-◌, ◌==◌, Bool, true, false, ltb, if◌then◌else◌, update, Option, none, some, List, [],
  ◌∷◌, find_from,
}

abbrev pub nfile : ℕ
nfile = 100

-- `enum { FD_NONE, FD_PIPE, FD_INODE }`
pub data FileType : Type 0 where
  fd_none fd_pipe fd_inode : FileType

pub record File : Type 0 where
  pub type : FileType
  pub ref : ℕ
  pub readable : Bool
  pub writable : Bool
  pub pipe : ℕ
  pub ip : ℕ
  pub off : ℕ

-- A call into the pipes or the inode cache.
pub data Released : Type 0 where
  pipeclose_call : (pipe : ℕ) → (writable : Bool) → Released
  iput_call : (ip : ℕ) → Released

-- `ftable`; `calls` logs the calls made, the latest first.
pub record Ftable : Type 0 where
  pub files : ℕ → File
  pub calls : List Released

abbrev pub set_file : Ftable → ℕ → File → Ftable
set_file t f file = record t { files = update t.files f file }

unfoldable pub filealloc : Ftable → Option ℕ × Ftable
filealloc t = elim (find_from nfile 0 (λ f. (t.files f).ref == 0)) [
  | none ↦ (none, t)
  | some f ↦ (some f, set_file t f (record (t.files f) { ref = 1 }))
]

unfoldable pub filedup : ℕ → Ftable → Option Ftable
filedup f t =
    let file = t.files f in
    if ltb file.ref 1 then none else some (set_file t f (record file { ref = file.ref + 1 }))

-- the calls at the end of `fileclose`, on the copy of the entry
abbrev pub release : File → List Released → List Released
release file calls = elim file.type [
  | fd_none ↦ calls
  | fd_pipe ↦ pipeclose_call file.pipe file.writable ∷ calls
  | fd_inode ↦ iput_call file.ip ∷ calls
]

unfoldable pub fileclose : ℕ → Ftable → Option Ftable
fileclose f t =
    let file = t.files f in
    let fewer = set_file t f (record file { ref = file.ref - 1 }) in
    let closed = record t {
      files = update t.files f (record file { ref = 0; type = fd_none });
      calls = release file t.calls;
    } in
    if ltb file.ref 1 then none else (if ltb 0 (file.ref - 1) then some fewer else some closed)
