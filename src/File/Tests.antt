-- ===== src/File/Tests.antt =====
-- The theorems on the file table at a concrete table.
use cs537_intro_to_os.Prelude.{true, false, [], update}
use cs537_intro_to_os.File.{fd_none, fd_pipe, File, Ftable}

abbrev unused_file : File
unused_file = record {
  type = fd_none;
  ref = 0;
  readable = false;
  writable = false;
  pipe = 0;
  ip = 0;
  off = 0;
}

-- the writing end of the pipe at 4096 in entry 0
abbrev table : Ftable
table = record {
  files =
      update (λ f. unused_file) 0
        (record unused_file { type = fd_pipe; ref = 1; writable = true; pipe = 4096 });
  calls = [];
}
