-- ===== src/Lib.antt =====
-- A model of the core of the operating-system projects: the process table and the multi-level
-- feedback scheduler of Project2b, the threads of Project4b, the shared pages of Project3b, the
-- checksummed file system of Project5b, the file system checker of Project5a, the connection pool of
-- the web server of Project4a, the record sort of Project1a, and the linked list of the shell of
-- Project2a.
--
-- The parts, and where they stand:
--   Prelude          lists, options, byte arithmetic and bits, updates of a function, and bounded
--                    loops (`find_from`, `for_each`), shared by all.
--   Tally            how many entries of an array pass a test, and arrays with the same entries.
--   Str              Project5b/xv6/kernel/string.c: `memset`, `memcmp`, `memmove`, `strncmp`,
--                    `strncpy`, `safestrcpy`, `strlen` on a memory of bytes.
--   Proc.Table       the data of Project2b/xv6/kernel/proc.h and of `ptable` in proc.c. A process
--                    pointer is the index of its slot, NULL is `none`.
--   Proc.Queue       the loops that put a process into a level of `ptable.queues` and take it out.
--   Proc.Wakeup      `wakeup1`, `kill`, `sleep` and `yield`.
--   Proc.Life        `allocproc`, `fork`, `exit`, and one round of the loop of `wait`.
--   Proc.Sched       one turn of `scheduler`: `pick` scans the four levels, `after_run` and
--                    `after_run_last` deal with a used-up time slice.
--   Proc.Tick        the timer branch of `trap` in Project2b/xv6/kernel/trap.c: tick counts and the
--                    boost of starving processes.
--   Threads.Table    the data of Project4b/xv6/kernel/proc.h, the words of user memory, `wakeup1`.
--   Threads          the functions of Project4b/xv6/kernel/proc.c that deal with threads:
--                    `allocthread`, `thread_fork`, `sys_clone`, `exit`, one round of `wait` and of
--                    `sys_join`, and `growproc`.
--   Shm              the shared pages in Project3b/xv6/kernel/vm.c: `shminit`, `sys_shmgetat` with
--                    `attach_pages_to_process`, `sys_shmdt`, `sys_shm_refcount`, and their part of
--                    `fork` and `copyuvm`; Shm.Reach has the states that they lead to.
--   Args             Project3b/xv6/kernel/syscall.c: how system calls fetch words, strings and
--                    pointers, `fetchint`, `fetchstr`, `argint`, `argptr` and `argstr`.
--   Pipe             Project5b/xv6/kernel/pipe.c: the ring buffer, `pipewrite` and `piperead` up to
--                    their next sleep, and `pipeclose`.
--   File             `filealloc`, `filedup` and `fileclose` of Project5b/xv6/kernel/file.c.
--   Fs.Block         `readsb`, `bzero`, `balloc` and `bfree` of Project5b/xv6/kernel/fs.c.
--   Fs.Checksum      the `CH_` macros of Project5b/xv6/include/fs.h and `calculate_checksum`.
--   Fs.Inode         `bmap`, `fetch_checksum`, `update_checksum`, `iupdate`, `readi`, `writei`.
--   Fs.Itrunc        `itrunc`, and the copy from the disk inode in `ilock`.
--   Fs.Icache        the inode cache of fs.c: `ialloc`, `iget`, `idup`, `ilock`, `iunlock`, `iput`
--                    and `iunlockput` on a table of entries with reference counts.
--   Fs.Dir           `namecmp` and `dirlookup` of fs.c.
--   Fs.Stat          `calculate_file_checksum` and `stati` of fs.c.
--   Fs.Path          `skipelem` of fs.c.
--   FsCheck          the file system checker, Project5a/main.c: `Image` reads blocks, inodes and
--                    directory entries, `Marks` has the checker's tables and its checks on blocks,
--                    `Dirs` the walks over directories, `Main` the order of all checks.
--   LinkedList       Project2a/linked_list.c, on a memory of cells.
--   Server           Project4a/server.c: `put_buffer`, `get_buffer`, `free_buffer`, the two critical
--                    sections that use them, and the waits and signals around these; Server.Pool has
--                    the interleavings of the critical sections, Server.Awake those of the turns.
--   VarSort          Project1a/mannual_sorting_varsort.c: `quick_sort` on an array of records, and
--                    in VarSort.Files the reading and writing of the files.
--
-- How they interact: `fork` and `timer_tick` use the queues that the scheduler scans; `exit` and
-- `wait` meet through `wakeup1` and the sleep channels, which are the addresses of slots; `writei`
-- reaches blocks by `bmap`, which allocates by `balloc`, and seals them by `update_checksum`; the last
-- `iput` of an inode without links frees its blocks by `itrunc`, and stores it by `iupdate`, from
-- where the next `ilock` loads it. `sys_join` gives back what `thread_fork` took and `exit` left; the
-- main thread of the server and its workers meet in the buffer, and by the signals on `empty` and `full`. A child of `fork` shares the keys
-- of its parent, and `exit` and `exec` let go of them by `sys_shmdt`.
--
-- Conventions. A panic of the kernel is `none`. An operation on the process table is one
-- function of the table, as if nothing ran in between: the source holds `ptable.lock` in it, but
-- for `fork` behind `allocproc`, and for the files that `exit` closes first. Calls into other
-- parts of the kernel (`filedup`, `kfree` and so on) are logged in `calls`. A critical section
-- of the server is one step, cut at its wait; a thread that waits takes no turn until it is woken. An
-- access of the checker past the end of its tables has no outcome of the program, but
-- `undefined_behaviour`. What `kalloc`, `copyuvm` and `allocuvm` return is
-- an argument, as is what a process does between its two context switches. A disk is a function
-- from block numbers to blocks; buffers count as written through. Machine words are native
-- numbers with the wrap-around written out where the source can reach it.
--
-- Fuel. `readi` and `writei` take as many rounds as there are bytes left, since each round
-- moves at least a byte; `dirlookup` takes `size / BSIZE + 1`; `balloc` takes `size / bpb + 1`
-- rounds, since each covers `bpb` blocks. `strlen` takes fuel as a bound on where the
-- terminator stands. The loops of the linked list take fuel; one round more than the list is
-- long is enough. The loops of the checker are counted. `quick_sort` on `n` records takes `n` as a
-- bound on its depth, since each part is shorter; its inner scans take at most `n` rounds, and its
-- outer loop `n + 1`. The loops over the shared pages are counted: `usertop / pgsize` rounds reach every
-- page of a page table.
--
-- Not modelled: interrupts, locks and context switches on the hardware; page tables but for the
-- shared pages, `exec`, the buffer cache and the disk driver; `dirlink` and `namex`; the user programs; the copies of
-- the kernel in the other projects where they are the same; of the host programs the sockets and
-- requests of Project4a, the statistics server of Project3a, the variants of the sort of Project1a
-- that call `qsort`, and the shell of Project2a around its list.
pub mod Prelude
pub mod Str
pub mod LinkedList
pub mod Proc
pub mod Pipe
pub mod File
pub mod Fs
pub mod FsCheck
pub mod Tally
pub mod VarSort
pub mod Server
pub mod Threads
pub mod Shm
pub mod Args
