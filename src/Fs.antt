-- ===== src/Fs.antt =====
-- The file system of Project5b/xv6/kernel/fs.c, whose checked files keep a checksum in each block
-- pointer. The buffer cache is not modelled: `bread` gives what the disk holds, and `bwrite` stores.
pub mod Block
pub mod Checksum
pub mod Inode
pub mod Path
pub mod Itrunc
pub mod Icache
pub mod Dir
pub mod Stat
mod Tests
