-- ===== src/FsCheck.antt =====
-- The file system checker, Project5a/main.c: the checks that it makes on the image once it has
-- mapped it. The image is a function from byte addresses; reads past its end are not modelled.
pub mod Image
pub mod Marks
pub mod Dirs
pub mod Main
pub mod Blocks
pub mod Links
pub mod Inodes
pub mod Finished
pub mod Accepted
mod Tests
