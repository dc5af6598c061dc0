-- ===== src/Fs.antt =====
-- The file system proper, xv6/fs.c: the bitmap of blocks, the inodes and their cache, the contents
-- of files, directories and path names.
pub mod Block
pub mod Inode
pub mod Content
pub mod Dir
pub mod Path
