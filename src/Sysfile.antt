-- ===== src/Sysfile.antt =====
-- The file system calls, xv6/sysfile.c.
pub mod Create
pub mod Open
pub mod Links
pub mod Rename
pub mod Rounds
