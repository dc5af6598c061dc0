-- ===== src/Lib.antt =====
-- The verification library of xv6fs, the C file system of xv6/: a file system with a redo log on an
-- image file, served through FUSE; and of the request queue of the runtime under src/hslib.
--
-- A request goes from a handler of xv6/fuse.c to a call of xv6/sysfile.c, which brackets it with
-- `begin_op` and `end_op` of the log, works on open files (xv6/file.c), path names, directories,
-- inodes and blocks (xv6/fs.c), and reaches the image through the buffer cache (xv6/bio.c) and the
-- driver (xv6/ide.c). xv6/mkfs.c makes the image.
--
-- All static variables are the record `Sys` of Machine.antt, and a C function is a command
-- `Sys → Run A`. A command returns (`ok`), exits in `panic` (`panicked`) or after an I/O error
-- (`exited`), waits for ever (`spins`), does what C leaves undefined (`undefined`), or has been given
-- too few rounds (`out_of_fuel`). The process has one thread and its locks have empty bodies, so a
-- wait for a flag that only another thread could clear never ends. A pointer into a table is an index.
-- A field of 16 or 32 bits is its pattern, a natural number; its sums are taken modulo 2 ^ 16 and
-- 2 ^ 32. The counts that may go below zero are integers.
--
--   Base, Memory     numbers, lists, lemmas; bytes, little-endian fields, bits, C strings
--   Params           the constants of xv6/param.h, xv6/fs.h, xv6/stat.h
--   Machine          the state, outcomes and commands
--   Ide              xv6/ide.c, and unix_read, unix_write, unix_flush of xv6/fuse.c
--   Bio              xv6/bio.c; Bio/View is the abstract view of the cache, Bio/Read, Bio/Write and
--                    Bio/Release are about bread, bwrite and brelse
--   Log              xv6/log.c; Log/Header is about the header, Log/Transaction about begin_op, end_op
--                    and log_write; Log/Copy is about a round of the copy loops and a write of the
--                    header, Log/Crash says what a crash leaves of the disk and what a recovery is
--                    to make of that, Log/Commit is about commit, Log/Recover about recover_from_log,
--                    Log/Update about a change of a block within a transaction
--   Fs               xv6/fs.c, by its parts: Fs/Block (balloc, bfree), Fs/Inode (iget, ilock, iupdate),
--                    Fs/Content (bmap, readi, writei, iput), Fs/Dir, Fs/Path; Fs/Block/Alloc is about
--                    balloc, Fs/Content/Readi and Fs/Content/Writei are about the bytes of a file,
--                    Fs/Dir/Lookup and Fs/Dir/Link are about the
--                    entries of a directory
--   File             xv6/file.c and xv6/pipe.c; File/Read is about fileread, File/Save and
--                    File/Write about filewrite
--   Sysfile          xv6/sysfile.c, by Create, Open and Links; Sysfile/Rename is about the transactions
--                    of sys_rename
--   Fuse             the handlers of xv6/fuse.c, over the constants of the host
--   Mkfs             xv6/mkfs.c; Mkfs/Bitmap is about the bitmap it writes
--   Hslib            src/hslib: Hslib/Opqueue is opqueue.c and opqueue.h, threads that hand requests
--                    over in a ring, a step for each access to what they share, up to the overflow of
--                    `q.puts`; Hslib/Opqueue/Safety, Fifo, Replies and IntRange are about its
--                    schedules; Hslib/Opfuse is opfuse.c, Hslib/Opfuse/Calls about a call through
--                    the ring, Hslib/Opfuse/Overflow about the calls that come to the overflow
--   */Rounds         the rounds that the loops of each part are given (Log, Bio, Fs, File, Sysfile)
--   Examples         runs of the program, and the theorems at concrete inputs
--
-- Loops over a range are structural recursion on its length. Some loops have fuel: `namex` has one
-- round for each character of the path and one more, and each round takes a character; `filewrite`
-- has one round for each byte and one more, and each round that goes on writes a byte at least;
-- `readdir` has one for each entry and one more. `readi`, `zeroi` and `writei` have one
-- for each byte and one more, and each round copies a byte at least.
--
-- A crash keeps the writes of the trace up to the last flush, and of those after it any; it does not
-- tear the write of a block, and the host's fsync does what it says. The disk at the start of a
-- commit is taken to be all there.
--
-- The bytes of a file are those of its blocks in the view of the cache, and the entries of a directory
-- are parts of these bytes. The theorems on them are about files without a double indirect
-- block, and those on writes about ranges within the size of the file.
--
-- Not modelled: the Coq development under src/, its OCaml runtime and the Haskell part of its
-- Haskell runtime, and the benchmarks;
-- the empty spin locks; FUSE itself, and errors of the host's I/O other than a read beyond the image.
pub mod Base
pub mod Memory
pub mod Params
pub mod Machine
pub mod Ide
pub mod Bio
pub mod Log
pub mod Fs
pub mod File
pub mod Sysfile
pub mod Fuse
pub mod Mkfs
pub mod Hslib
mod Examples
