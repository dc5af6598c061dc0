-- ===== src/Hslib/Opqueue/Operations.antt =====
-- The operations of src/hslib/opqueue.h. A pointer that is only handed on (to a stat buffer, a file
-- info, a filler) is a number.
use fscq.Base.{ℕ, ℤ, List}

-- Characters before the NUL
abbrev pub Name : Type 0
Name = List ℕ

-- op_t
pub data OpType : Type 0 where
  op_getattr op_mknod op_mkdir op_unlink op_open op_release op_rmdir op_fsync op_fsyncdir : OpType
  op_write op_read op_truncate op_opendir op_readdir op_releasedir op_statfs op_destroy : OpType
  op_utime op_rename op_chmod op_create : OpType

-- The member of the union `u` that is written, with the fields of its struct in their order.
pub data Member : Type 0 where
  getattr : (pn : Name) (st : ℕ) → Member
  mknod : (pn : Name) (mode rdev : ℕ) → Member
  mkdir : (pn : Name) (mode : ℕ) → Member
  unlink : (pn : Name) → Member
  open_file : (pn : Name) (info : ℕ) → Member
  release : (pn : Name) (info : ℕ) → Member
  rmdir : (pn : Name) → Member
  fsync : (pn : Name) (isdatasync : ℤ) (info : ℕ) → Member
  fsyncdir : (pn : Name) (isdatasync : ℤ) (info : ℕ) → Member
  write : (pn : Name) (buf bufsiz : ℕ) (off : ℤ) (info : ℕ) → Member
  read : (pn : Name) (buf bufsiz : ℕ) (off : ℤ) (info : ℕ) → Member
  truncate : (pn : Name) (size : ℤ) → Member
  opendir : (pn : Name) (info : ℕ) → Member
  readdir : (pn : Name) (buf fill : ℕ) (off : ℤ) (info : ℕ) → Member
  releasedir : (pn : Name) (info : ℕ) → Member
  statfs : (pn : Name) (st : ℕ) → Member
  destroy : Member
  utime : (pn : Name) (buf : ℕ) → Member
  rename : (src dst : Name) → Member
  chmod : (pn : Name) (mode : ℕ) → Member
  create : (pn : Name) (mode info : ℕ) → Member

-- The fields of struct operation that a handler fills in.
pub record Request : Type 0 where
  pub op_type : OpType
  pub u : Member

-- The tag of a member, by the names of opqueue.h.
abbrev pub tag : Member → OpType
tag (getattr a b) = op_getattr
tag (mknod a b c) = op_mknod
tag (mkdir a b) = op_mkdir
tag (unlink a) = op_unlink
tag (open_file a b) = op_open
tag (release a b) = op_release
tag (rmdir a) = op_rmdir
tag (fsync a b c) = op_fsync
tag (fsyncdir a b c) = op_fsyncdir
tag (write a b c d e) = op_write
tag (read a b c d e) = op_read
tag (truncate a b) = op_truncate
tag (opendir a b) = op_opendir
tag (readdir a b c d e) = op_readdir
tag (releasedir a b) = op_releasedir
tag (statfs a b) = op_statfs
tag destroy = op_destroy
tag (utime a b) = op_utime
tag (rename a b) = op_rename
tag (chmod a b) = op_chmod
tag (create a b c) = op_create
