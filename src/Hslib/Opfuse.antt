-- ===== src/Hslib/Opfuse.antt =====
-- The handlers of src/hslib/opfuse.c. Each fills in an operation on its stack, calls `execute` of
-- opqueue.c with it and returns its `err`: the thread `c` of FUSE begins the call, its further
-- steps are those of `execute`, and what it returns with is the handler's result, which the void
-- `opfuse_destroy` drops.
pub mod Calls
pub mod Overflow
use fscq.Base.{ℕ, ℤ}
use fscq.Hslib.Opqueue.{Event, call}
use fscq.Hslib.Opqueue.Operations.{Name, OpType, Member, Request}

-- What FUSE calls, with the arguments of the call.
pub data Callback : Type 0 where
  getattr : Name → ℕ → Callback
  mknod : Name → ℕ → ℕ → Callback
  mkdir : Name → ℕ → Callback
  unlink : Name → Callback
  rmdir : Name → Callback
  open_file : Name → ℕ → Callback
  release : Name → ℕ → Callback
  read : Name → ℕ → ℕ → ℤ → ℕ → Callback
  write : Name → ℕ → ℕ → ℤ → ℕ → Callback
  fsync : Name → ℤ → ℕ → Callback
  fsyncdir : Name → ℤ → ℕ → Callback
  truncate : Name → ℤ → Callback
  rename : Name → Name → Callback
  chmod : Name → ℕ → Callback
  statfs : Name → ℕ → Callback
  opendir : Name → ℕ → Callback
  readdir : Name → ℕ → ℕ → ℤ → ℕ → Callback
  releasedir : Name → ℕ → Callback
  utime : Name → ℕ → Callback
  destroy : ℕ → Callback
  create : Name → ℕ → ℕ → Callback

module _ (c : ℕ) where
  unfoldable opfuse_getattr : Name → ℕ → Event
  opfuse_getattr path stbuf =
      call c (record { op_type = OpType.op_getattr; u = Member.getattr path stbuf })

  unfoldable opfuse_mknod : Name → ℕ → ℕ → Event
  opfuse_mknod path mode rdev =
      call c (record { op_type = OpType.op_mknod; u = Member.mknod path mode rdev })

  unfoldable opfuse_mkdir : Name → ℕ → Event
  opfuse_mkdir path mode = call c (record { op_type = OpType.op_mkdir; u = Member.mkdir path mode })

  unfoldable opfuse_unlink : Name → Event
  opfuse_unlink path = call c (record { op_type = OpType.op_unlink; u = Member.unlink path })

  unfoldable opfuse_rmdir : Name → Event
  opfuse_rmdir path = call c (record { op_type = OpType.op_rmdir; u = Member.rmdir path })

  unfoldable opfuse_open : Name → ℕ → Event
  opfuse_open path fi = call c (record { op_type = OpType.op_open; u = Member.open_file path fi })

  unfoldable opfuse_release : Name → ℕ → Event
  opfuse_release path fi =
      call c (record { op_type = OpType.op_release; u = Member.release path fi })

  unfoldable opfuse_read : Name → ℕ → ℕ → ℤ → ℕ → Event
  opfuse_read path buf size offset fi =
      call c (record { op_type = OpType.op_read; u = Member.read path buf size offset fi })

  unfoldable opfuse_write : Name → ℕ → ℕ → ℤ → ℕ → Event
  opfuse_write path buf size offset fi =
      call c (record { op_type = OpType.op_write; u = Member.write path buf size offset fi })

  unfoldable opfuse_fsync : Name → ℤ → ℕ → Event
  opfuse_fsync path isdatasync fi =
      call c (record { op_type = OpType.op_fsync; u = Member.fsync path isdatasync fi })

  unfoldable opfuse_fsyncdir : Name → ℤ → ℕ → Event
  opfuse_fsyncdir path isdatasync fi =
      call c (record { op_type = OpType.op_fsyncdir; u = Member.fsyncdir path isdatasync fi })

  unfoldable opfuse_truncate : Name → ℤ → Event
  opfuse_truncate path size =
      call c (record { op_type = OpType.op_truncate; u = Member.truncate path size })

  unfoldable opfuse_rename : Name → Name → Event
  opfuse_rename from to = call c (record { op_type = OpType.op_rename; u = Member.rename from to })

  unfoldable opfuse_chmod : Name → ℕ → Event
  opfuse_chmod path mode = call c (record { op_type = OpType.op_chmod; u = Member.chmod path mode })

  unfoldable opfuse_statfs : Name → ℕ → Event
  opfuse_statfs path stbuf =
      call c (record { op_type = OpType.op_statfs; u = Member.statfs path stbuf })

  unfoldable opfuse_opendir : Name → ℕ → Event
  opfuse_opendir path fi =
      call c (record { op_type = OpType.op_opendir; u = Member.opendir path fi })

  unfoldable opfuse_readdir : Name → ℕ → ℕ → ℤ → ℕ → Event
  opfuse_readdir path buf filler offset fi =
      call c (record { op_type = OpType.op_readdir; u = Member.readdir path buf filler offset fi })

  unfoldable opfuse_releasedir : Name → ℕ → Event
  opfuse_releasedir path fi =
      call c (record { op_type = OpType.op_releasedir; u = Member.releasedir path fi })

  unfoldable opfuse_utime : Name → ℕ → Event
  opfuse_utime path buf = call c (record { op_type = OpType.op_utime; u = Member.utime path buf })

  unfoldable opfuse_destroy : ℕ → Event
  opfuse_destroy arg = call c (record { op_type = OpType.op_destroy; u = Member.destroy })

  unfoldable opfuse_create : Name → ℕ → ℕ → Event
  opfuse_create path mode info =
      call c (record { op_type = OpType.op_create; u = Member.create path mode info })

  -- The table of the handlers.
  unfoldable pub opfuse_oper : Callback → Event
  unfolding opfuse_getattr opfuse_mknod opfuse_mkdir opfuse_unlink opfuse_rmdir opfuse_open
      opfuse_release opfuse_read opfuse_write opfuse_fsync opfuse_fsyncdir opfuse_truncate
      opfuse_rename opfuse_chmod opfuse_statfs opfuse_opendir opfuse_readdir opfuse_releasedir
      opfuse_utime opfuse_destroy opfuse_create
  opfuse_oper (Callback.getattr path stbuf) = opfuse_getattr path stbuf
  opfuse_oper (Callback.mknod path mode rdev) = opfuse_mknod path mode rdev
  opfuse_oper (Callback.mkdir path mode) = opfuse_mkdir path mode
  opfuse_oper (Callback.unlink path) = opfuse_unlink path
  opfuse_oper (Callback.rmdir path) = opfuse_rmdir path
  opfuse_oper (Callback.open_file path fi) = opfuse_open path fi
  opfuse_oper (Callback.release path fi) = opfuse_release path fi
  opfuse_oper (Callback.read path buf size offset fi) = opfuse_read path buf size offset fi
  opfuse_oper (Callback.write path buf size offset fi) = opfuse_write path buf size offset fi
  opfuse_oper (Callback.fsync path isdatasync fi) = opfuse_fsync path isdatasync fi
  opfuse_oper (Callback.fsyncdir path isdatasync fi) = opfuse_fsyncdir path isdatasync fi
  opfuse_oper (Callback.truncate path size) = opfuse_truncate path size
  opfuse_oper (Callback.rename from to) = opfuse_rename from to
  opfuse_oper (Callback.chmod path mode) = opfuse_chmod path mode
  opfuse_oper (Callback.statfs path stbuf) = opfuse_statfs path stbuf
  opfuse_oper (Callback.opendir path fi) = opfuse_opendir path fi
  opfuse_oper (Callback.readdir path buf filler offset fi) =
      opfuse_readdir path buf filler offset fi
  opfuse_oper (Callback.releasedir path fi) = opfuse_releasedir path fi
  opfuse_oper (Callback.utime path buf) = opfuse_utime path buf
  opfuse_oper (Callback.destroy arg) = opfuse_destroy arg
  opfuse_oper (Callback.create path mode info) = opfuse_create path mode info
