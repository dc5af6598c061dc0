-- ===== src/Sysfile/Open.antt =====
-- The calls of xv6/sysfile.c that open, close, read, write and make files. A `void *fh` is the index
-- of an open file, or null.
use fscq.Base.{
  ℕ, ◌%◌, ℤ, pos, minus_one, not, ◌&&◌, ◌||◌, ◌==◌, leb, if◌then◌else◌, Option, none, some,
}
use fscq.Memory.{Bytes}
use fscq.Params.{t_dir, t_file, t_sock, dirent_size, u32}
use fscq.Machine.{
  fd_inode, M, ◌>>=◌, ◌>>◌, pure, undefined_behaviour, get_inode, get_file, modify_file,
}
use fscq.Log.{begin_op, end_op}
use fscq.Fs.Inode.{ilock, iunlock}
use fscq.Fs.Content.{Stat, iunlockput, itrunc}
use fscq.Fs.Path.{FilePath, namei}
use fscq.File.{filealloc, fileclose, filestat, fileread, filewrite}
use fscq.Sysfile.Create.{o_rdonly, o_wronly, o_rdwr, o_create, has_flag, create}

-- The inode that `sys_open` opens, locked; null if there is none, or none that may be opened so.
unfoldable pub open_inode : FilePath → ℕ → M (Option ℕ)
open_inode path omode = if has_flag omode o_create then create path t_file 0 0 else (do
  ip ← namei path
  elim ip [
    | none ↦ pure none
    | some ip ↦ do
      ilock ip
      i ← get_inode ip
      if i.type == t_dir && not (omode == o_rdonly)
          then iunlockput ip >> pure none
          else pure (some ip)
  ])

unfoldable pub sys_open : FilePath → ℕ → M (Option ℕ)
sys_open path omode = do
  begin_op
  ip ← open_inode path omode
  elim ip [
    | none ↦ end_op >> pure none
    | some ip ↦ do
      f ← filealloc
      elim f [
        | none ↦ do iunlockput ip; end_op; pure none
        | some f ↦ do
          iunlock ip
          end_op
          modify_file f (λ x. record x {
            type = fd_inode;
            ip = ip;
            off = 0;
            readable = not (has_flag omode o_wronly);
            writable = has_flag omode o_wronly || has_flag omode o_rdwr;
          })
          pure (some f)
      ]
  ]

-- A `size_t` count becomes an `int`, and an `off_t` a `uint`: the low 32 bits.
-- A close of a null pointer reads through it.
unfoldable pub sys_fileclose : Option ℕ → M ℤ
sys_fileclose none = undefined_behaviour
sys_fileclose (some f) = fileclose f >> pure (pos 0)

unfoldable pub sys_read : Option ℕ → Bytes → ℕ → ℕ → M (ℤ × Bytes)
sys_read none buf sz off = pure (minus_one, buf)
sys_read (some f) buf sz off = do
  modify_file f (λ x. record x { off = off % u32 })
  fileread f buf (sz % u32)

unfoldable pub sys_write : Option ℕ → Bytes → ℕ → ℕ → M ℤ
sys_write none buf sz off = pure minus_one
sys_write (some f) buf sz off = do
  modify_file f (λ x. record x { off = off % u32 })
  filewrite f buf (sz % u32)

unfoldable pub sys_fstat : FilePath → Stat → M (ℤ × Stat)
sys_fstat path st = do
  f ← sys_open path o_rdonly
  elim f [
    | none ↦ pure (minus_one, st)
    | some f ↦ do (r, st) ← filestat f st; fileclose f; pure (r, st)
  ]

unfoldable pub sys_readdirent : Option ℕ → Bytes → ℕ → M (ℤ × Bytes)
sys_readdirent none e off = pure (minus_one, e)
sys_readdirent (some f) e off = do
  x ← get_file f
  ip ← get_inode x.ip
  if not (ip.type == t_dir)
      then pure (minus_one, e)
      else if leb ip.size off
      then pure (pos 0, e)
      else (do modify_file f (λ x. record x { off = off }); fileread f e dirent_size)

unfoldable pub sys_truncate : FilePath → M ℤ
sys_truncate path = do
  f ← sys_open path o_rdwr
  elim f [
    | none ↦ pure minus_one
    | some f ↦ do begin_op; x ← get_file f; itrunc x.ip; end_op; fileclose f; pure (pos 0)
  ]

-- `sys_mkdir` and `sys_mksock` differ in the type that they create.
unfoldable pub sys_make : ℕ → FilePath → M ℤ
sys_make type path = do
  begin_op
  ip ← create path type 0 0
  elim ip [ none ↦ end_op >> pure minus_one | some ip ↦ do iunlockput ip; end_op; pure (pos 0) ]

unfoldable pub sys_mkdir : FilePath → M ℤ
sys_mkdir = sys_make t_dir

unfoldable pub sys_mksock : FilePath → M ℤ
sys_mksock = sys_make t_sock
