-- ===== src/Sysfile/Create.antt =====
-- `create` of xv6/sysfile.c and the names and flags that the calls share.
use Prim.Native.Nat.{bit_and}
use fscq.Base.{
  ℕ, ◌+◌, ◌%◌, is_negative, Bool, not, ◌&&◌, ◌==◌, if◌then◌else◌, Option, none, some, [], ◌∷◌,
}
use fscq.Memory.{Bytes, zeroes, cstring}
use fscq.Params.{t_dir, t_file}
use fscq.Machine.{
  Inode, M, Void, ◌>>=◌, ◌>>◌, pure, panic, when, get_inode, modify_inode, unix_time, create_dots,
  create_dirlink,
}
use fscq.Fs.Inode.{ialloc, iupdate, ilock}
use fscq.Fs.Content.{iunlockput}
use fscq.Fs.Dir.{dirlookup, dirlink}
use fscq.Fs.Path.{FilePath, nameiparent}

abbrev pub o_rdonly : ℕ
o_rdonly = 0

abbrev pub o_wronly : ℕ
o_wronly = 1

abbrev pub o_rdwr : ℕ
o_rdwr = 2

abbrev pub o_create : ℕ
o_create = 512

-- `omode & flag`
abbrev pub has_flag : ℕ → ℕ → Bool
has_flag omode flag = not (bit_and omode flag == 0)

abbrev pub dot : Bytes
dot = cstring (b'.' ∷ [])

abbrev pub dot_dot : Bytes
dot_dot = cstring (b'.' ∷ b'.' ∷ [])

-- `ip->nlink++` and `ip->nlink--` on a `short`.
abbrev pub nlink_inc : Inode → Inode
nlink_inc ip = record ip { nlink = (ip.nlink + 1) % 65536 }

abbrev pub nlink_dec : Inode → Inode
nlink_dec ip = record ip { nlink = (ip.nlink + 65535) % 65536 }

-- `create` where the name exists already, as `ip`.
unfoldable pub create_existing : ℕ → ℕ → ℕ → M (Option ℕ)
create_existing dp ip type = do
  iunlockput dp
  ilock ip
  i ← get_inode ip
  if type == t_file && i.type == t_file then pure (some ip) else iunlockput ip >> pure none

-- The entries of a new directory `ip` in `dp`.
unfoldable pub create_dot_entries : ℕ → ℕ → M Void
create_dot_entries dp ip = do
  modify_inode dp nlink_inc
  iupdate dp
  i ← get_inode ip
  d ← get_inode dp
  r ← dirlink ip dot i.inum
  if is_negative r
      then panic create_dots
      else (do r ← dirlink ip dot_dot d.inum; when (is_negative r) (panic create_dots))

-- `create` where the name is new.
unfoldable pub create_new : ℕ → Bytes → ℕ → ℕ → ℕ → M (Option ℕ)
create_new dp name type major minor = do
  d ← get_inode dp
  ip ← ialloc d.dev type
  ilock ip
  modify_inode ip (λ i. record i { major = major; minor = minor; nlink = 1 })
  t ← unix_time
  modify_inode ip (λ i. record i { ctime = t; mtime = t; atime = t })
  iupdate ip
  when (type == t_dir) (create_dot_entries dp ip)
  i ← get_inode ip
  r ← dirlink dp name i.inum
  when (is_negative r) (panic create_dirlink)
  iunlockput dp
  pure (some ip)

unfoldable pub create : FilePath → ℕ → ℕ → ℕ → M (Option ℕ)
create path type major minor = do
  (dp, name) ← nameiparent path zeroes
  elim dp [
    | none ↦ pure none
    | some dp ↦ do
      ilock dp
      found ← dirlookup dp name
      elim found [
        | some (ip, _) ↦ create_existing dp ip type
        | none ↦ create_new dp name type major minor
      ]
  ]
