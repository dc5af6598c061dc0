-- ===== src/Sysfile/Links.antt =====
-- The calls of xv6/sysfile.c that remove, link and rename files, and that set their time.
use fscq.Base.{
  ℕ, zero, suc, ◌+◌, ◌*◌, ℤ, pos, negsuc, minus_one, is_nat, is_negative, Bool, true, false, not,
  ◌||◌, ◌==◌, leb, if◌then◌else◌, none, some,
}
use fscq.Memory.{Bytes, zeroes}
use fscq.Params.{t_dir, dirent_size}
use fscq.Machine.{
  Inode, M, ◌>>=◌, ◌>>◌, pure, panic, when, get_inode, modify_inode, get_file, isdirempty_readi,
  unlink_nlink, unlink_writei,
}
use fscq.Log.{begin_op, end_op}
use fscq.Fs.Inode.{iupdate, ilock, iunlock}
use fscq.Fs.Content.{iput, iunlockput, writei}
use fscq.Fs.Dir.{dirlookup, dirlink, read_entry, entries, namecmp_eq, de_inum}
use fscq.Fs.Path.{FilePath, namei, nameiparent}
use fscq.File.{fileclose}
use fscq.Sysfile.Create.{o_wronly, dot, dot_dot, nlink_inc, nlink_dec}
use fscq.Sysfile.Open.{sys_open}

-- The loop of `isdirempty`, from `off` for `k` rounds.
unfoldable pub isdirempty_loop : ℕ → Bytes → ℕ → ℕ → M Bool
isdirempty_loop dp de off zero = pure true
isdirempty_loop dp de off (suc k) = do
  de ← read_entry isdirempty_readi dp de off
  let rest = isdirempty_loop dp de (off + dirent_size) k
  if de_inum de == 0 then rest else pure false

unfoldable pub isdirempty : ℕ → M Bool
isdirempty dp = do
  d ← get_inode dp
  isdirempty_loop dp zeroes (2 * dirent_size) (entries d.size (2 * dirent_size))

-- ENOENT of sysfile.c
abbrev pub enoent : ℤ
enoent = negsuc 1

abbrev is_enoent : ℤ → Bool
is_enoent (pos n) = false
is_enoent (negsuc n) = n == 1

-- The removal of the entry at `off` of `dp`, and of a link to `ip`.
unfoldable pub unlink_entry : ℕ → ℕ → ℕ → M ℤ
unlink_entry dp ip off = do
  r ← writei dp zeroes off dirent_size
  if not (is_nat dirent_size r) then panic unlink_writei else (do
    i ← get_inode ip
    when (i.type == t_dir) (do modify_inode dp nlink_dec; iupdate dp)
    iunlockput dp
    modify_inode ip nlink_dec
    iupdate ip
    iunlockput ip
    pure (pos 0))

-- `ip->nlink < 1` on a `short`.
abbrev no_links : Inode → Bool
no_links ip = ip.nlink == 0 || leb 32768 ip.nlink

-- `sys_dounlink` from where the entry is found.
unfoldable pub unlink_found : ℕ → ℕ → ℕ → M ℤ
unlink_found dp ip off = do
  ilock ip
  i ← get_inode ip
  if no_links i then panic unlink_nlink else (do
    empty ← if i.type == t_dir then isdirempty ip else pure true
    if not empty then (do iunlockput ip; iunlockput dp; pure minus_one) else unlink_entry dp ip off)

unfoldable pub sys_dounlink : FilePath → M ℤ
sys_dounlink path = do
  (dp, name) ← nameiparent path zeroes
  elim dp [
    | none ↦ pure minus_one
    | some dp ↦ do
      ilock dp
      if namecmp_eq name dot || namecmp_eq name dot_dot
          then (iunlockput dp >> pure minus_one)
          else (do
            found ← dirlookup dp name
            elim found [
              | none ↦ iunlockput dp >> pure enoent
              | some (ip, off) ↦ unlink_found dp ip off
            ])
  ]

unfoldable pub sys_unlink : FilePath → M ℤ
sys_unlink path = do begin_op; r ← sys_dounlink path; end_op; pure r

-- `bad:` of `sys_dolink`
unfoldable pub dolink_bad : ℕ → M ℤ
dolink_bad ip = do ilock ip; modify_inode ip nlink_dec; iupdate ip; iunlockput ip; pure minus_one

-- `sys_dolink` from the lookup of the new name's directory.
unfoldable pub dolink_new : ℕ → FilePath → M ℤ
dolink_new ip new = do
  (dp, name) ← nameiparent new zeroes
  elim dp [
    | none ↦ dolink_bad ip
    | some dp ↦ do
      ilock dp
      d ← get_inode dp
      i ← get_inode ip
      r ← if d.dev == i.dev then dirlink dp name i.inum else pure minus_one
      iunlockput dp
      if is_negative r then dolink_bad ip else (iput ip >> pure (pos 0))
  ]

-- Two of its error paths end a transaction that the caller ends again.
unfoldable pub sys_dolink : FilePath → FilePath → M ℤ
sys_dolink old new = do
  ip ← namei old
  elim ip [
    | none ↦ end_op >> pure minus_one
    | some ip ↦ do
      ilock ip
      i ← get_inode ip
      if i.type == t_dir
          then (do iunlockput ip; end_op; pure minus_one)
          else (do modify_inode ip nlink_inc; iupdate ip; iunlock ip; dolink_new ip new)
  ]

unfoldable pub sys_rename : FilePath → FilePath → M ℤ
sys_rename path1 path2 = do
  begin_op
  r ← sys_dounlink path2
  r ←
      if is_nat 0 r || is_enoent r
      then (do r ← sys_dolink path1 path2; if is_nat 0 r then sys_dounlink path1 else pure r)
      else pure r
  end_op
  pure r

unfoldable pub sys_utime : FilePath → ℕ → M ℤ
sys_utime path time = do
  f ← sys_open path o_wronly
  elim f [
    | none ↦ pure minus_one
    | some f ↦ do
      begin_op
      x ← get_file f
      ilock x.ip
      modify_inode x.ip (λ ip. record ip { mtime = time })
      iupdate x.ip
      iunlock x.ip
      end_op
      fileclose f
      pure (pos 0)
  ]
