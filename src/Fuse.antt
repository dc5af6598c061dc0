-- ===== src/Fuse.antt =====
-- The FUSE handlers of xv6/fuse.c. What the host's headers and C library fix is the parameter
-- `Host`; the kernel's callbacks are the handlers' arguments, and `filler`'s calls a list of names.
use Prim.Native.Nat.{bit_or}
use fscq.Base.{
  ℕ, zero, suc, ◌+◌, ◌-◌, ℤ, pos, negsuc, minus_one, is_negative, is_nat, Bool, true, false, not,
  ◌&&◌, ◌||◌, ◌==◌, ltb, if◌then◌else◌, Option, none, some, List, [], ◌∷◌, length, reverse,
}
use fscq.Memory.{Bytes, zeroes, shift, memmove, cstring}
use fscq.Params.{t_dir, t_sock, dirent_size}
use fscq.Machine.{
  Stats, Sys, out_of_fuel, M, Void, ◌>>=◌, ◌>>◌, pure, gets, modify, undefined_behaviour,
  modify_stats,
}
use fscq.Bio.{binit}
use fscq.Log.{initlog}
use fscq.Fs.Content.{Stat}
use fscq.Fs.Dir.{de_inum, de_name, entries}
use fscq.Fs.Path.{FilePath}
use fscq.Sysfile.Open.{
  sys_open, sys_fileclose, sys_read, sys_write, sys_fstat, sys_readdirent, sys_truncate, sys_mkdir,
  sys_mksock,
}
use fscq.Sysfile.Links.{sys_unlink, sys_rename}
use fscq.Sysfile.Create.{has_flag, o_create, o_rdwr, o_wronly, o_rdonly}

-- Constants of the host's <fcntl.h> and <sys/stat.h>, the text that `sprintf` makes of the
-- counters, and the macro S_ISSOCK.
pub record Host : Type 0 where
  pub host_creat : ℕ
  pub host_rdwr : ℕ
  pub host_wronly : ℕ
  pub host_rdonly : ℕ
  pub ifreg : ℕ
  pub ifdir : ℕ
  pub ifsock : ℕ
  pub sprintf_stats : Stats → List ℕ
  pub is_sock : ℕ → Bool

-- struct fuse_file_info
pub record FileInfo : Type 0 where
  pub flags : ℕ
  pub fh : Option ℕ

-- struct stat of the host
pub record HostStat : Type 0 where
  pub st_mode : ℕ
  pub st_nlink : ℕ
  pub st_size : ℕ
  pub st_atime : ℕ
  pub st_ctime : ℕ
  pub st_mtime : ℕ

abbrev no_stat : HostStat
no_stat = record {
  st_mode = 0;
  st_nlink = 0;
  st_size = 0;
  st_atime = 0;
  st_ctime = 0;
  st_mtime = 0;
}

abbrev zero_stat : Stat
zero_stat = record {
  dev = 0;
  ino = 0;
  type = 0;
  nlink = 0;
  size = 0;
  mtime = 0;
  ctime = 0;
  atime = 0;
}

abbrev pub zero_stats : Stats
zero_stats = record {
  nread = 0;
  nwrite = 0;
  nflush = 0;
  ngetattr = 0;
  nopen = 0;
  nrelease = 0;
  nreaddir = 0;
  nfuse_read = 0;
  nfuse_write = 0;
  ncreate = 0;
  ntrunc = 0;
  nmkdir = 0;
  nrmdir = 0;
  nunlink = 0;
}

-- `strcmp(a, b) == 0`
unfoldable pub strcmp_eq : List ℕ → List ℕ → Bool
strcmp_eq [] [] = true
strcmp_eq [] (d ∷ ds) = false
strcmp_eq (c ∷ cs) [] = false
strcmp_eq (c ∷ cs) (d ∷ ds) = c == d && strcmp_eq cs ds

-- "/stats"
abbrev stats_path : List ℕ
stats_path = b'/' ∷ b's' ∷ b't' ∷ b'a' ∷ b't' ∷ b's' ∷ []

unfoldable pub is_stats : FilePath → Bool
unfolding strcmp_eq
is_stats path = strcmp_eq path stats_path

-- `-ENOENT` of <errno.h>
abbrev host_enoent : ℤ
host_enoent = negsuc 1

module _ (host : Host) where
  open host use {
    host_creat, host_rdwr, host_wronly, host_rdonly, ifreg, ifdir, ifsock, sprintf_stats, is_sock,
  }

  -- The mode of a file of the type that `sys_fstat` has reported.
  unfoldable pub mode_of : ℕ → ℕ
  mode_of type =
      bit_or 0o777 (if type == t_dir then ifdir else if type == t_sock then ifsock else ifreg)

  unfoldable pub stats_getattr : M (ℤ × HostStat)
  stats_getattr = do
    text ← gets (λ s. sprintf_stats s.stats)
    modify (λ s. record s { statsbuf = text })
    pure (
      pos 0,
      record no_stat { st_mode = bit_or ifreg 0o444; st_nlink = 1; st_size = length text },
    )

  unfoldable pub fuse_getattr : FilePath → M (ℤ × HostStat)
  fuse_getattr path = if is_stats path then stats_getattr else (do
    modify_stats (λ c. record c { ngetattr = c.ngetattr + 1 })
    (r, st) ← sys_fstat path zero_stat
    pure (
        if is_negative r then (host_enoent, no_stat) else (
          r,
          record {
            st_mode = mode_of st.type;
            st_nlink = st.nlink;
            st_size = st.size;
            st_atime = st.atime;
            st_ctime = st.ctime;
            st_mtime = st.mtime;
          },
        )))

  -- The flags that `fuse_create` hands to `sys_open`.
  unfoldable pub create_mode : ℕ → ℕ
  create_mode flags = bit_or (if has_flag flags host_creat then o_create else 0) (
      bit_or (if has_flag flags host_rdwr then o_rdwr else 0) (
        bit_or (if has_flag flags host_wronly then o_wronly else 0)
          (if has_flag flags host_rdonly then o_rdonly else 0)))

  unfoldable pub fuse_create : FilePath → FileInfo → M (ℤ × FileInfo)
  fuse_create path fi = do
    modify_stats (λ c. record c { ncreate = c.ncreate + 1 })
    r ← sys_open path (create_mode fi.flags)
    pure (elim r [ none ↦ minus_one | some f ↦ pos 0 ], record fi { fh = r })

  unfoldable pub fuse_mknod : FilePath → ℕ → M ℤ
  fuse_mknod path m = if not (is_sock m) then pure minus_one else sys_mksock path

unfoldable pub fuse_open : FilePath → FileInfo → M (ℤ × FileInfo)
fuse_open path fi = if is_stats path then pure (pos 0, fi) else (do
  modify_stats (λ c. record c { nopen = c.nopen + 1 })
  r ← sys_open path fi.flags
  pure (elim r [ none ↦ minus_one | some f ↦ pos 0 ], record fi { fh = r }))

unfoldable pub fuse_release : FilePath → FileInfo → M ℤ
fuse_release path fi =
    if is_stats path
    then pure (pos 0)
    else (do modify_stats (λ c. record c { nrelease = c.nrelease + 1 }); sys_fileclose fi.fh)

-- The loop of `fuse_readdir`, with the names filled in so far, the last first.
unfoldable pub readdir_loop : ℕ → Option ℕ → Bytes → ℕ → List Bytes → M (ℤ × List Bytes)
readdir_loop zero fh e off names = λ s. out_of_fuel
readdir_loop (suc fuel) fh e off names = do
  (r, e) ← sys_readdirent fh e off
  if is_negative r || is_nat 0 r
      then pure (r, names)
      else readdir_loop fuel fh e (off + dirent_size)
          (if de_inum e == 0 then names else de_name e ∷ names)

-- The rounds: one for each entry of the directory, and one that finds its end.
unfoldable pub readdir_rounds : Option ℕ → Sys → ℕ
readdir_rounds none s = 1
readdir_rounds (some f) s = entries (s.inode (s.file f).ip).size 0 + 1

unfoldable pub fuse_readdir : FilePath → FileInfo → M (ℤ × List Bytes)
fuse_readdir path fi = do
  modify_stats (λ c. record c { nreaddir = c.nreaddir + 1 })
  fh ← sys_open path fi.flags
  elim fh [
    | none ↦ pure (minus_one, [])
    | some f ↦ do
      rounds ← gets (readdir_rounds (some f))
      (r, names) ← readdir_loop rounds (some f) zeroes 0 []
      sys_fileclose (some f)
      pure (r, reverse names)
  ]

-- The size of a read of /stats, of a text of `len` bytes.
unfoldable pub stats_size : ℕ → ℕ → ℕ → ℕ
stats_size len size offset =
    if ltb offset len then (if ltb len (offset + size) then len - offset else size) else 0

unfoldable pub stats_read : Bytes → ℕ → ℕ → M (ℤ × Bytes)
stats_read buf size offset = do
  text ← gets (λ s. s.statsbuf)
  modify (λ s. record s { stats = zero_stats })
  let n = stats_size (length text) size offset
  pure (pos n, memmove buf 0 (shift offset (cstring text)) n)

unfoldable pub fuse_read : FilePath → Bytes → ℕ → ℕ → FileInfo → M (ℤ × Bytes)
fuse_read path buf size offset fi = if is_stats path then stats_read buf size offset else (do
  modify_stats (λ c. record c { nfuse_read = c.nfuse_read + 1 })
  sys_read fi.fh buf size offset)

unfoldable pub fuse_write : FilePath → Bytes → ℕ → ℕ → FileInfo → M ℤ
fuse_write path buf size offset fi = do
  modify_stats (λ c. record c { nfuse_write = c.nfuse_write + 1 })
  sys_write fi.fh buf size offset

unfoldable pub fuse_truncate : FilePath → ℕ → M ℤ
fuse_truncate path off = do
  modify_stats (λ c. record c { ntrunc = c.ntrunc + 1 })
  if not (off == 0) then pure minus_one else sys_truncate path

unfoldable pub fuse_mkdir : FilePath → M ℤ
fuse_mkdir path = do modify_stats (λ c. record c { nmkdir = c.nmkdir + 1 }); sys_mkdir path

unfoldable pub fuse_rmdir : FilePath → M ℤ
fuse_rmdir path = do modify_stats (λ c. record c { nrmdir = c.nrmdir + 1 }); sys_unlink path

unfoldable pub fuse_unlink : FilePath → M ℤ
fuse_unlink path = do modify_stats (λ c. record c { nunlink = c.nunlink + 1 }); sys_unlink path

unfoldable pub fuse_rename : FilePath → FilePath → M ℤ
fuse_rename = sys_rename

-- The handler reads `tv[2]` of an array of two.
unfoldable pub fuse_utimens : FilePath → M ℤ
fuse_utimens path = undefined_behaviour

unfoldable pub fuse_chmod : FilePath → ℕ → M ℤ
fuse_chmod path mode = pure (pos 0)

-- `main` up to the call of `fuse_main`, with the image open.
unfoldable pub main : M Void
main = do binit; initlog
