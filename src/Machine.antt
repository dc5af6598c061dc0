-- ===== src/Machine.antt =====
-- The state of the xv6fs process: the disk image behind xv6/ide.c, and the static tables of bio.c,
-- log.c, fs.c, file.c and fuse.c. A C function is a command over it. The process is single-threaded
-- (xv6/spinlock.c has empty bodies), so the locks carry no state, and a wait for a flag that only
-- another thread could clear never ends: that is the outcome `spins`.
pub mod Post
pub mod Outcomes
pub mod Fuel
use fscq.Base.{
  ℕ, zero, suc, ◌+◌, ◌-◌, ◌*◌, Bool, true, false, ℤ, pos, List, [], ◌∷◌, ◌==◌, ltb, if◌then◌else◌,
  down_from,
}
use fscq.Memory.{Bytes, zeroes}
use fscq.Params.{nbuf}

-- The messages of `panic`.
pub data Panic : Type 0 where
  log_header_too_big log_committing log_too_big log_outside_trans : Panic
  bget_no_buffers bwrite_not_busy brelse_not_busy iderw_not_busy iderw_nothing_to_do : Panic
  balloc_out_of_blocks freeing_free_block ialloc_no_inodes iget_no_inodes : Panic
  ilock_no_ref ilock_no_type iunlock_not_held iput_busy bmap_out_of_range : Panic
  dirlookup_not_dir dirlookup_read dirlink_read dirlink_short : Panic
  filedup_no_ref fileclose_no_ref fileread_type filewrite_type filewrite_short : Panic
  create_ialloc create_dots create_dirlink isdirempty_readi unlink_nlink unlink_writei : Panic

-- struct buf, without its links: the order of the list is kept in `Cache`.
pub record Buf : Type 0 where
  pub busy : Bool
  pub valid : Bool
  pub dirty : Bool
  pub dev : ℕ
  pub sector : ℕ
  pub bytes : Bytes

-- bcache: the buffers by index, and the circular list from `head.next` on.
pub record Cache : Type 0 where
  pub buf : ℕ → Buf
  pub order : List ℕ

-- struct logheader
pub record LogHeader : Type 0 where
  pub n : ℕ
  pub sector : ℕ → ℕ

-- struct log
pub record Log : Type 0 where
  pub start : ℕ
  pub size : ℕ
  pub outstanding : ℤ
  pub committing : Bool
  pub dev : ℕ
  pub lh : LogHeader

-- struct inode. The `short` fields hold their 16-bit patterns.
pub record Inode : Type 0 where
  pub dev : ℕ
  pub inum : ℕ
  pub ref : ℤ
  pub busy : Bool
  pub valid : Bool
  pub type : ℕ
  pub major : ℕ
  pub minor : ℕ
  pub nlink : ℕ
  pub size : ℕ
  pub ctime : ℕ
  pub atime : ℕ
  pub mtime : ℕ
  pub addrs : ℕ → ℕ

pub data FileType : Type 0 where
  fd_none fd_pipe fd_inode : FileType

-- struct file
pub record File : Type 0 where
  pub type : FileType
  pub ref : ℕ
  pub readable : Bool
  pub writable : Bool
  pub ip : ℕ
  pub off : ℕ

-- struct stats of fuse.c
pub record Stats : Type 0 where
  pub nread : ℕ
  pub nwrite : ℕ
  pub nflush : ℕ
  pub ngetattr : ℕ
  pub nopen : ℕ
  pub nrelease : ℕ
  pub nreaddir : ℕ
  pub nfuse_read : ℕ
  pub nfuse_write : ℕ
  pub ncreate : ℕ
  pub ntrunc : ℕ
  pub nmkdir : ℕ
  pub nrmdir : ℕ
  pub nunlink : ℕ

-- What the process has asked of the image file: `pwrite` of a block, and `fsync`.
pub data DiskOp : Type 0 where
  write : ℕ → Bytes → DiskOp
  flush : DiskOp

-- `image_blocks` is the length of the image file, `trace` its writes and flushes, the last first.
-- `clock k` is what the call of time(0) after `calls = k` calls returns.
pub record Sys : Type 0 where
  pub disk : ℕ → Bytes
  pub image_blocks : ℕ
  pub trace : List DiskOp
  pub cache : Cache
  pub log : Log
  pub inode : ℕ → Inode
  pub file : ℕ → File
  pub stats : Stats
  pub statsbuf : List ℕ
  pub clock : ℕ → ℕ
  pub calls : ℕ

-- How a call ends: it returns; `panic` exits; an I/O error exits; it waits for ever; it does what C
-- leaves undefined; or a loop was given too few rounds.
pub data Run (A : Type 0) : Type 0 where
  ok : A → Sys → Run A
  panicked : Panic → Sys → Run A
  exited : Sys → Run A
  spins : Run A
  undefined : Run A
  out_of_fuel : Run A

abbrev pub M : Type 0 → Type 0
M A = Sys → Run A

abbrev pub Void : Type 0
Void = Unit {0}

module _ {A B : Type 0} where
  abbrev pub and_then : Run A → (A → M B) → Run B
  and_then (ok a s) k = k a s
  and_then (panicked p s) k = panicked p s
  and_then (exited s) k = exited s
  and_then spins k = spins
  and_then undefined k = undefined
  and_then out_of_fuel k = out_of_fuel

  infixl 5 ◌>>=◌ ◌>>◌
  abbrev pub ◌>>=◌ : M A → (A → M B) → M B
  m >>= k = λ s. and_then (m s) k

  abbrev pub ◌>>◌ : M A → M B → M B
  m >> n = m >>= λ _. n

module _ {A : Type 0} where
  abbrev pub pure : A → M A
  pure = ok

  abbrev pub panic : Panic → M A
  panic = panicked

  abbrev pub gets : (Sys → A) → M A
  gets f s = ok (f s) s

  abbrev pub wait_for_ever : M A
  wait_for_ever s = spins

  abbrev pub undefined_behaviour : M A
  undefined_behaviour s = undefined

abbrev pub modify : (Sys → Sys) → M Void
modify f s = ok tt (f s)

-- `if(c) c1;`
abbrev pub when : Bool → M Void → M Void
when c m = if c then m else ok tt

abbrev pub upd {ℓ} : {A : Type ℓ} → (ℕ → A) → ℕ → A → ℕ → A
upd f i v j = if j == i then v else f j

-- `&bcache.buf[i]`
abbrev pub get_buf : ℕ → M Buf
get_buf i = gets (λ s. s.cache.buf i)

abbrev pub put_buf : Sys → ℕ → Buf → Sys
put_buf s i b = record s { cache = record (s.cache) { buf = upd s.cache.buf i b } }

abbrev pub set_buf : ℕ → Buf → M Void
set_buf i b = modify (λ s. put_buf s i b)

-- `bp->data = …`, after the change of some of its bytes.
abbrev pub set_bytes : ℕ → (Bytes → Bytes) → M Void
set_bytes i f =
    modify (λ s. put_buf s i (record (s.cache.buf i) { bytes = f (s.cache.buf i).bytes }))

abbrev pub modify_log : (Log → Log) → M Void
modify_log f = modify (λ s. record s { log = f s.log })

abbrev pub get_inode : ℕ → M Inode
get_inode i = gets (λ s. s.inode i)

abbrev pub modify_inode : ℕ → (Inode → Inode) → M Void
modify_inode i f = modify (λ s. record s { inode = upd s.inode i (f (s.inode i)) })

abbrev pub get_file : ℕ → M File
get_file i = gets (λ s. s.file i)

abbrev pub modify_file : ℕ → (File → File) → M Void
modify_file i f = modify (λ s. record s { file = upd s.file i (f (s.file i)) })

abbrev pub modify_stats : (Stats → Stats) → M Void
modify_stats f = modify (λ s. record s { stats = f s.stats })

-- `unix_time()`, the low 32 bits of time(0).
abbrev pub unix_time : M ℕ
unix_time s = ok (s.clock s.calls) (record s { calls = s.calls + 1 })
