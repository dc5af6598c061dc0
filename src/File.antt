-- ===== src/File.antt =====
-- The table of open files, xv6/file.c, over the pipes that xv6/pipe.c does not have. A `struct file`
-- pointer is an index in `ftable.file`. A count `n` is an `int` in its 32-bit pattern.
pub mod Rounds
pub mod Save
pub mod Read
pub mod Write
use fscq.Base.{
  ℕ, zero, suc, ◌+◌, ◌-◌, ◌%◌, min, ℤ, pos, minus_one, to_nat, is_negative, is_nat, not, ◌==◌, ltb,
  leb, if◌then◌else◌, Option, none, some,
}
use fscq.Memory.{Bytes, shift}
use fscq.Params.{nfile, u32}
use fscq.Machine.{
  File, FileType, fd_none, fd_pipe, fd_inode, out_of_fuel, M, Void, ◌>>=◌, ◌>>◌, pure, panic, gets,
  when, get_inode, get_file, modify_file, filedup_no_ref, fileclose_no_ref, fileread_type,
  filewrite_type, filewrite_short,
}
use fscq.Log.{begin_op, end_op}
use fscq.Fs.Inode.{ilock, iunlock}
use fscq.Fs.Content.{Stat, stati, iput, readi, zeroi, writei}

-- pipe.c
abbrev pipeclose : M Void
pipeclose = pure tt

abbrev piperead : Bytes → M (ℤ × Bytes)
piperead addr = pure (minus_one, addr)

abbrev pipewrite : M ℤ
pipewrite = pure minus_one

-- The scan of `filealloc`, from `i` for `k` entries.
unfoldable pub unused_file : (ℕ → File) → ℕ → ℕ → Option ℕ
unused_file file i zero = none
unused_file file i (suc k) =
    let rest = unused_file file (i + 1) k in if (file i).ref == 0 then some i else rest

unfoldable pub filealloc : M (Option ℕ)
filealloc = do
  found ← gets (λ s. unused_file s.file 0 nfile)
  elim found [
    | none ↦ pure none
    | some f ↦ modify_file f (λ x. record x { ref = 1 }) >> pure (some f)
  ]

unfoldable pub filedup : ℕ → M ℕ
filedup f = do
  x ← get_file f
  if x.ref == 0
      then panic filedup_no_ref
      else modify_file f (λ x. record x { ref = x.ref + 1 }) >> pure f

-- What `fileclose` does for the last reference, by the type that the file had.
unfoldable pub release : FileType → ℕ → M Void
release fd_none ip = pure tt
release fd_pipe ip = pipeclose
release fd_inode ip = do begin_op; iput ip; end_op

unfoldable pub fileclose : ℕ → M Void
fileclose f = do
  x ← get_file f
  if x.ref == 0
      then panic fileclose_no_ref
      else if ltb 1 x.ref
      then modify_file f (λ x. record x { ref = x.ref - 1 })
      else (do modify_file f (λ x. record x { ref = 0; type = fd_none }); release x.type x.ip)

unfoldable pub filestat : ℕ → Stat → M (ℤ × Stat)
filestat f st = do
  x ← get_file f
  elim x.type [
    | fd_inode ↦ do ilock x.ip; ip ← get_inode x.ip; iunlock x.ip; pure (pos 0, stati ip)
    | _ ↦ pure (minus_one, st)
  ]

-- `if(r > 0) f->off += r;`
abbrev pub advance : ℕ → ℤ → M Void
advance f r =
    when (ltb 0 (to_nat r)) (modify_file f (λ x. record x { off = (x.off + to_nat r) % u32 }))

unfoldable pub fileread : ℕ → Bytes → ℕ → M (ℤ × Bytes)
fileread f addr n = do
  x ← get_file f
  if not x.readable then pure (minus_one, addr) else elim x.type [
    | fd_none ↦ panic fileread_type
    | fd_pipe ↦ piperead addr
    | fd_inode ↦ do
      ilock x.ip
      (r, addr) ← readi x.ip addr x.off n
      advance f r
      iunlock x.ip
      pure (r, addr)
  ]

-- `((LOGSIZE-1-1-2) / 2) * 512`
abbrev pub max_write : ℕ
max_write = 6656

-- The fill of the hole between the end of the file and `f->off`: its length is taken before the lock
-- of the inode, its start after it.
unfoldable pub fill_hole : ℕ → M Void
fill_hole f = do
  x ← get_file f
  ip ← get_inode x.ip
  when (ltb ip.size x.off) (do
    begin_op
    ilock x.ip
    locked ← get_inode x.ip
    zeroi x.ip locked.size (x.off - ip.size)
    iunlock x.ip
    end_op)

-- One transaction of the loop of `filewrite`.
unfoldable pub write_some : ℕ → Bytes → ℕ → M ℤ
write_some f src n1 = do
  x ← get_file f
  begin_op
  ilock x.ip
  r ← writei x.ip src x.off n1
  advance f r
  iunlock x.ip
  end_op
  pure r

-- The loop of `filewrite`; the result is `i` after it. A round that goes on adds `n1 > 0` to `i`.
unfoldable pub filewrite_loop : ℕ → ℕ → Bytes → ℕ → ℕ → M ℕ
filewrite_loop zero f addr n i = λ s. out_of_fuel
filewrite_loop (suc fuel) f addr n i = if leb n i then pure i else (do
  let n1 = min (n - i) max_write
  r ← write_some f (shift i addr) n1
  if is_negative r
      then pure i
      else if not (is_nat n1 r)
      then panic filewrite_short
      else filewrite_loop fuel f addr n (i + n1))

-- A negative `n` writes nothing and is not reached by `i`.
unfoldable pub filewrite : ℕ → Bytes → ℕ → M ℤ
filewrite f addr n = do
  x ← get_file f
  if not x.writable then pure minus_one else elim x.type [
    | fd_none ↦ panic filewrite_type
    | fd_pipe ↦ pipewrite
    | fd_inode ↦ do
      fill_hole f
      if leb 2147483648 n then pure minus_one else (do
        i ← filewrite_loop (n + 1) f addr n 0
        pure (if i == n then pos n else minus_one))
  ]
