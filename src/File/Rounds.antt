-- ===== src/File/Rounds.antt =====
-- The rounds that the loop of `filewrite` of xv6/file.c is given.
use fscq.Base.{
  ℕ, zero, suc, ◌+◌, ◌-◌, ◌<◌, min, not, leb, ◌==◌, is_nat, is_negative, pos, minus_one,
  if◌then◌else◌, Bool-cases, inl, inr, arith, ℤ, Option, none, some,
}
use fscq.Memory.{Bytes, shift}
use fscq.Params.{nfile}
use fscq.Machine.{
  File, Inode, FileType, fd_none, fd_pipe, fd_inode, filewrite_short, filewrite_type, fileread_type,
  M, modify_file,
}
use fscq.Machine.Fuel.{
  IsFueled, fueled, bind-IsFueled, gets-IsFueled, pure-IsFueled, if-IsFueled, panic-IsFueled,
  Option-IsFueled,
}
use fscq.Log.Rounds.{begin_op-IsFueled, end_op-IsFueled}
use fscq.Fs.Inode.Rounds.{ilock-IsFueled, iunlock-IsFueled}
use fscq.Fs.Content.{Stat, stati}
use fscq.Fs.Content.Rounds.{readi-IsFueled, zeroi-IsFueled, writei-IsFueled, iput-IsFueled}
use fscq.File.{
  advance, max_write, unused_file, filealloc, release, fileclose, filestat, fileread, fill_hole,
  write_some, filewrite_loop, filewrite,
}

modify_file-IsFueled : (f : ℕ) (g : File → File) → IsFueled (modify_file f g)
modify_file-IsFueled f g = search fueled

FileType-IsFueled :
    {A : Type 0} {n p i : M A} (t : FileType)
    → IsFueled n
    → IsFueled p
    → IsFueled i
    → IsFueled (elim t [ fd_none ↦ n | fd_pipe ↦ p | fd_inode ↦ i ])
FileType-IsFueled fd_none hn hp hi = hn
FileType-IsFueled fd_pipe hn hp hi = hp
FileType-IsFueled fd_inode hn hp hi = hi

filealloc-IsFueled : IsFueled filealloc
unfolding filealloc
filealloc-IsFueled =
    bind-IsFueled {A = Option ℕ} (gets-IsFueled (λ s. unused_file s.file 0 nfile)) (λ found.
      Option-IsFueled found (pure-IsFueled none) (λ f.
        bind-IsFueled (modify_file-IsFueled f (λ x. record x { ref = 1 }))
          (λ _. pure-IsFueled (some f))))

release-IsFueled : (t : FileType) (ip : ℕ) → IsFueled (release t ip)
unfolding release
release-IsFueled fd_none ip = pure-IsFueled tt
release-IsFueled fd_pipe ip = pure-IsFueled tt
release-IsFueled fd_inode ip = search (fueled, begin_op-IsFueled, iput-IsFueled, end_op-IsFueled)

fileclose-IsFueled : (f : ℕ) → IsFueled (fileclose f)
unfolding fileclose
fileclose-IsFueled f = search (fueled, release-IsFueled) depth 9

fill_hole-IsFueled : (f : ℕ) → IsFueled (fill_hole f)
unfolding fill_hole
fill_hole-IsFueled f =
    search
      (fueled, begin_op-IsFueled, end_op-IsFueled, ilock-IsFueled, iunlock-IsFueled, zeroi-IsFueled)
      depth 12

write_some-IsFueled : (f : ℕ) (src : Bytes) (n : ℕ) → IsFueled (write_some f src n)
unfolding write_some
write_some-IsFueled f src n =
    search
      (
        fueled, begin_op-IsFueled, end_op-IsFueled, ilock-IsFueled, iunlock-IsFueled,
        writei-IsFueled,
      )
      depth 12

filewrite_loop-IsFueled :
    (fuel f : ℕ) (addr : Bytes) (n i : ℕ) → n - i < fuel → IsFueled (filewrite_loop fuel f addr n i)
unfolding filewrite_loop
filewrite_loop-IsFueled zero f addr n i h = absurd (omega arith)
filewrite_loop-IsFueled (suc fuel) f addr n i h = elim (Bool-cases (leb n i)) [
  | inl done ↦ rw done (pure-IsFueled i)
  | inr more ↦
      let next : n - (i + min (n - i) max_write) < fuel = ground (arith, more) in
      rw more (
        bind-IsFueled (write_some-IsFueled f (shift i addr) (min (n - i) max_write)) (λ r.
          if-IsFueled (is_negative r) (pure-IsFueled i) (
            if-IsFueled (not (is_nat (min (n - i) max_write) r)) (panic-IsFueled filewrite_short)
              (filewrite_loop-IsFueled fuel f addr n (i + min (n - i) max_write) next))))
]

write_all-IsFueled : (f : ℕ) (addr : Bytes) (n : ℕ) → IsFueled (filewrite_loop (n + 1) f addr n 0)
write_all-IsFueled f addr n = filewrite_loop-IsFueled (n + 1) f addr n 0 (omega arith)

advance-IsFueled : (f : ℕ) (r : ℤ) → IsFueled (advance f r)
advance-IsFueled f r = search fueled

pub fileread-IsFueled : (f : ℕ) (addr : Bytes) (n : ℕ) → IsFueled (fileread f addr n)
unfolding fileread
fileread-IsFueled f addr n = bind-IsFueled {A = File} (gets-IsFueled (λ s. s.file f)) (λ x.
    if-IsFueled (not x.readable) (pure-IsFueled (minus_one, addr)) (
      FileType-IsFueled x.type (panic-IsFueled fileread_type) (pure-IsFueled (minus_one, addr)) (
        bind-IsFueled (ilock-IsFueled x.ip) (λ _.
          bind-IsFueled (readi-IsFueled x.ip addr x.off n) (λ p.
            bind-IsFueled (advance-IsFueled f p.0)
              (λ _. bind-IsFueled (iunlock-IsFueled x.ip) (λ _. pure-IsFueled p)))))))

filestat-IsFueled : (f : ℕ) (st : Stat) → IsFueled (filestat f st)
unfolding filestat
filestat-IsFueled f st = bind-IsFueled {A = File} (gets-IsFueled (λ s. s.file f)) (λ x.
    FileType-IsFueled x.type (pure-IsFueled (minus_one, st)) (pure-IsFueled (minus_one, st)) (
      bind-IsFueled (ilock-IsFueled x.ip) (λ _.
        bind-IsFueled {A = Inode} (gets-IsFueled (λ s. s.inode x.ip))
          (λ ip. bind-IsFueled (iunlock-IsFueled x.ip) (λ _. pure-IsFueled (pos 0, stati ip))))))

pub filewrite-IsFueled : (f : ℕ) (addr : Bytes) (n : ℕ) → IsFueled (filewrite f addr n)
unfolding filewrite
filewrite-IsFueled f addr n = bind-IsFueled {A = File} (gets-IsFueled (λ s. s.file f)) (λ x.
    if-IsFueled (not x.writable) (pure-IsFueled minus_one) (
      FileType-IsFueled x.type (panic-IsFueled filewrite_type) (pure-IsFueled minus_one) (
        bind-IsFueled (fill_hole-IsFueled f) (λ _.
          if-IsFueled (leb 2147483648 n) (pure-IsFueled minus_one) (
            bind-IsFueled (write_all-IsFueled f addr n)
              (λ i. pure-IsFueled (if i == n then pos n else minus_one)))))))
