-- ===== src/File/Write.antt =====
-- `filewrite` of xv6/file.c, of bytes that one transaction takes, within a file.
use fscq.Base.{
  ℕ, suc, ◌+◌, ◌-◌, ◌≤◌, ◌<◌, ◌≡◌, refl, sym, ap, subst, true, false, arith, leb, ltb, ◌==◌,
  if◌then◌else◌, ℤ, pos, minus_one, min, fun_ext, is_negative, is_nat, not,
}
use fscq.Memory.{Bytes, shift}
use fscq.Machine.{
  Sys, M, FileType, fd_none, fd_pipe, fd_inode, ok, pure, panic, filewrite_short, filewrite_type,
  ◌>>=◌, ◌>>◌,
}
use fscq.Machine.Post.{Post, bind-Post, ok-Post}
use fscq.File.{max_write, pipewrite, fill_hole, write_some, filewrite_loop, filewrite}
use fscq.File.Save.{IsOpen, Saved, NotSaved}
use fscq.File.Save.Transaction.{write_some-Saves}

module _ (s : Sys) (f : ℕ) (h : IsOpen s f) (addr : Bytes) (n : ℕ) (positive : 0 < n)
    (few : n ≤ max_write) (within : (s.file f).off + n ≤ (s.inode (s.file f).ip).size) where
  abbrev Result : ℤ → Sys → Type 0
  Result r t = Saved s f addr n r t

  abbrev Counted : ℕ → Sys → Type 0
  Counted i t = (i ≡ n) × Saved s f addr n (pos n) t

  from_start : shift 0 addr ≡ addr
  from_start = fun_ext λ j. ap addr (omega arith)

  -- What the loop does with the result of a round.
  abbrev next : ℕ → ℤ → M ℕ
  next k r =
      if is_negative r
      then pure 0
      else if not (is_nat n r)
      then panic filewrite_short
      else filewrite_loop (suc k) f addr n (0 + n)

  next-Counted :
      (k : ℕ) (t : Sys)
      → Saved s f addr n (pos n) t
      → Post Counted (NotSaved s f addr n) (next k (pos n) t)
  unfolding filewrite_loop
  next-Counted k t e =
      let same : is_nat n (pos n) ≡ true = ground arith in
      let done : leb n (0 + n) ≡ true = ground arith in
      rw (same, done) (ok-Post refl (omega arith, e))

  loop-Counted :
      (k : ℕ) → Post Counted (NotSaved s f addr n) (filewrite_loop (suc (suc k)) f addr n 0 s)
  unfolding filewrite_loop
  loop-Counted k =
      let more : leb n 0 ≡ false = ground (arith, positive) in
      let all : min (n - 0) max_write ≡ n = ground (arith, few) in
      rw (more, all, from_start)
        (bind-Post (write_some f addr n) (next k) s
          (write_some-Saves s f h addr n positive few within)
          λ r t e.
            subst (λ z. Post Counted (NotSaved s f addr n) (next k z t)) (sym e.0)
              (next-Counted k t (refl, e.1)))

  no_hole : fill_hole f s ≡ ok tt s
  unfolding fill_hole
  no_hole =
      let below : ltb (s.inode (s.file f).ip).size (s.file f).off ≡ false =
        ground (arith, within) in
      rw below refl

  -- What `filewrite` does with a file on an inode.
  abbrev on_inode : M ℤ
  on_inode =
      fill_hole f
      >> (if leb 2147483648 n
          then pure minus_one
          else (filewrite_loop (n + 1) f addr n 0 >>= λ i.
              pure (if i == n then pos n else minus_one)))

  on_inode-Saved : Post (Saved s f addr n) (NotSaved s f addr n) (on_inode s)
  on_inode-Saved =
      let signed : leb 2147483648 n ≡ false = ground (arith, few) in
      let rounds : n + 1 ≡ suc (suc (n - 1)) = omega (arith, positive) in
      rw (no_hole, signed, rounds)
        (bind-Post (filewrite_loop (suc (suc (n - 1))) f addr n 0)
          (λ i. pure (if i == n then pos n else minus_one)) s (loop-Counted (n - 1))
          λ i t e. let same : (i == n) ≡ true = ground (arith, e.0) in rw same (ok-Post refl e.1))

  abbrev on_type : FileType → M ℤ
  on_type type = elim type [
    | fd_none ↦ panic filewrite_type
    | fd_pipe ↦ pipewrite
    | fd_inode ↦ on_inode
  ]

  -- For a file that is open for writing on a loaded, unlocked inode that owns its blocks, with
  -- an idle log of four blocks at least: `filewrite` of 1 to 6656 bytes at an offset from which
  -- they fit in the size of the file returns their number, or stops for want of a free buffer.
  -- When it returns, its transaction has ended in a state that can commit, the bytes are in the
  -- file and on the disk, which is the only one that a crash can leave, every other byte of it
  -- and every block outside of it below the log area is as before, and the offset was past the
  -- bytes and the inode unlocked when the transaction ended. A crash during the transaction's
  -- end leaves a disk that recovers to all blocks below the log area as before, or to all of
  -- them with the bytes; before that nothing has gone to the disk.
  pub filewrite-Saved :
      (s.file f).writable ≡ true
      → (s.file f).type ≡ fd_inode
      → Post (Saved s f addr n) (NotSaved s f addr n) (filewrite f addr n s)
  unfolding filewrite
  filewrite-Saved can inode = rw can (
      subst (λ y. Post (Saved s f addr n) (NotSaved s f addr n) (on_type y s)) (sym inode)
        on_inode-Saved)
