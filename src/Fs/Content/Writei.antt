-- ===== src/Fs/Content/Writei.antt =====
-- `writei` of xv6/fs.c within a file, and `readi` after it.
use fscq.Base.{
  ℕ, ◌+◌, ◌-◌, ◌*◌, ◌%◌, ◌≤◌, ◌≡◌, ◌≢◌, refl, sym, ap, ◌∙◌, subst, false, arith, ltb, leb, ◌||◌,
  ◌&&◌, ◌==◌, Bool-cases, inl, inr, if◌then◌else◌, pos, ℤ, min,
}
use fscq.Memory.{Bytes, memmove}
use fscq.Params.{bsize, maxfile, t_dev, u32}
use fscq.Machine.{Sys, Inode, ◌>>=◌}
use fscq.Machine.Post.{Post, bind-Post, weaken-Post, ok-Post}
use fscq.Log.Update.Read.{Keeps, Untouched}
use fscq.Log.Update.Room.{HasRoom}
use fscq.Fs.Content.{readi, write_loop, writei, bad_range, copy_change}
use fscq.Fs.Content.Blocks.{IsFile}
use fscq.Fs.Content.Readi.{ReadsBytes, readi-ReadsBytes}
use fscq.Fs.Content.Writes.{IsOwn}
use fscq.Fs.Content.WriteLoop.{Puts, Wrote, blocks, write_loop-Post}

copy_change-Puts : (src : Bytes) → Puts (copy_change src) src
unfolding memmove
copy_change-Puts src tot at m b j = ground arith

module _ (s : Sys) (i : ℕ) (src : Bytes) (off n : ℕ) (own : IsOwn s (s.inode i))
    (room : HasRoom s (blocks off n)) (no_device : (s.inode i).type ≢ t_dev)
    (within : off + n ≤ (s.inode i).size) where
  -- The tests of the code.
  fine :
      ((s.inode i).type == t_dev
        || (bad_range (s.inode i).size off n || ltb (maxfile * bsize) ((off + n) % u32)))
      ≡ false
  fine = ground (arith, own.file.short)

  no_growth :
      (t : Sys) → t.inode ≡ s.inode → (ltb 0 n && ltb (t.inode i).size ((off + n) % u32)) ≡ false
  no_growth t e =
      let same : (t.inode i).size ≡ (s.inode i).size = ap (λ (g : ℕ → Inode). (g i).size) e in
      ground (arith, own.file.short)

  abbrev Result : ℤ → Sys → Type 0
  Result r t = (r ≡ pos n) × Wrote s (s.inode i) off 0 n src t

  -- In a transaction with room for the blocks of the range, for a file of the root device that
  -- is no device, has all its blocks, distinct, apart from its indirect block and below the log
  -- area, and no double indirect block: `writei` of `n` bytes at `off` within its size returns
  -- `n`, or stops for want of a free buffer. When it returns, the file has these bytes from
  -- `off` on, every other byte of it and every block outside of it reads as before, and the
  -- state can commit. In both cases nothing has gone to the disk.
  pub writei-Wrote : Post Result (Untouched s) (writei i src off n s)
  unfolding writei
  writei-Wrote = rw fine (
      bind-Post (write_loop (copy_change src) (n + 1) i off n 0) _ s
        (write_loop-Post (copy_change src) src (copy_change-Puts src) (n + 1) (blocks off n) s i off
          n 0 (omega arith) own room (λ lt. omega arith) (omega arith))
        λ _ t w. rw (no_growth t w.stays.same_inode) (ok-Post refl (refl, w)))

  -- What a read of the same bytes then gives.
  abbrev ReadsBack : Bytes → ℤ × Bytes → Type 0
  ReadsBack dst r = (r.0 ≡ pos n) × ((k : ℕ) → r.1 k ≡ (if ltb k n then src k else dst k))

  read_back :
      (dst : Bytes) (t : Sys) (r : ℤ × Bytes)
      → Wrote s (s.inode i) off 0 n src t
      → ReadsBytes t (s.inode i) dst off n r
      → ReadsBack dst r
  read_back dst t r w h =
      let reads : (ltb (s.inode i).size off || leb u32 (off + n)) ≡ false =
        ground (arith, own.file.short) in
      let count : min n ((s.inode i).size - off) ≡ n = ground arith in
      (
        ground (arith, h.result),
        λ k.
            let start : off + k - off ≡ k = omega arith in
            elim (Bool-cases (ltb k n)) [
              | inl within_n ↦
                  ground (arith, h.bytes k, w.bytes (off + k) (ground arith), ap src start)
              | inr after ↦ ground (arith, h.bytes k)
            ],
      )

  -- In a transaction with room for the blocks of the range, for a file of the root device that
  -- is no device, has all its blocks, distinct, apart from its indirect block and below the log
  -- area, and no double indirect block: after `writei` of `n` bytes at `off` within its size,
  -- `readi` of the same range returns `n` and these bytes, and leaves the rest of its buffer;
  -- or one of the two stops for want of a free buffer, with nothing gone to the disk.
  pub readi-writei :
      (dst : Bytes)
      → Post
          (λ r _. ReadsBack dst r)
          (Untouched s)
          ((writei i src off n >>= λ _. readi i dst off n) s)
  readi-writei dst =
      bind-Post (writei i src off n) (λ _. readi i dst off n) s writei-Wrote
        λ _ t p.
          let same : t.inode i ≡ s.inode i = ap (λ (g : ℕ → Inode). g i) p.1.stays.same_inode in
          weaken-Post (readi i dst off n t)
            (subst
              (λ (ip : Inode).
                Post (λ r v. ReadsBytes t ip dst off n r × Keeps t v) (Keeps t)
                  (readi i dst off n t))
              same
              (readi-ReadsBytes t i p.1.can.quiet (subst (IsFile t) (sym same) p.1.stays.own.file)
                dst off n (ground (arith, own.file.short)) (ground (arith, own.file.short))))
            (λ r v h. read_back dst t r p.1 h.0)
            (λ v k. record {
              same_disk = k.same_disk ∙ p.1.stays.same_disk;
              same_trace = k.same_trace ∙ p.1.stays.same_trace;
            })
