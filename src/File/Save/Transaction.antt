-- ===== src/File/Save/Transaction.antt =====
-- A transaction of `filewrite` of xv6/file.c, from the lock of the inode to `end_op`.
use fscq.Base.{
  ℕ, ◌+◌, ◌-◌, ◌%◌, ◌≤◌, ◌<◌, ◌≡◌, ◌≢◌, inl, inr, refl, sym, ap, ◌∙◌, subst, true, false, arith,
  ltb, if◌then◌else◌, ℤ, pos,
}
use fscq.Memory.{Bytes, in_range}
use fscq.Params.{t_dev, u32}
use fscq.Machine.{Sys, Inode, File, M, ok, upd, pure, ◌>>◌}
use fscq.Machine.Post.{Post, bind-Post, weaken-Post, ok-Post}
use fscq.Bio.View.{view}
use fscq.Log.{end_op}
use fscq.Log.Commit.Ends.{end_op-Ends}
use fscq.Log.Commit.Again.{Ends-IsIdle}
use fscq.Log.Update.Read.{Untouched}
use fscq.Log.Update.Tables.{retabled, retabled-CanCommit}
use fscq.Fs.Inode.{iunlock}
use fscq.Fs.Inode.Lock.{iunlock-held, upd_eq}
use fscq.Fs.Content.{writei}
use fscq.Fs.Content.Blocks.{addr_at, byte_at}
use fscq.Fs.Content.Writes.{IsOwn}
use fscq.Fs.Content.WriteLoop.{Wrote, blocks}
use fscq.Fs.Content.Writei.{writei-Wrote}
use fscq.File.{advance, max_write, write_some}
use fscq.File.Save.{
  IsOpen, Saves, Saved, NotSaved, locked, begins, locks, locked-IsOwn, locked-HasRoom,
}

module _ (s : Sys) (f : ℕ) (h : IsOpen s f) where
  abbrev x : File
  x = s.file f

  abbrev ip : Inode
  ip = s.inode x.ip

  module _ (src : Bytes) (n : ℕ) (positive : 0 < n) (few : n ≤ max_write)
      (within : x.off + n ≤ ip.size) where
    -- After the write of the bytes.
    module _ (u : Sys) (w : Wrote (locked s f h) (record ip { busy = true }) x.off 0 n src u) where
      abbrev advanced : File
      advanced = record x { off = (x.off + n) % u32 }

      -- The state in which the transaction ends.
      abbrev saved : Sys
      saved =
          retabled u u.log.outstanding u.log.committing
            (upd u.inode x.ip (record ip { busy = false })) (upd u.file f advanced)

      same_entry : u.inode x.ip ≡ record ip { busy = true }
      same_entry =
          ap (λ (g : ℕ → Inode). g x.ip) w.stays.same_inode
          ∙ upd_eq s.inode x.ip (record ip { busy = true })

      same_open : u.file f ≡ x
      same_open = ap (λ (g : ℕ → File). g f) w.stays.same_file

      advances : advance f (pos n) u ≡ ok tt (record u { file = upd u.file f advanced })
      advances =
          let some_bytes : ltb 0 n ≡ true = ground (arith, positive) in
          rw some_bytes (
            ap
              (λ (y : File).
                ok tt (record u { file = upd u.file f (record y { off = (y.off + n) % u32 }) }))
              same_open)

      unlocks : iunlock x.ip (record u { file = upd u.file f advanced }) ≡ ok tt saved
      unlocks =
          iunlock-held (record u { file = upd u.file f advanced }) x.ip ip same_entry h.counted

      saved-byte_at : (k : ℕ) → byte_at saved ip k ≡ byte_at u (record ip { busy = true }) k
      unfolding byte_at addr_at view
      saved-byte_at k = refl

      locked-byte_at :
          (k : ℕ) → byte_at (locked s f h) (record ip { busy = true }) k ≡ byte_at s ip k
      unfolding byte_at addr_at view
      locked-byte_at k = refl

      saved_bytes :
          (k : ℕ)
          → k < ip.size
          → byte_at saved ip k ≡ (if in_range x.off n k then src (k - x.off) else byte_at s ip k)
      saved_bytes k lt =
          let count : n - 0 ≡ n = omega arith in
          let start : 0 + (k - x.off) ≡ k - x.off = omega arith in
          subst
            (λ m.
              byte_at saved ip k ≡ (if in_range x.off m k then src (k - x.off) else byte_at s ip k))
            count
            (saved-byte_at k
              ∙ w.bytes k lt
              ∙ ap (λ b. if in_range x.off (n - 0) k then src (0 + (k - x.off)) else b)
                  (locked-byte_at k)
              ∙ ap (λ p. if in_range x.off (n - 0) k then src p else byte_at s ip k) start)

      saved-Saves : Saves s f src n saved
      unfolding byte_at addr_at view
      saved-Saves = record {
        can = retabled-CanCommit u u.log.outstanding u.log.committing saved.inode saved.file w.can;
        bytes = saved_bytes;
        others = w.stays.others;
        offset =
            ap (λ (y : File). y.off) (upd_eq u.file f advanced)
            ∙ omega (arith, within, h.own.file.short);
        unlocked = ap (λ (i : Inode). i.busy) (upd_eq u.inode x.ip (record ip { busy = false }));
        same_disk = w.stays.same_disk;
        same_trace = w.stays.same_trace;
      }

      outstanding : saved.log.outstanding ≡ pos 1
      outstanding = w.stays.same_outstanding

      committing : saved.log.committing ≡ false
      committing = w.stays.same_committing ∙ h.committing

    -- The write at the offset of the file, in the transaction.
    locked-Wrote :
        Post
          (λ r u. (r ≡ pos n) × Wrote (locked s f h) (record ip { busy = true }) x.off 0 n src u)
          (Untouched s)
          (writei x.ip src x.off n (locked s f h))
    locked-Wrote =
        let same : (locked s f h).inode x.ip ≡ record ip { busy = true } =
          upd_eq s.inode x.ip (record ip { busy = true }) in
        let short : blocks x.off n ≤ 3 = omega (arith, few) in
        weaken-Post (writei x.ip src x.off n (locked s f h))
          (subst
            (λ (i : Inode).
              Post (λ r u. (r ≡ pos n) × Wrote (locked s f h) i x.off 0 n src u)
                (Untouched (locked s f h)) (writei x.ip src x.off n (locked s f h)))
            same
            (writei-Wrote (locked s f h) x.ip src x.off n
              (subst (IsOwn (locked s f h)) (sym same) (locked-IsOwn s f h))
              (locked-HasRoom s f h (blocks x.off n) short)
              (subst (λ (i : Inode). i.type ≢ t_dev) (sym same) h.no_device)
              (subst (λ (i : Inode). x.off + n ≤ i.size) (sym same) within)))
          (λ r u w. w) (λ u w. record { same_disk = w.same_disk; same_trace = w.same_trace })

    -- What `filewrite` does after the write.
    abbrev write_end : ℤ → M ℤ
    write_end r = advance f r >> (iunlock x.ip >> (end_op >> pure r))

    write_end-Saved :
        (u : Sys)
        → Wrote (locked s f h) (record ip { busy = true }) x.off 0 n src u
        → Post (Saved s f src n) (NotSaved s f src n) (write_end (pos n) u)
    write_end-Saved u w =
        rw (advances u w, unlocks u w)
          (bind-Post end_op (λ _. pure (pos n)) (saved u w)
            (weaken-Post (end_op (saved u w))
              (end_op-Ends (saved u w) (saved-Saves u w).can (outstanding u w) (committing u w))
              (λ _ t e. e) (λ t e. inr (saved u w, saved-Saves u w, e)))
            λ _ t e. ok-Post refl (
              refl,
              (saved u w, saved-Saves u w, e, Ends-IsIdle (saved u w) t (saved-Saves u w).can e),
            ))

    pub write_some-Saves : Post (Saved s f src n) (NotSaved s f src n) (write_some f src n s)
    unfolding write_some
    write_some-Saves =
        rw ((begins s f h), (locks s f h))
          (bind-Post (writei x.ip src x.off n) write_end (locked s f h)
            (weaken-Post (writei x.ip src x.off n (locked s f h)) locked-Wrote (λ r u w. w)
              (λ u w. inl w))
            λ r u w.
              subst (λ z. Post (Saved s f src n) (NotSaved s f src n) (write_end z u)) (sym w.0)
                (write_end-Saved u w.1))
