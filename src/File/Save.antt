-- ===== src/File/Save.antt =====
-- A transaction of `filewrite` of xv6/file.c, from `begin_op` to `end_op`, within a file.
pub mod Transaction
use fscq.Base.{
  ℕ, ◌+◌, ◌-◌, ◌*◌, ◌%◌, ◌≤◌, ◌<◌, ◌≡◌, ◌≢◌, ◌⊎◌, inl, inr, refl, sym, ap, ◌∙◌, subst, true, false,
  arith, ltb, ◌||◌, if◌then◌else◌, ℤ, pos, not, below_one,
}
use fscq.Memory.{Bytes, in_range}
use fscq.Params.{bsize, t_dev, u32, rootdev}
use fscq.Machine.{Sys, Inode, File, M, ok, upd, pure, ◌>>◌}
use fscq.Machine.Post.{Post, bind-Post, weaken-Post, ok-Post}
use fscq.Bio.View.{view}
use fscq.Log.{begin_op, end_op}
use fscq.Log.Transaction.{begin_op_lem}
use fscq.Log.Crash.Since.{Stopped}
use fscq.Log.Commit.{CanCommit, IsAtomic}
use fscq.Log.Commit.Ends.{Ends, end_op-Ends}
use fscq.Log.Commit.Again.{IsIdle, Ends-IsIdle}
use fscq.Log.Update.Read.{Untouched}
use fscq.Log.Update.Room.{HasRoom}
use fscq.Log.Update.Tables.{retabled, retabled-CanCommit}
use fscq.Fs.Inode.{ilock, iunlock}
use fscq.Fs.Inode.Lock.{ilock-loaded}
use fscq.Fs.Content.{writei}
use fscq.Fs.Content.Blocks.{addr_at, byte_at}
use fscq.Fs.Content.Writes.{IsOwn}
use fscq.Fs.Content.WriteLoop.{Wrote, blocks}
use fscq.Fs.Content.Writei.{writei-Wrote}
use fscq.File.{advance, max_write, write_some}

-- A file that is open on an inode of the table, which is loaded and not locked, and owns its
-- blocks; the log is idle, with an area of four blocks at least.
pub record IsOpen (s : Sys) (f : ℕ) : Type 0 where
  pub idle : IsIdle s
  pub outstanding : s.log.outstanding ≡ pos 0
  pub committing : s.log.committing ≡ false
  pub space : 3 < s.log.size
  pub inside : s.log.start + 3 < s.image_blocks
  pub counted : below_one (s.inode (s.file f).ip).ref ≡ false
  pub loaded : (s.inode (s.file f).ip).valid ≡ true
  pub unlocked : (s.inode (s.file f).ip).busy ≡ false
  pub no_device : (s.inode (s.file f).ip).type ≢ t_dev
  pub own : IsOwn s (s.inode (s.file f).ip)

-- The state in which the transaction ends: the file has the bytes, the offset is past them, the
-- inode is free again, every block outside of the file reads as before, and nothing has gone to
-- the disk.
pub record Saves (s : Sys) (f : ℕ) (src : Bytes) (n : ℕ) (v : Sys) : Type 0 where
  pub can : CanCommit v
  pub bytes :
      (k : ℕ)
      → k < (s.inode (s.file f).ip).size
      → byte_at v (s.inode (s.file f).ip) k ≡ (
          if in_range (s.file f).off n k
          then src (k - (s.file f).off)
          else byte_at s (s.inode (s.file f).ip) k)
  pub others :
      (z : ℕ)
      → ((bn : ℕ)
          → bn * bsize < (s.inode (s.file f).ip).size
          → z ≢ addr_at s (s.inode (s.file f).ip) bn)
      → view v rootdev z ≡ view s rootdev z
  pub offset : (v.file f).off ≡ (s.file f).off + n
  pub unlocked : (v.inode (s.file f).ip).busy ≡ false
  pub same_disk : v.disk ≡ s.disk
  pub same_trace : v.trace ≡ s.trace

-- It has returned `n`, and the transaction has ended in an idle log.
abbrev pub Saved : Sys → ℕ → Bytes → ℕ → ℤ → Sys → Type 0
Saved s f src n r t = (r ≡ pos n) × ((v : Sys) × Saves s f src n v × Ends v t × IsIdle t)

-- It has stopped, before the end of the transaction or in it.
abbrev pub NotSaved : Sys → ℕ → Bytes → ℕ → Sys → Type 0
NotSaved s f src n t = Untouched s t ⊎ ((v : Sys) × Saves s f src n v × Stopped v (IsAtomic v) t)

module _ (s : Sys) (f : ℕ) (h : IsOpen s f) where
  abbrev pub x : File
  x = s.file f

  abbrev pub ip : Inode
  ip = s.inode x.ip

  -- In the transaction, with the inode locked.
  abbrev pub locked : Sys
  locked = retabled s (pos 1) s.log.committing (upd s.inode x.ip (record ip { busy = true })) s.file

  pub begins : begin_op s ≡ ok tt (retabled s (pos 1) s.log.committing s.inode s.file)
  begins = elim (begin_op_lem s 0 h.outstanding) [
    | inl (run, _, _) ↦ run
    | inr (_, why) ↦ elim why [
      | inl busy ↦ absurd (ground (arith, h.committing))
      | inr full ↦ absurd (omega (arith, h.idle.none_logged))
    ]
  ]

  pub locks : ilock x.ip (retabled s (pos 1) s.log.committing s.inode s.file) ≡ ok tt locked
  locks =
      ilock-loaded (retabled s (pos 1) s.log.committing s.inode s.file) x.ip h.counted h.unlocked
        h.loaded

  pub locked-IsOwn : IsOwn locked (record ip { busy = true })
  unfolding addr_at view
  locked-IsOwn = record {
    file = record {
      on_device = h.own.file.on_device;
      short = h.own.file.short;
      mapped = h.own.file.mapped;
      inside = h.own.file.inside;
      indirect = h.own.file.indirect;
      indirect_inside = h.own.file.indirect_inside;
    };
    small = h.own.small;
    home = h.own.home;
    distinct = h.own.distinct;
    apart = h.own.apart;
  }

  pub locked-HasRoom : (m : ℕ) → m ≤ 3 → HasRoom locked m
  locked-HasRoom m le = record {
    can = retabled-CanCommit s (pos 1) s.log.committing locked.inode s.file h.idle.can;
    under_way = 0;
    outstanding = refl;
    room = ground (arith, h.idle.none_logged);
    space = ground (arith, h.idle.none_logged, h.space);
    inside = ground (arith, h.idle.none_logged, h.inside);
  }
