-- ===== src/Log/Update.antt =====
-- A change of a block within a transaction, as the calls of xv6/fs.c make it: `bread`, the change of
-- `bp->data`, `log_write`, `brelse`.
pub mod Room
pub mod Tables
pub mod Read
pub mod Block
pub mod Header
use fscq.Base.{
  ℕ, suc, ◌+◌, ◌≤◌, ◌<◌, ◌≡◌, refl, ◌≢◌, sym, ap, ◌∙◌, subst, true, false, pos, arith, ◌==◌,
  ==_self, ==_iff, Bool-cases, Option-cases, some, inl, inr, contains, if◌then◌else◌,
}
use fscq.Memory.{Bytes}
use fscq.Params.{rootdev, logsize}
use fscq.Machine.{Sys, Buf, Log, LogHeader, M, Void, ok, upd, set_bytes, ◌>>◌, ◌>>=◌}
use fscq.Machine.Post.{Post, bind-Post, ok-Post}
use fscq.Bio.{holds, find_cached, bread, brelse}
use fscq.Bio.View.{view, IsCoherent, find_cached-some, find_cached-same}
use fscq.Bio.Read.{Reads}
use fscq.Bio.Write.{found_self}
use fscq.Bio.Release.{Releases, brelse-Releases}
use fscq.Log.{header_count, log_sector, log_write}
use fscq.Log.Header.{IsHeader, Enters, log_sector-Enters, log_sector-IsHeader}
use fscq.Log.Transaction.{log_write-enters}
use fscq.Log.Copy.{IsQuiet, bread-Post}
use fscq.Log.Copy.Round.{filled, IsCoherent-filled, view-filled_ne}
use fscq.Log.Crash.Recovery.{IsUnlogged}
use fscq.Log.Commit.{CanCommit}

-- In a transaction, block `x` below the log area can be changed: the header and the log area have
-- room for one block more.
pub record CanLog (s : Sys) (x : ℕ) : Type 0 where
  pub can : CanCommit s
  pub under_way : ℕ
  pub outstanding : s.log.outstanding ≡ pos (suc under_way)
  pub room : s.log.lh.n < logsize
  pub space : s.log.lh.n + 1 < s.log.size
  pub home : x < s.log.start
  pub inside : s.log.start + s.log.lh.n + 1 < s.image_blocks

-- Block `x` reads as `b` now, and is logged; nothing has gone to the disk.
pub record Logs (s : Sys) (x : ℕ) (b : Bytes) (t : Sys) : Type 0 where
  pub can : CanCommit t
  pub new_log : t.log ≡ record (s.log) { lh = log_sector x s.log.lh }
  pub new_view : view t rootdev x ≡ b
  pub same_view : (z : ℕ) → z ≢ x → view t rootdev z ≡ view s rootdev z
  pub same_disk : t.disk ≡ s.disk
  pub same_trace : t.trace ≡ s.trace
  pub same_image : t.image_blocks ≡ s.image_blocks
  pub same_inode : t.inode ≡ s.inode
  pub same_file : t.file ≡ s.file

-- The state after a buffer was marked dirty, with another log.
abbrev pub dirtied : Sys → ℕ → Log → Sys
dirtied s i l = record s {
  log = l;
  cache = record (s.cache) { buf = upd s.cache.buf i (record (s.cache.buf i) { dirty = true }) };
}

-- The buffer is in use.
module _ (s : Sys) (i : ℕ) (l : Log) (c : IsCoherent s) (busy : (s.cache.buf i).busy ≡ true)
    (valid : (s.cache.buf i).valid ≡ true) where
  pub IsCoherent-dirtied : IsCoherent (dirtied s i l)
  IsCoherent-dirtied = record {
    unique = λ d t j k hd mj mk hj hk.
        c.unique d t j k hd mj mk (ground (arith, hj)) (ground (arith, hk));
    one_device = λ j h. ground (arith, h, c.one_device j);
    dirty_valid = λ j h. ground (arith, h, c.dirty_valid j);
    clean = λ j m h1 h2 h3. ground (arith, h1, h2, h3, c.clean j m);
  }

  pub view-dirtied : (x : ℕ) → view (dirtied s i l) rootdev x ≡ view s rootdev x
  unfolding view
  view-dirtied x =
      rw
        (find_cached-same s.cache.buf (dirtied s i l).cache.buf rootdev x s.cache.order
          (λ j. ground arith))
        (elim (Option-cases (find_cached s.cache.buf rootdev x s.cache.order)) [
          | inl miss ↦ rw miss refl
          | inr (j, hit) ↦ rw hit (ground arith)
        ])

-- New bytes in a buffer in use are what its block reads as.
module _ (s : Sys) (i x : ℕ) (b : Bytes) (c : IsCoherent s) (busy : (s.cache.buf i).busy ≡ true)
    (valid : (s.cache.buf i).valid ≡ true) (in_list : contains i s.cache.order ≡ true)
    (held : holds rootdev x (s.cache.buf i) ≡ true) where
  filled_own : (filled s i b).cache.buf i ≡ record (s.cache.buf i) { bytes = b }
  filled_own = rw ==_self refl

  filled_found : find_cached (filled s i b).cache.buf rootdev x s.cache.order ≡ some i
  filled_found =
      subst (λ n. find_cached (filled s i b).cache.buf rootdev n s.cache.order ≡ some i)
        (ap (λ (z : Buf). z.sector) filled_own ∙ ground (arith, held))
        (found_self (filled s i b) i (IsCoherent-filled s i b c busy) (rw filled_own busy)
          (rw filled_own valid) in_list)

  pub view-filled : view (filled s i b) rootdev x ≡ b
  unfolding view
  view-filled = rw (filled_found, ==_self, valid) refl
