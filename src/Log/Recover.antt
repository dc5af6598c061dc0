-- ===== src/Log/Recover.antt =====
-- `recover_from_log` of xv6/log.c, over a disk that a crash has left.
pub mod Crashes
pub mod Head
pub mod Idempotent
use fscq.Base.{ℕ, ◌+◌, ◌≤◌, ◌≡◌}
use fscq.Memory.{Bytes, get_words}
use fscq.Params.{rootdev}
use fscq.Machine.{Sys, Log, LogHeader}
use fscq.Bio.View.{view}
use fscq.Log.{header_count}
use fscq.Log.Copy.{IsQuiet}
use fscq.Log.Crash.{recovered}
use fscq.Log.Crash.Recovery.{NamesBlocks}
use fscq.Log.Commit.{RecoversTo}

-- The log after a mount: no buffer is in use or newer than the disk, whose header block names
-- distinct blocks below the log area.
pub record CanRecover (s : Sys) : Type 0 where
  pub quiet : IsQuiet s
  pub on_device : s.log.dev ≡ rootdev
  pub header : NamesBlocks s.log.start s.image_blocks (s.disk s.log.start)
  pub fresh :
      (x : ℕ) → x ≤ s.log.start + header_count (s.disk s.log.start) → view s rootdev x ≡ s.disk x

-- A recovery can start again from disk `d`, and leads to what one from the disk of `s` does.
unfoldable pub IsRecoverable : Sys → (ℕ → Bytes) → Type 0
unfolding RecoversTo
IsRecoverable s d =
    NamesBlocks s.log.start s.image_blocks (d s.log.start)
    × RecoversTo s.log.start (λ x. recovered s.log.start s.disk x) d

-- The log with the header as `read_head` finds it on the disk.
abbrev pub read_log : Sys → Log
read_log s = record (s.log) {
  lh = record {
    n = header_count (s.disk s.log.start);
    sector = get_words (s.disk s.log.start) 4 (header_count (s.disk s.log.start)) s.log.lh.sector;
  };
}
