-- ===== src/Log/Commit/Ends.antt =====
-- The last `end_op` of xv6/log.c, which commits.
use fscq.Base.{ℕ, ◌<◌, ◌≡◌, refl, sym, ap, subst, true, false, pos}
use fscq.Memory.{Bytes}
use fscq.Params.{rootdev}
use fscq.Machine.{Sys, Log, M, Void, modify_log, ◌>>◌}
use fscq.Machine.Post.{Post, bind-Post, weaken-Post, ok-Post}
use fscq.Bio.View.{view}
use fscq.Log.{commit, end_op}
use fscq.Log.Copy.{IsQuiet}
use fscq.Log.Update.Tables.{retabled-CanCommit}
use fscq.Log.Crash.Since.{Since, Stopped}
use fscq.Log.Commit.{CanCommit, IsAtomic, RecoversTo}
use fscq.Log.Commit.Atomic.{Commits, commit-IsAtomic}
use fscq.Log.Commit.Clear.{IsInPlace, emptied}

-- What the last `end_op` leaves when it returns: no operation is under way and no block logged.
pub record Ends (s t : Sys) : Type 0 where
  pub quiet : IsQuiet t
  pub new_log : t.log ≡ record (emptied s.log) { outstanding = pos 0; committing = false }
  pub same_view : (x : ℕ) → x < s.log.start → view t rootdev x ≡ view s rootdev x
  pub on_disk : IsInPlace s.log.start (λ x. view s rootdev x) t.disk
  pub same_image : t.image_blocks ≡ s.image_blocks
  pub since : Since s (IsAtomic s) (λ d. d ≡ t.disk) t

module _ (s : Sys) (can : CanCommit s) where
  -- The state in which `end_op` calls `commit`.
  abbrev committing : Sys
  committing = record s { log = record (s.log) { outstanding = pos 0; committing = true } }

  committing-CanCommit : CanCommit committing
  committing-CanCommit = retabled-CanCommit s (pos 0) true s.inode s.file can

  same_safe : (d : ℕ → Bytes) → IsAtomic committing d → IsAtomic s d
  unfolding IsAtomic RecoversTo view
  same_safe d a = a

  abbrev done : Sys → Sys
  done t = record t { log = record (t.log) { committing = false } }

  Commits-Ends : (t : Sys) → Commits committing t → Ends s (done t)
  unfolding view
  Commits-Ends t h = record {
    quiet = record {
      coherent = record {
        unique = h.quiet.coherent.unique;
        one_device = h.quiet.coherent.one_device;
        dirty_valid = h.quiet.coherent.dirty_valid;
        clean = h.quiet.coherent.clean;
      };
      idle = h.quiet.idle;
      addressable = h.quiet.addressable;
    };
    new_log = ap (λ (l : Log). record l { committing = false }) h.same_log;
    same_view = h.same_view;
    same_image = h.same_image;
    on_disk = record { none_logged = h.on_disk.none_logged; in_place = h.on_disk.in_place };
    since = record {
      new = h.since.new;
      trace = h.since.trace;
      disk = h.since.disk;
      always = λ d c. same_safe d (h.since.always d c);
      now = h.since.now;
    };
  }

  abbrev rest : M Void
  rest = commit >> modify_log (λ l. record l { committing = false })

  commits : s.log.outstanding ≡ pos 1 → s.log.committing ≡ false → end_op s ≡ rest committing
  unfolding end_op
  commits e idle = rw (e, idle) refl

  -- From a state that can commit, with one operation under way and no commit going on, `end_op`
  -- returns or stops for want of a free buffer. At each moment of either run a crash leaves a
  -- disk that recovers to all blocks below the log area as the disk had them, or to all of them
  -- as the cache had them. When it returns, no operation is under way, no commit goes on and no
  -- block is logged, the disk has the blocks below the log area that the cache had and is the
  -- only one that a crash can leave, and every block below the log area reads as before.
  pub end_op-Ends :
      s.log.outstanding ≡ pos 1
      → s.log.committing ≡ false
      → Post (λ _ t. Ends s t) (Stopped s (IsAtomic s)) (end_op s)
  end_op-Ends e idle =
      subst (Post (λ _ t. Ends s t) (Stopped s (IsAtomic s))) (sym (commits e idle)) (
        bind-Post commit (λ _. modify_log (λ l. record l { committing = false })) committing
          (weaken-Post (commit committing) (commit-IsAtomic committing committing-CanCommit)
            (λ _ t h. h)
            (λ t h. record {
              new = h.new;
              trace = h.trace;
              always = λ d c. same_safe d (h.always d c);
            }))
          λ _ t h. ok-Post refl (Commits-Ends t h))
