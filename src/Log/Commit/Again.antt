-- ===== src/Log/Commit/Again.antt =====
-- The state after a transaction, and after a recovery, of xv6/log.c: the next transaction can commit.
use fscq.Base.{ℕ, ◌<◌, ◌≡◌, sym, ap, ◌∙◌, subst, arith}
use fscq.Memory.{Bytes}
use fscq.Params.{rootdev}
use fscq.Machine.{Sys, Log}
use fscq.Bio.View.{view}
use fscq.Log.Copy.{IsQuiet}
use fscq.Log.Commit.{CanCommit}
use fscq.Log.Commit.Clear.{IsInPlace}
use fscq.Log.Commit.Ends.{Ends}

-- A state that can commit, with no block logged.
pub record IsIdle (t : Sys) : Type 0 where
  pub can : CanCommit t
  pub none_logged : t.log.lh.n ≡ 0

-- All is in place on the disk, and the log in memory is empty.
pub IsInPlace-IsIdle :
    (t : Sys) (v : ℕ → Bytes)
    → IsQuiet t
    → t.log.dev ≡ rootdev
    → t.log.lh.n ≡ 0
    → t.log.start < t.image_blocks
    → IsInPlace t.log.start v t.disk
    → ((x : ℕ) → x < t.log.start → view t rootdev x ≡ v x)
    → IsIdle t
IsInPlace-IsIdle t v q dev none inside p reads = record {
  can = record {
    quiet = q;
    on_device = dev;
    header = record {
      fits = omega arith;
      distinct = λ i j hi hj e. absurd (omega arith);
      in_range = λ i h. absurd (omega arith);
    };
    home = λ i h. absurd (omega arith);
    inside = omega arith;
    committed = p.none_logged;
    settled = λ x lt _. reads x lt ∙ sym (p.in_place x lt);
  };
  none_logged = none;
}

pub Ends-IsIdle : (s t : Sys) → CanCommit s → Ends s t → IsIdle t
Ends-IsIdle s t can h =
    let start : t.log.start ≡ s.log.start = ap (λ (l : Log). l.start) h.new_log in
    IsInPlace-IsIdle t (λ x. view s rootdev x) h.quiet
      (ap (λ (l : Log). l.dev) h.new_log ∙ can.on_device) (ap (λ (l : Log). l.lh.n) h.new_log)
      (rw (start, h.same_image) (ground (arith, can.inside)))
      (subst (λ n. IsInPlace n (λ x. view s rootdev x) t.disk) (sym start) h.on_disk)
      (λ x lt. h.same_view x (subst (λ n. x < n) start lt))
