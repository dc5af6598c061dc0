-- ===== src/Log/Commit/Steps.antt =====
-- The writes of the header by `commit` and by a recovery of xv6/log.c, for the disks that a crash
-- may leave.
use fscq.Base.{ℕ, ◌<◌, ◌≡◌, refl, sym, ap, ◌∙◌, subst, ◌⊎◌, inl, inr, ◌∷◌}
use fscq.Memory.{Bytes}
use fscq.Params.{rootdev}
use fscq.Machine.{Sys, Log, DiskOp, upd}
use fscq.Machine.Post.{Post, weaken-Post}
use fscq.Bio.View.{view}
use fscq.Log.{put_header, write_head}
use fscq.Log.Copy.{IsQuiet}
use fscq.Log.Copy.Head.{PutsHead, write_head-Post}
use fscq.Log.Crash.Since.{Since, Stopped, Since-flush, Since-write, Since-Stopped}

module _ (s t : Sys) (Q P P' : (ℕ → Bytes) → Type 0) (y : ℕ) (b : Bytes) (h : Since s Q P t)
    (safe : Q t.disk) where
  abbrev flushed : Sys
  flushed = record t { trace = DiskOp.flush ∷ t.trace }

  abbrev OldOrNew : (ℕ → Bytes) → Type 0
  OldOrNew d = (d ≡ t.disk) ⊎ P' d

  Since-flushed : Since s Q OldOrNew flushed
  Since-flushed = Since-flush s Q P t h flushed OldOrNew refl refl (inl refl) safe

  pub head-Stopped : (u : Sys) → u.trace ≡ DiskOp.flush ∷ t.trace → Stopped s Q u
  head-Stopped u e = Since-Stopped s Q OldOrNew flushed Since-flushed u e

  module _ (new : P' (upd t.disk y b)) (closed : (d : ℕ → Bytes) → P' d → P' (upd d y b))
      (after : (d : ℕ → Bytes) → P' d → Q d) where
    abbrev written : Sys
    written = record flushed {
      trace = DiskOp.write y b ∷ flushed.trace;
      disk = upd flushed.disk y b;
    }

    Since-written : Since s Q OldOrNew written
    Since-written =
        Since-write s Q OldOrNew flushed Since-flushed written y b refl refl
          (λ d p. elim p [
            | inl e ↦ inr (subst (λ (d' : ℕ → Bytes). P' (upd d' y b)) (sym e) new)
            | inr p' ↦ inr (closed d p')
          ])
          (λ d p. elim p [ inl e ↦ subst Q (sym e) safe | inr p' ↦ after d p' ])

    pub Since-head : (u : Sys) → PutsHead t y b u → Since s Q P' u
    Since-head u p =
        Since-flush s Q OldOrNew written Since-written u P' p.trace p.disk new
          (after (upd t.disk y b) new)

    -- At the end only one disk is possible.
    pub Since-synced : (u : Sys) → PutsHead t y b u → Since s Q (λ d. d ≡ u.disk) u
    Since-synced u p =
        Since-flush s Q OldOrNew written Since-written u (λ d. d ≡ u.disk) p.trace p.disk
          (sym p.disk) (after (upd t.disk y b) new)

-- `write_head`, by what the log and the header's block are known to be.
pub write_head-puts :
    (t : Sys) (l : Log) (old : Bytes)
    → IsQuiet t
    → t.log ≡ l
    → l.dev ≡ rootdev
    → l.start < t.image_blocks
    → view t rootdev l.start ≡ old
    → Post
        (λ _ u. IsQuiet u × PutsHead t l.start (put_header l.lh old) u)
        (λ u. u.trace ≡ DiskOp.flush ∷ t.trace)
        (write_head t)
write_head-puts t l old q el dev inside ev =
    let start : t.log.start ≡ l.start = ap (λ (x : Log). x.start) el in
    let block : put_header t.log.lh (view t rootdev t.log.start) ≡ put_header l.lh old =
      ap (λ (x : Log). put_header x.lh (view t rootdev x.start)) el ∙ ap (put_header l.lh) ev in
    weaken-Post (write_head t)
      (write_head-Post t q (ap (λ (x : Log). x.dev) el ∙ dev)
        (subst (λ n. n < t.image_blocks) (sym start) inside))
      (λ _ u p. (
        p.0,
        subst (λ y. PutsHead t y (put_header l.lh old) u) start
            (subst (λ c. PutsHead t t.log.start c u) block p.1),
      ))
      (λ u p. p.0)
