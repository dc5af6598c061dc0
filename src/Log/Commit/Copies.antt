-- ===== src/Log/Commit/Copies.antt =====
-- `write_log` of xv6/log.c: each logged block goes to its place in the log area.
use fscq.Base.{
  ℕ, zero, suc, ◌+◌, ◌≤◌, ◌<◌, ◌≡◌, refl, ap, ◌∙◌, subst, arith, ◌==◌, Bool-cases, inl, inr, ==_iff,
}
use fscq.Memory.{Bytes}
use fscq.Params.{rootdev}
use fscq.Machine.{Sys, Log, ok}
use fscq.Machine.Post.{Post, ok-Post}
use fscq.Bio.View.{view}
use fscq.Log.{header_count, write_log_loop, write_log}
use fscq.Log.Copy.{IsQuiet}
use fscq.Log.Copy.Round.{Puts}
use fscq.Log.Copy.Loops.{write_log_loop-round}
use fscq.Log.Crash.Since.{Since, Stopped, Since-start, Since-write, Since-Stopped}
use fscq.Log.Crash.Recovery.{recovered-none, NamesBlocks-none}
use fscq.Log.Commit.{CanCommit, IsAtomic, RecoversTo}

-- The disk but for the log area after its header.
abbrev pub IsBefore : Sys → (ℕ → Bytes) → Type 0
IsBefore s d = (x : ℕ) → x ≤ s.log.start → d x ≡ s.disk x

-- After `tail` rounds of `write_log`.
pub record Logged (s : Sys) (tail : ℕ) (t : Sys) : Type 0 where
  pub quiet : IsQuiet t
  pub same_log : t.log ≡ s.log
  pub same_image : t.image_blocks ≡ s.image_blocks
  pub since : Since s (IsAtomic s) (IsBefore s) t
  pub same_view : (x : ℕ) → x ≤ s.log.start → view t rootdev x ≡ view s rootdev x
  pub before : IsBefore s t.disk
  pub copies :
      (i : ℕ) → i < tail → t.disk (s.log.start + i + 1) ≡ view s rootdev (s.log.lh.sector i)
  pub copies_view :
      (i : ℕ) → i < tail → view t rootdev (s.log.start + i + 1) ≡ view s rootdev (s.log.lh.sector i)

module _ (s : Sys) (can : CanCommit s) where
  pub IsBefore-IsAtomic : (d : ℕ → Bytes) → IsBefore s d → IsAtomic s d
  unfolding IsAtomic RecoversTo
  IsBefore-IsAtomic d b =
      let none : header_count (d s.log.start) ≡ 0 =
        rw (b s.log.start (omega arith)) can.committed in
      (
        NamesBlocks-none s.log.start s.image_blocks (d s.log.start) none
            (ground (arith, can.inside)),
        inl λ x h. recovered-none s.log.start d x none ∙ b x (omega arith),
      )

  Logged-start : Logged s 0 s
  Logged-start = record {
    quiet = can.quiet;
    same_log = refl;
    same_image = refl;
    since =
        Since-start s (IsAtomic s) (IsBefore s) (λ x h. refl)
          (IsBefore-IsAtomic s.disk (λ x h. refl));
    same_view = λ x h. refl;
    before = λ x h. refl;
    copies = λ i p. absurd (omega arith);
    copies_view = λ i p. absurd (omega arith);
  }

  module _ (tail : ℕ) (t u : Sys) (h : Logged s tail t) (room : tail < s.log.lh.n) (q : IsQuiet u)
      (p : Puts t (s.log.start + tail + 1) (view t rootdev (s.log.lh.sector tail)) u) where
    copied : view t rootdev (s.log.lh.sector tail) ≡ view s rootdev (s.log.lh.sector tail)
    copied = h.same_view (s.log.lh.sector tail) (ground (arith, can.home tail room))

    Logged-step : Logged s (tail + 1) u
    Logged-step = record {
      quiet = q;
      same_log = p.same_log ∙ h.same_log;
      same_image = p.same_image ∙ h.same_image;
      since =
          Since-write s (IsAtomic s) (IsBefore s) t h.since u (s.log.start + tail + 1) _ p.trace
            p.disk (λ d b x le. ground (arith, b x le)) IsBefore-IsAtomic;
      same_view = λ x le. p.same_view x (omega arith) ∙ h.same_view x le;
      before = λ x le. rw p.disk (ground (arith, h.before x le));
      copies = λ i lt. rw p.disk (elim (Bool-cases (i == tail)) [
        | inl e ↦ rw ((==_iff i tail).0 e) (ground (arith, copied))
        | inr ne ↦ ground (arith, h.copies i)
      ]);
      copies_view = λ i lt. elim (Bool-cases (i == tail)) [
        | inl e ↦ rw ((==_iff i tail).0 e) (p.new_view ∙ copied)
        | inr ne ↦ p.same_view (s.log.start + i + 1) (ground arith) ∙ h.copies_view i (ground arith)
      ];
    }

  loop_end : (tail : ℕ) (t : Sys) → write_log_loop 0 tail t ≡ ok tt t
  unfolding write_log_loop
  loop_end tail t = refl

  -- The loop, from any round on.
  write_log_loop-Post :
      (k tail : ℕ) (t : Sys)
      → tail + k ≡ s.log.lh.n
      → Logged s tail t
      → Post (λ _ u. Logged s s.log.lh.n u) (Stopped s (IsAtomic s)) (write_log_loop k tail t)
  write_log_loop-Post zero tail t e h =
      let end : tail ≡ s.log.lh.n = omega arith in
      ok-Post (loop_end tail t) (subst (λ n. Logged s n t) end h)
  write_log_loop-Post (suc k) tail t e h =
      let room : tail < s.log.lh.n = omega arith in
      let home = can.home tail room in
      write_log_loop-round t (s.log.start + tail + 1) (s.log.lh.sector tail) h.quiet (omega arith)
        (rw h.same_image (ground (arith, can.inside)))
        (rw h.same_image (ground (arith, can.inside)))
        (λ u same. Since-Stopped s (IsAtomic s) (IsBefore s) t h.since u same) tail k
        (ap (λ (l : Log). l.dev) h.same_log ∙ can.on_device)
        (ap (λ (l : Log). l.start + tail + 1) h.same_log)
        (ap (λ (l : Log). l.lh.sector tail) h.same_log)
        λ u q p. write_log_loop-Post k (tail + 1) u (omega arith) (Logged-step tail t u h room q p)

  -- `write_log` writes all the blocks to the log area, or stops as no buffer is free; a crash at
  -- any moment leaves a disk that recovers to the one it had.
  pub write_log-Post : Post (λ _ u. Logged s s.log.lh.n u) (Stopped s (IsAtomic s)) (write_log s)
  unfolding write_log
  write_log-Post = write_log_loop-Post s.log.lh.n 0 s (omega arith) Logged-start
