-- ===== src/Log/Recover/Crashes.antt =====
-- A commit of xv6/log.c, a crash in it, and the recovery after a mount of the disk that it left.
use fscq.Base.{ℕ, ◌<◌, ◌≡◌, sym, ◌∙◌, subst, ◌⊎◌, inl, inr, List, ◌++◌}
use mathlib.Core.List.{append_cancel_right}
use fscq.Memory.{Bytes}
use fscq.Params.{rootdev}
use fscq.Machine.{Sys, DiskOp, Run, Void, ok, panicked, bget_no_buffers}
use fscq.Machine.Post.{Post, weaken-Post}
use fscq.Bio.View.{view}
use fscq.Log.{commit, recover_from_log}
use fscq.Log.Copy.{IsQuiet}
use fscq.Log.Crash.{CrashDisk, recovered}
use fscq.Log.Crash.Since.{Since, Stopped}
use fscq.Log.Crash.Recovery.{NamesBlocks}
use fscq.Log.Commit.{CanCommit, IsAtomic, RecoversTo}
use fscq.Log.Commit.Atomic.{Commits, commit-IsAtomic}
use fscq.Log.Recover.{CanRecover, IsRecoverable}
use fscq.Log.Recover.Idempotent.{recover_from_log-IsRecoverable}

-- A crash in the run `r` from `s`, at any moment up to its end, may leave the disk `d`.
pub record MayLeave (r : Run Void) (s : Sys) (d : ℕ → Bytes) : Type 0 where
  pub end : Sys
  pub ends : (r ≡ ok tt end) ⊎ (r ≡ panicked bget_no_buffers end)
  pub new : List DiskOp
  pub trace : end.trace ≡ new ++ s.trace
  pub crash : CrashDisk s.disk new d

-- A state after a mount: the log area is known, and the cache has no block in use, nor one that
-- differs from the disk.
pub record IsMounted (s : Sys) : Type 0 where
  pub quiet : IsQuiet s
  pub on_device : s.log.dev ≡ rootdev
  pub fresh : (x : ℕ) → view s rootdev x ≡ s.disk x

-- Below the log area the disk has all changes of the transaction of `s`, or none.
unfoldable pub HasAllOrNone : Sys → (ℕ → Bytes) → Type 0
HasAllOrNone s d =
    ((x : ℕ) → x < s.log.start → d x ≡ s.disk x)
    ⊎ ((x : ℕ) → x < s.log.start → d x ≡ view s rootdev x)

module _ (s : Sys) (can : CanCommit s) (d : ℕ → Bytes) where
  Stopped-IsAtomic :
      (t : Sys) (new : List DiskOp)
      → Stopped s (IsAtomic s) t
      → t.trace ≡ new ++ s.trace
      → CrashDisk s.disk new d
      → IsAtomic s d
  Stopped-IsAtomic t new h e crash = h.always d (
      subst (λ ops. CrashDisk s.disk ops d)
        (append_cancel_right new h.new s.trace (sym e ∙ h.trace)) crash)

  MayLeave-IsAtomic : MayLeave (commit s) s d → IsAtomic s d
  MayLeave-IsAtomic m = elim m.ends [
    | inl returned ↦
        let c : Commits s m.end =
          (subst (Post (λ _ t. Commits s t) (Stopped s (IsAtomic s))) returned
            (commit-IsAtomic s can)).outcome in
        Stopped-IsAtomic m.end m.new
          (record { new = c.since.new; trace = c.since.trace; always = c.since.always }) m.trace
          m.crash
    | inr stopped ↦
        Stopped-IsAtomic m.end m.new
          ((subst (Post (λ _ t. Commits s t) (Stopped s (IsAtomic s))) stopped
            (commit-IsAtomic s can)).outcome.1)
          m.trace m.crash
  ]

module _ (s s' : Sys) (atomic : IsAtomic s s'.disk) (mounted : IsMounted s')
    (start : s'.log.start ≡ s.log.start) (image : s'.image_blocks ≡ s.image_blocks) where
  mounted-CanRecover : CanRecover s'
  unfolding IsAtomic
  mounted-CanRecover = record {
    quiet = mounted.quiet;
    on_device = mounted.on_device;
    header =
        subst (λ n. NamesBlocks n s'.image_blocks (s'.disk n)) (sym start)
          (subst (λ n. NamesBlocks s.log.start n (s'.disk s.log.start)) (sym image) atomic.0);
    fresh = λ x le. mounted.fresh x;
  }

  -- The recovery's result, where it is that of the other disk.
  RecoversTo-trans :
      (v d : ℕ → Bytes)
      → RecoversTo s.log.start v s'.disk
      → RecoversTo s'.log.start (recovered s'.log.start s'.disk) d
      → RecoversTo s.log.start v d
  unfolding RecoversTo
  RecoversTo-trans v d old again x lt =
      subst (λ n. recovered n d x ≡ recovered n s'.disk x) start
        (again x (subst (λ n. x < n) (sym start) lt))
      ∙ old x lt

  IsRecoverable-IsAtomic : (d : ℕ → Bytes) → IsRecoverable s' d → IsAtomic s d
  unfolding IsAtomic IsRecoverable
  IsRecoverable-IsAtomic d (names, again) = (
    subst (λ n. NamesBlocks s.log.start n (d s.log.start)) image
        (subst (λ n. NamesBlocks n s'.image_blocks (d n)) start names),
    elim atomic.1 [
      | inl old ↦ inl (RecoversTo-trans s.disk d old again)
      | inr new ↦ inr (RecoversTo-trans (λ x. view s rootdev x) d new again)
    ],
  )

  in_place-HasAllOrNone :
      (d : ℕ → Bytes)
      → ((x : ℕ) → x < s'.log.start → d x ≡ recovered s'.log.start s'.disk x)
      → HasAllOrNone s d
  unfolding IsAtomic RecoversTo HasAllOrNone
  in_place-HasAllOrNone d p =
      let p' : (x : ℕ) → x < s.log.start → d x ≡ recovered s.log.start s'.disk x =
        subst (λ n. (x : ℕ) → x < n → d x ≡ recovered n s'.disk x) start p in
      elim atomic.1 [
        | inl old ↦ inl λ x lt. p' x lt ∙ old x lt
        | inr new ↦ inr λ x lt. p' x lt ∙ new x lt
      ]

  weaken_always :
      (t : Sys) (P : (ℕ → Bytes) → Type 0)
      → Since s' (IsRecoverable s') P t
      → Since s' (IsAtomic s) P t
  weaken_always t P h = record {
    new = h.new;
    trace = h.trace;
    disk = h.disk;
    always = λ d c. IsRecoverable-IsAtomic d (h.always d c);
    now = h.now;
  }

  recover-IsAtomic :
      Post
        (λ _ t. HasAllOrNone s t.disk × Since s' (IsAtomic s) (λ d. d ≡ t.disk) t)
        (Stopped s' (IsAtomic s))
        (recover_from_log s')
  recover-IsAtomic =
      weaken-Post (recover_from_log s') (recover_from_log-IsRecoverable s' mounted-CanRecover)
        (λ _ t h. (
          in_place-HasAllOrNone t.disk h.on_disk.in_place,
          weaken_always t (λ d. d ≡ t.disk) h.since,
        ))
        λ t h. record {
          new = h.new;
          trace = h.trace;
          always = λ d c. IsRecoverable-IsAtomic d (h.always d c);
        }

-- A crash at any moment of a `commit`, from a state that can commit, leaves a disk from which the
-- next mount recovers all or none of the changes: after `recover_from_log` from a state mounted
-- on it with the same log area and image size, the blocks below the log area are all as the disk
-- had them before the commit, or all as the cache had them, and no other disk can be left by a
-- crash after its end. A crash during the recovery again leaves a disk that recovers so, also
-- where the recovery stops for want of a free buffer; it cannot end in another way.
pub recover-HasAllOrNone :
    (s s' : Sys)
    → CanCommit s
    → MayLeave (commit s) s s'.disk
    → IsMounted s'
    → s'.log.start ≡ s.log.start
    → s'.image_blocks ≡ s.image_blocks
    → Post
        (λ _ t. HasAllOrNone s t.disk × Since s' (IsAtomic s) (λ d. d ≡ t.disk) t)
        (Stopped s' (IsAtomic s))
        (recover_from_log s')
recover-HasAllOrNone s s' can m mounted start image =
    recover-IsAtomic s s' (MayLeave-IsAtomic s can s'.disk m) mounted start image
