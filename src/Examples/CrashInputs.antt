-- ===== src/Examples/CrashInputs.antt =====
-- The theorems on a commit, a crash and the recovery at a concrete log.
use fscq.Base.{
  ℤ, Bool, ℕ, ◌≡◌, refl, ◌≢◌, true, false, arith, inl, inr, List, [], ◌∷◌, down_from, ◌==◌,
  if◌then◌else◌, pos, Option-cases, Bool-cases, ==_iff, ◌∙◌, sym, ap,
}
use fscq.Memory.{Bytes, zeroes, get32}
use fscq.Params.{nbuf, rootdev}
use fscq.Machine.{
  Sys, Buf, Log, DiskOp, Run, Void, ok, panicked, exited, spins, undefined, out_of_fuel,
}
use fscq.Machine.Post.{Post}
use fscq.Bio.{find_cached, holds}
use fscq.Bio.View.{view, IsCoherent, find_cached-some}
use fscq.Log.{commit, recover_from_log}
use fscq.Log.Crash.{CrashDisk, Persists, recovered}
use fscq.Log.Crash.Since.{Since, Stopped}
use fscq.Log.Crash.Recovery.{IsUnlogged}
use fscq.Log.Commit.{CanCommit, IsAtomic}
use fscq.Log.Commit.Atomic.{Commits, commit-IsAtomic}
use fscq.Log.Commit.Clear.{Cleared}
use fscq.Log.Recover.{CanRecover, IsRecoverable, read_log}
use fscq.Log.Recover.Idempotent.{recover_from_log-IsRecoverable}
use fscq.Log.Recover.Crashes.{MayLeave, IsMounted, HasAllOrNone, recover-HasAllOrNone}
use fscq.Examples.State.{booted}

-- The log area starts at block 9970; block 7 has been changed to threes, and logged.
abbrev changed : Buf
changed = record { busy = false; valid = true; dirty = true; dev = 1; sector = 7; bytes = λ _. 3 }

abbrev empty : Buf
empty = record {
  busy = false;
  valid = false;
  dirty = false;
  dev = 4294967295;
  sector = 0;
  bytes = zeroes;
}

abbrev log_of : ℕ → ℤ → Bool → Log
log_of n outstanding committing = record {
  start = 9970;
  size = 30;
  outstanding = outstanding;
  committing = committing;
  dev = 1;
  lh = record { n = n; sector = λ _. 7 };
}

-- The superblock counts 256 inodes, so that block 7 is the first of the bitmap, and 6 blocks. Block
-- 20 holds a directory entry for inode 5, "a", and an empty one.
abbrev pub image : ℕ → Bytes
image x =
    if x == 1
    then (λ i. if i == 9 then 1 else if i == 0 then 6 else 0)
    else if x == 20
    then (λ i. if i == 0 then 5 else if i == 2 then 97 else 0)
    else zeroes

abbrev pub one_logged : ℤ → Bool → Sys
one_logged outstanding committing = record (booted image) {
  cache = record { buf = λ i. if i == 0 then changed else empty; order = down_from nbuf };
  log = log_of 1 outstanding committing;
}

module _ (o : ℤ) (c : Bool) where
  changed_only :
      (d x i : ℕ) → d ≢ 4294967295 → holds d x ((one_logged o c).cache.buf i) ≡ true → i ≡ 0
  changed_only d x i hd h = elim (Bool-cases (i == 0)) [
    | inl e ↦ (==_iff i 0).0 e
    | inr ne ↦ absurd (hd (ground arith))
  ]

  one_logged-IsCoherent : IsCoherent (one_logged o c)
  one_logged-IsCoherent = record {
    unique = λ d x i j hd mi mj hi hj. changed_only d x i hd hi ∙ sym (changed_only d x j hd hj);
    one_device = λ i h. ground (arith, h);
    dirty_valid = λ i h. ground (arith, h);
    clean = λ i m h1 h2 h3. ground (arith, h2, h3);
  }

  one_logged-settled :
      (x : ℕ) → IsUnlogged (one_logged o c).log.lh x → view (one_logged o c) rootdev x ≡ image x
  unfolding view
  one_logged-settled x none_logged =
      elim (Option-cases
        (find_cached (one_logged o c).cache.buf rootdev x (one_logged o c).cache.order)) [
          | inl miss ↦ rw miss refl
          | inr (i, hit) ↦
              let h =
                (find_cached-some (one_logged o c).cache.buf rootdev x (one_logged o c).cache.order
                  i hit).1 in
              absurd (ground (arith, h, none_logged 0 (omega arith)))
        ]

  pub one_logged-CanCommit : CanCommit (one_logged o c)
  unfolding get32
  one_logged-CanCommit = record {
    quiet = record {
      coherent = one_logged-IsCoherent;
      idle = λ i m. ground arith;
      addressable = omega arith;
    };
    on_device = refl;
    header = record {
      fits = omega arith;
      distinct = λ i j p q e. omega arith;
      in_range = λ i p. omega arith;
    };
    home = λ i p. omega arith;
    inside = omega arith;
    committed = refl;
    settled = λ x lt. one_logged-settled x;
  }

abbrev committing : Sys
committing = one_logged (pos 0) true

committing-CanCommit : CanCommit committing
committing-CanCommit = one_logged-CanCommit (pos 0) true

commit-IsAtomic_example :
    Post
      (λ _ t. Commits committing t)
      (Stopped committing (IsAtomic committing))
      (commit committing)
commit-IsAtomic_example = commit-IsAtomic committing committing-CanCommit

-- A mount of a disk of which no block is cached.
abbrev pub mounted : (ℕ → Bytes) → Sys
mounted disk = record (booted disk) {
  cache = record { buf = λ _. empty; order = down_from nbuf };
  log = log_of 0 (pos 0) false;
}

pub mounted-IsMounted : (disk : ℕ → Bytes) → IsMounted (mounted disk)
unfolding view
mounted-IsMounted disk = record {
  quiet = record {
    coherent = record {
      unique = λ d x i j hd mi mj hi hj. absurd (hd (ground (arith, hi)));
      one_device = λ i h. cc;
      dirty_valid = λ i h. cc;
      clean = λ i m h1 h2 h3. cc;
    };
    idle = λ i m. refl;
    addressable = omega arith;
  };
  on_device = refl;
  fresh = λ x. elim (Option-cases (find_cached (λ _. empty) rootdev x (down_from nbuf))) [
    | inl miss ↦ rw miss refl
    | inr (i, hit) ↦ rw hit refl
  ];
}

-- A disk whose header block names block 7, with fives in its copy.
abbrev logged_disk : ℕ → Bytes
logged_disk x =
    if x == 9970
    then (λ i. if i == 0 then 1 else if i == 4 then 7 else 0)
    else if x == 9971
    then (λ _. 5)
    else zeroes

logged-CanRecover : CanRecover (mounted logged_disk)
unfolding fscq.Examples.Everything.everything
logged-CanRecover = record {
  quiet = (mounted-IsMounted logged_disk).quiet;
  on_device = refl;
  header = record {
    fits = omega arith;
    distinct = λ i j p q e. omega arith;
    home = λ i p. elim (Bool-cases (i == 0)) [
      | inl e ↦ rw ((==_iff i 0).0 e) (omega arith)
      | inr ne ↦ absurd (ground arith)
    ];
    inside = omega arith;
  };
  fresh = λ x le. (mounted-IsMounted logged_disk).fresh x;
}

recover_from_log-IsRecoverable_example :
    Post
      (λ _ t.
        Cleared
          (mounted logged_disk)
          (IsRecoverable (mounted logged_disk))
          (read_log (mounted logged_disk))
          (recovered 9970 logged_disk)
          t)
      (Stopped (mounted logged_disk) (IsRecoverable (mounted logged_disk)))
      (recover_from_log (mounted logged_disk))
recover_from_log-IsRecoverable_example =
    recover_from_log-IsRecoverable (mounted logged_disk) logged-CanRecover

-- The crash comes before the first write is on the disk.
nothing_written : (disk : ℕ → Bytes) (ops : List DiskOp) → CrashDisk disk ops disk
unfolding CrashDisk Persists
nothing_written disk [] = refl
nothing_written disk (op ∷ ops) = inr (nothing_written disk ops)

early_crash :
    (r : Run Void)
    → Post (λ _ t. Commits committing t) (Stopped committing (IsAtomic committing)) r
    → MayLeave r committing image
early_crash (ok a t) h = record {
  end = t;
  ends = inl refl;
  new = h.outcome.since.new;
  trace = h.outcome.since.trace;
  crash = nothing_written committing.disk h.outcome.since.new;
}
early_crash (panicked p t) h = record {
  end = t;
  ends = inr (ap (λ q. panicked q t) h.outcome.0);
  new = h.outcome.1.new;
  trace = h.outcome.1.trace;
  crash = nothing_written committing.disk h.outcome.1.new;
}
early_crash (exited t) h = absurd h.outcome
early_crash spins h = absurd h.outcome
early_crash undefined h = absurd h.outcome
early_crash out_of_fuel h = absurd h.outcome

recover-HasAllOrNone_example :
    Post
      (λ _ t.
        HasAllOrNone committing t.disk
        × Since (mounted image) (IsAtomic committing) (λ d. d ≡ t.disk) t)
      (Stopped (mounted image) (IsAtomic committing))
      (recover_from_log (mounted image))
recover-HasAllOrNone_example =
    recover-HasAllOrNone committing (mounted image) committing-CanCommit
      (early_crash (commit committing) commit-IsAtomic_example) (mounted-IsMounted image) refl refl
