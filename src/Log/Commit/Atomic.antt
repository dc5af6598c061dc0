-- ===== src/Log/Commit/Atomic.antt =====
-- `commit` of xv6/log.c as a whole, with the crashes that may happen in it.
use fscq.Base.{ℕ, ◌+◌, ◌<◌, ◌≡◌, refl, sym, ap, ◌∙◌, inl, inr, arith, ltb, Bool-cases}
use fscq.Memory.{Bytes}
use fscq.Params.{rootdev}
use fscq.Machine.{Sys, Void, upd, ◌>>◌}
use fscq.Machine.Post.{Post, bind-Post, weaken-Post, ok-Post}
use fscq.Bio.View.{view}
use fscq.Log.{put_header, write_log, write_head, install_trans, clear_head, commit}
use fscq.Log.Copy.{IsQuiet}
use fscq.Log.Copy.Head.{PutsHead}
use fscq.Log.Crash.Since.{Since, Stopped, Since-start}
use fscq.Log.Crash.Recovery.{
  Names, NamesBlocks-none, Names-NamesBlocks, put_header-Names, recovered-none, recovered-logged,
}
use fscq.Log.Commit.{CanCommit, IsAtomic, RecoversTo}
use fscq.Log.Commit.Copies.{Logged, IsBefore, IsBefore-IsAtomic, write_log-Post}
use fscq.Log.Commit.Install.{IsLogged, Installed, install_trans-Post}
use fscq.Log.Commit.Clear.{IsInPlace, Cleared, clear-Post, emptied}
use fscq.Log.Commit.Steps.{Since-head, head-Stopped, write_head-puts}

-- What `commit` leaves when it returns.
pub record Commits (s : Sys) (t : Sys) : Type 0 where
  pub quiet : IsQuiet t
  pub same_log : t.log ≡ emptied s.log
  pub same_view : (x : ℕ) → x < s.log.start → view t rootdev x ≡ view s rootdev x
  pub on_disk : IsInPlace s.log.start (λ x. view s rootdev x) t.disk
  pub same_image : t.image_blocks ≡ s.image_blocks
  pub since : Since s (IsAtomic s) (λ d. d ≡ t.disk) t

module _ (s : Sys) (can : CanCommit s) where
  abbrev start : ℕ
  start = s.log.start

  abbrev v : ℕ → Bytes
  v x = view s rootdev x

  abbrev head_block : Bytes
  head_block = put_header s.log.lh (v start)

  IsLogged-IsAtomic : (d : ℕ → Bytes) → IsLogged start s.log.lh head_block v d → IsAtomic s d
  unfolding IsAtomic RecoversTo
  IsLogged-IsAtomic d h =
      let names : Names (d start) s.log.lh =
        rw h.header (put_header-Names s.log.lh (v start) can.header) in
      (
        Names-NamesBlocks start s.image_blocks (d start) s.log.lh can.header names can.home
            can.inside,
        inr λ x lt. recovered-logged start d v s.log.lh names h.copies x (h.others x lt),
      )

  IsInPlace-IsAtomic : (d : ℕ → Bytes) → IsInPlace start v d → IsAtomic s d
  unfolding IsAtomic RecoversTo
  IsInPlace-IsAtomic d h = (
    NamesBlocks-none start s.image_blocks (d start) h.none_logged (ground (arith, can.inside)),
    inr λ x lt. recovered-none start d x h.none_logged ∙ h.in_place x lt,
  )

  abbrev InstalledAt : ℕ → Sys → Type 0
  InstalledAt =
      Installed s (IsAtomic s) s.log head_block v s.image_blocks can.on_device can.inside can.home
        IsLogged-IsAtomic

  -- The commit point: the header goes to the disk.
  module _ (t : Sys) (h : Logged s s.log.lh.n t) where
    pub IsLogged-commit_point : IsLogged start s.log.lh head_block v (upd t.disk start head_block)
    IsLogged-commit_point = record {
      header = ground arith;
      copies = λ i p. ground (arith, h.copies i p);
      others = λ x p none. ground (arith, h.before x (omega arith), can.settled x p none);
    }

    Installed-start : (u : Sys) → IsQuiet u → PutsHead t start head_block u → InstalledAt 0 u
    Installed-start u q p = record {
      quiet = q;
      same_log = p.same_log ∙ h.same_log;
      same_image = p.same_image ∙ h.same_image;
      since =
          Since-head s t (IsAtomic s) (IsBefore s) (IsLogged start s.log.lh head_block v) start
            head_block h.since (IsBefore-IsAtomic s can t.disk h.before) IsLogged-commit_point
            (λ d l. record {
              header = ground arith;
              copies = λ i lt. ground (arith, l.copies i lt);
              others = λ x lt none. ground (arith, l.others x lt none);
            })
            IsLogged-IsAtomic u p;
      view_others = λ x lt none. p.same_view x (omega arith) ∙ h.same_view x (omega arith);
      view_installed = λ i lt. absurd (omega arith);
      copies_view = λ i lt. p.same_view (start + i + 1) (omega arith) ∙ h.copies_view i lt;
      head_view = p.new_view;
      logged = rw p.disk IsLogged-commit_point;
      installed = λ i lt. absurd (omega arith);
    }

    commit_point-Post : Post (λ _ u. InstalledAt 0 u) (Stopped s (IsAtomic s)) (write_head t)
    commit_point-Post =
        weaken-Post (write_head t)
          (write_head-puts t s.log (v start) h.quiet h.same_log can.on_device
            (rw h.same_image (ground (arith, can.inside))) (h.same_view start (omega arith)))
          (λ _ u p. Installed-start u p.0 p.1)
          (head-Stopped s t (IsAtomic s) (IsBefore s) (IsBefore s) start head_block h.since
            (IsBefore-IsAtomic s can t.disk h.before))

  abbrev Done : Void → Sys → Type 0
  Done _ t = Cleared s (IsAtomic s) s.log v t

  commit_some :
      Post Done
        (Stopped s (IsAtomic s))
        ((write_log >> (write_head >> (install_trans >> (clear_head >> write_head)))) s)
  commit_some =
      bind-Post write_log (λ _. write_head >> (install_trans >> (clear_head >> write_head))) s
        (write_log-Post s can)
        λ _ t h.
          bind-Post write_head (λ _. install_trans >> (clear_head >> write_head)) t
            (commit_point-Post t h)
            λ _ u i.
              bind-Post install_trans (λ _. clear_head >> write_head) u
                (install_trans-Post s (IsAtomic s) s.log head_block v s.image_blocks can.on_device
                  can.inside can.home IsLogged-IsAtomic u i)
                λ _ w j.
                  clear-Post s (IsAtomic s) s.log head_block v can.on_device can.inside can.home
                    IsLogged-IsAtomic IsInPlace-IsAtomic w j

  -- With nothing logged the disk is as it is to be.
  IsInPlace-empty : s.log.lh.n ≡ 0 → IsInPlace start v s.disk
  IsInPlace-empty e = record {
    none_logged = can.committed;
    in_place = λ x lt. sym (can.settled x lt (λ i p. absurd (omega arith)));
  }

  commit_none : s.log.lh.n ≡ 0 → Done tt s
  commit_none e = record {
    quiet = can.quiet;
    same_log = ap (λ n. record (s.log) { lh = record (s.log.lh) { n = n } }) e;
    same_view = λ x lt. refl;
    same_image = refl;
    on_disk = IsInPlace-empty e;
    since =
        Since-start s (IsAtomic s) (λ d. d ≡ s.disk) refl
          (IsInPlace-IsAtomic s.disk (IsInPlace-empty e));
  }

  Cleared-Commits : (t : Sys) → Cleared s (IsAtomic s) s.log v t → Commits s t
  Cleared-Commits t h = record {
    quiet = h.quiet;
    same_log = h.same_log;
    same_view = h.same_view;
    same_image = h.same_image;
    on_disk = h.on_disk;
    since = h.since;
  }

  -- From a state that can commit (a coherent cache with no buffer in use, a header block that
  -- counts no block, a header in memory that names distinct blocks below the log area, and
  -- every other block there the same in cache and disk), `commit` returns or stops for want of
  -- a free buffer. At each moment of either run a crash, which may lose any of the writes of
  -- the run that no flush has followed, leaves a disk that recovers to all blocks below the log
  -- area as the disk had them, or to all of them as the cache had them. When it returns, the
  -- disk has the blocks below the log area that the cache had, it is the only one that a crash
  -- can leave, the header counts no block on the disk and in memory, no buffer is in use, and
  -- every block below the log area reads as before.
  pub commit-IsAtomic : Post (λ _ t. Commits s t) (Stopped s (IsAtomic s)) (commit s)
  unfolding commit
  commit-IsAtomic = elim (Bool-cases (ltb 0 s.log.lh.n)) [
    | inl some ↦ rw some (weaken-Post _ commit_some (λ _ t h. Cleared-Commits t h) (λ t h. h))
    | inr none ↦ rw none (ok-Post refl (Cleared-Commits s (commit_none (ground arith))))
  ]
