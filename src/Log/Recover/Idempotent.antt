-- ===== src/Log/Recover/Idempotent.antt =====
-- `recover_from_log` of xv6/log.c as a whole, with the crashes that may happen in it.
use fscq.Base.{ℕ, ◌+◌, ◌*◌, ◌<◌, ◌≡◌, refl, sym, ap, ◌∙◌, subst, arith}
use fscq.Memory.{Bytes, get32}
use fscq.Memory.Words.{get_words_lem}
use fscq.Machine.{Sys, LogHeader, ◌>>◌}
use fscq.Machine.Post.{Post, bind-Post, weaken-Post}
use fscq.Log.{header_count, read_head, install_trans, clear_head, write_head, recover_from_log}
use fscq.Log.Crash.{recovered}
use fscq.Log.Crash.Since.{Since, Stopped, Since-start, Since-same, Since-Stopped}
use fscq.Log.Crash.Recovery.{
  Names, NamesBlocks-none, recovered-none, recovered-logged, recovered-copy, recovered-other,
}
use fscq.Log.Commit.{RecoversTo}
use fscq.Log.Commit.Install.{IsLogged, Installed, install_trans-Post}
use fscq.Log.Commit.Clear.{IsInPlace, Cleared, clear-Post}
use fscq.Log.Recover.{CanRecover, IsRecoverable, read_log}
use fscq.Log.Recover.Head.{ReadsHead, read_head-Post}

module _ (s : Sys) (can : CanRecover s) where
  abbrev start : ℕ
  start = s.log.start

  abbrev v : ℕ → Bytes
  v = recovered start s.disk

  abbrev lh : LogHeader
  lh = (read_log s).lh

  entry : (i : ℕ) → i < lh.n → lh.sector i ≡ get32 (s.disk start) (4 + 4 * i)
  entry i lt =
      get_words_lem (s.disk start) 4 (header_count (s.disk start)) s.log.lh.sector i ∙ ground arith

  disk-Names : Names (s.disk start) lh
  disk-Names = record { count = refl; entries = λ i lt. sym (entry i lt) }

  distinct : (i j : ℕ) → i < lh.n → j < lh.n → lh.sector i ≡ lh.sector j → i ≡ j
  distinct i j p q e = can.header.distinct i j p q (sym (entry i p) ∙ e ∙ entry j q)

  home : (i : ℕ) → i < lh.n → lh.sector i < start
  home i p = rw (entry i p) (can.header.home i p)

  disk-IsLogged : IsLogged start lh (s.disk start) v s.disk
  disk-IsLogged = record {
    header = refl;
    copies = λ i lt. sym (recovered-copy start s.disk lh disk-Names distinct i lt);
    others = λ x lt none. sym (recovered-other start s.disk lh disk-Names distinct x none);
  }

  IsLogged-IsRecoverable :
      (d : ℕ → Bytes) → IsLogged start lh (s.disk start) v d → IsRecoverable s d
  unfolding IsRecoverable RecoversTo
  IsLogged-IsRecoverable d h = (
    rw h.header can.header,
    λ x lt.
        recovered-logged start d v lh (subst (λ b. Names b lh) (sym h.header) disk-Names) h.copies x
          (h.others x lt),
  )

  IsInPlace-IsRecoverable : (d : ℕ → Bytes) → IsInPlace start v d → IsRecoverable s d
  unfolding IsRecoverable RecoversTo
  IsInPlace-IsRecoverable d h = (
    NamesBlocks-none start s.image_blocks (d start) h.none_logged
        (ground (arith, can.header.inside)),
    λ x lt. recovered-none start d x h.none_logged ∙ h.in_place x lt,
  )

  abbrev InstalledAt : ℕ → Sys → Type 0
  InstalledAt =
      Installed s (IsRecoverable s) (read_log s) (s.disk start) v s.image_blocks can.on_device
        can.header.inside home IsLogged-IsRecoverable

  Since-initial : Since s (IsRecoverable s) (IsLogged start lh (s.disk start) v) s
  Since-initial =
      Since-start s (IsRecoverable s) (IsLogged start lh (s.disk start) v) disk-IsLogged
        (IsLogged-IsRecoverable s.disk disk-IsLogged)

  -- The copies as the fresh cache has them.
  Installed-start : (t : Sys) → ReadsHead s t → InstalledAt 0 t
  Installed-start t r = record {
    quiet = r.quiet;
    same_log = r.new_log;
    same_image = r.same_image;
    since =
        Since-same s (IsRecoverable s) (IsLogged start lh (s.disk start) v) s Since-initial t
          r.same_trace r.same_disk;
    view_others =
        λ x lt none. r.same_view x ∙ can.fresh x (omega arith) ∙ disk-IsLogged.others x lt none;
    view_installed = λ i lt. absurd (omega arith);
    copies_view = λ i lt.
        r.same_view (start + i + 1)
        ∙ can.fresh (start + i + 1) (omega arith)
        ∙ disk-IsLogged.copies i lt;
    head_view = r.same_view start ∙ can.fresh start (omega arith);
    logged = rw r.same_disk disk-IsLogged;
    installed = λ i lt. absurd (omega arith);
  }

  -- From a mounted state whose header block on the disk counts at most LOGSIZE distinct blocks
  -- below the log area, `recover_from_log` returns or stops for want of a free buffer. At each
  -- moment a crash leaves a disk from which a recovery leads to the same blocks again. When it
  -- returns, each block below the log area is on the disk, and reads, as the header block gave
  -- it: the logged copy for a block that it names, else the block as it was; and the header
  -- counts no block.
  pub recover_from_log-IsRecoverable :
      Post
        (λ _ t. Cleared s (IsRecoverable s) (read_log s) (recovered s.log.start s.disk) t)
        (Stopped s (IsRecoverable s))
        (recover_from_log s)
  unfolding recover_from_log
  recover_from_log-IsRecoverable =
      bind-Post read_head (λ _. install_trans >> (clear_head >> write_head)) s
        (weaken-Post (read_head s) (read_head-Post s can) (λ _ t r. Installed-start t r)
          (λ t e.
            Since-Stopped s (IsRecoverable s) (IsLogged start lh (s.disk start) v) s Since-initial t
              (ap (λ (z : Sys). z.trace) e)))
        λ _ t h.
          bind-Post install_trans (λ _. clear_head >> write_head) t
            (install_trans-Post s (IsRecoverable s) (read_log s) (s.disk start) v s.image_blocks
              can.on_device can.header.inside home IsLogged-IsRecoverable t h)
            λ _ u i.
              clear-Post s (IsRecoverable s) (read_log s) (s.disk start) v can.on_device
                can.header.inside home IsLogged-IsRecoverable IsInPlace-IsRecoverable u i
