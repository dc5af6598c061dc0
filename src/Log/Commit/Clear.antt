-- ===== src/Log/Commit/Clear.antt =====
-- The end of `commit` and of a recovery of xv6/log.c: the header that counts no block goes to the
-- disk after the installed blocks.
use fscq.Base.{ℕ, ◌+◌, ◌<◌, ◌≡◌, refl, ap, ◌∙◌, arith, ==_self}
use fscq.Memory.{Bytes}
use fscq.Params.{rootdev}
use fscq.Machine.{Sys, Log, upd, ◌>>◌}
use fscq.Machine.Post.{Post, weaken-Post}
use fscq.Bio.View.{view}
use fscq.Log.{header_count, put_header, write_head, clear_head}
use fscq.Log.Copy.{IsQuiet}
use fscq.Log.Copy.Head.{PutsHead}
use fscq.Log.Crash.Since.{Since, Stopped, Since-same}
use fscq.Log.Crash.Recovery.{header_count-cleared}
use fscq.Log.Commit.Install.{IsLogged, Installed, Installed-in_place, Installed-view}
use fscq.Log.Commit.Steps.{Since-synced, head-Stopped, write_head-puts}

-- A disk on which all is in place and no block is logged.
pub record IsInPlace (start : ℕ) (v : ℕ → Bytes) (d : ℕ → Bytes) : Type 0 where
  pub none_logged : header_count (d start) ≡ 0
  pub in_place : (x : ℕ) → x < start → d x ≡ v x

abbrev pub emptied : Log → Log
emptied l = record l { lh = record (l.lh) { n = 0 } }

-- The state after the end: `l` was the log, and `v` the blocks that were installed.
pub record Cleared (s : Sys) (Q : (ℕ → Bytes) → Type 0) (l : Log) (v : ℕ → Bytes) (t : Sys)
    : Type 0 where
  pub quiet : IsQuiet t
  pub same_log : t.log ≡ emptied l
  pub same_view : (x : ℕ) → x < l.start → view t rootdev x ≡ v x
  pub on_disk : IsInPlace l.start v t.disk
  pub same_image : t.image_blocks ≡ s.image_blocks
  pub since : Since s Q (λ d. d ≡ t.disk) t

module _ (s : Sys) (Q : (ℕ → Bytes) → Type 0) (l : Log) (b : Bytes) (v : ℕ → Bytes)
    (on_device : l.dev ≡ rootdev) (inside : l.start + l.lh.n < s.image_blocks)
    (home : (i : ℕ) → i < l.lh.n → l.lh.sector i < l.start)
    (safe : (d : ℕ → Bytes) → IsLogged l.start l.lh b v d → Q d)
    (after : (d : ℕ → Bytes) → IsInPlace l.start v d → Q d) (t : Sys)
    (h : Installed s Q l b v s.image_blocks on_device inside home safe l.lh.n t) where
  abbrev clear : Sys
  clear = record t { log = emptied t.log }

  IsQuiet-clear : IsQuiet clear
  IsQuiet-clear = record {
    coherent = record {
      unique = h.quiet.coherent.unique;
      one_device = h.quiet.coherent.one_device;
      dirty_valid = h.quiet.coherent.dirty_valid;
      clean = h.quiet.coherent.clean;
    };
    idle = h.quiet.idle;
    addressable = h.quiet.addressable;
  }

  Since-clear : Since s Q (IsLogged l.start l.lh b v) clear
  Since-clear = Since-same s Q (IsLogged l.start l.lh b v) t h.since clear refl refl

  abbrev empty_block : Bytes
  empty_block = put_header (emptied l).lh b

  IsInPlace-cleared :
      (d : ℕ → Bytes)
      → ((x : ℕ) → x < l.start → d x ≡ v x)
      → IsInPlace l.start v (upd d l.start empty_block)
  IsInPlace-cleared d p = record {
    none_logged = rw ==_self (header_count-cleared (emptied l).lh b refl);
    in_place = λ x lt. ground (arith, p x lt);
  }

  in_place : (x : ℕ) → x < l.start → t.disk x ≡ v x
  in_place = Installed-in_place s Q l b v s.image_blocks on_device inside home safe t h

  read_in_place : (x : ℕ) → x < l.start → view t rootdev x ≡ v x
  read_in_place = Installed-view s Q l b v s.image_blocks on_device inside home safe t h

  clear-Cleared : (u : Sys) → IsQuiet u → PutsHead clear l.start empty_block u → Cleared s Q l v u
  unfolding view
  clear-Cleared u q p = record {
    quiet = q;
    same_log = p.same_log ∙ ap emptied h.same_log;
    same_view = λ x lt. p.same_view x (omega arith) ∙ read_in_place x lt;
    same_image = p.same_image ∙ h.same_image;
    on_disk = rw p.disk (IsInPlace-cleared t.disk in_place);
    since =
        Since-synced s clear Q (IsLogged l.start l.lh b v) (IsInPlace l.start v) l.start empty_block
          Since-clear (safe t.disk h.logged) (IsInPlace-cleared t.disk in_place)
          (λ d e. IsInPlace-cleared d e.in_place) after u p;
  }

  pub clear-Post : Post (λ _ u. Cleared s Q l v u) (Stopped s Q) ((clear_head >> write_head) t)
  unfolding clear_head view
  clear-Post =
      weaken-Post (write_head clear)
        (write_head-puts clear (emptied l) b IsQuiet-clear (ap emptied h.same_log) on_device
          (rw h.same_image (omega arith)) h.head_view)
        (λ _ u p. clear-Cleared u p.0 p.1)
        (head-Stopped s clear Q (IsLogged l.start l.lh b v) (IsInPlace l.start v) l.start
          empty_block Since-clear (safe t.disk h.logged))
