-- ===== src/Log/Update/Block.antt =====
-- The change of a block within a transaction, from its `bread` on.
use fscq.Base.{
  ℕ, ◌+◌, ◌<◌, ◌≡◌, refl, ◌≢◌, sym, ap, ◌∙◌, subst, true, false, arith, ◌==◌, ==_self, ==_iff,
  Bool-cases, inl, inr, contains,
}
use fscq.Memory.{Bytes}
use fscq.Params.{rootdev, logsize}
use fscq.Machine.{Sys, Log, M, Void, ok, set_bytes, ◌>>◌, ◌>>=◌}
use fscq.Machine.Post.{Post, bind-Post, ok-Post}
use fscq.Bio.{bread, brelse}
use fscq.Bio.View.{view, IsCoherent}
use fscq.Bio.Read.{Reads}
use fscq.Bio.Release.{Releases, brelse-Releases}
use fscq.Log.{log_sector, log_write}
use fscq.Log.Header.{log_sector-IsHeader}
use fscq.Log.Transaction.{log_write-enters}
use fscq.Log.Copy.{bread-Post}
use fscq.Log.Copy.Round.{filled, IsCoherent-filled, view-filled_ne}
use fscq.Log.Crash.Recovery.{IsUnlogged}
use fscq.Log.Commit.{CanCommit}
use fscq.Log.Update.{CanLog, Logs, dirtied, IsCoherent-dirtied, view-dirtied, view-filled}
use fscq.Log.Update.Header.{new_count, old_or_new, IsUnlogged-ne, IsUnlogged-before}

module _ (s : Sys) (x : ℕ) (c : CanLog s x) (small : x < 4294967296) (i : ℕ) (u : Sys)
    (r : Reads s rootdev x i u) (b : Bytes) where
  abbrev new_log : Log
  new_log = record (s.log) { lh = log_sector x s.log.lh }

  abbrev changed : Sys
  changed = filled u i b

  own : changed.cache.buf i ≡ record (u.cache.buf i) { bytes = b }
  own = rw ==_self refl

  IsCoherent-changed : IsCoherent changed
  IsCoherent-changed = IsCoherent-filled u i b r.coherent r.busy

  abbrev logged : Sys
  logged = dirtied changed i new_log

  logs : log_write i changed ≡ ok tt logged
  logs =
      let sector : (changed.cache.buf i).sector ≡ x = rw own (ground (arith, r.is_block)) in
      log_write-enters changed i c.under_way
        (ap (λ (l : Log). l.outstanding) r.same_log ∙ c.outstanding)
        (subst (λ (l : Log). l.lh.n < logsize) (sym r.same_log) c.room)
        (subst (λ (l : Log). l.lh.n + 1 < l.size) (sym r.same_log) c.space)
      ∙ ap (λ (l : Log). ok tt (record logged { log = l }))
          (ap (λ n. record (u.log) { lh = log_sector n u.log.lh }) sector
            ∙ ap (λ (l : Log). record l { lh = log_sector x l.lh }) r.same_log)

  release : (t : Sys) × (brelse i logged ≡ ok tt t) × Releases logged i t
  release =
      brelse-Releases logged i
        (IsCoherent-dirtied changed i new_log IsCoherent-changed (rw own r.busy) (rw own r.valid))
        (rw r.same_order r.in_list) (rw ==_self r.busy) (λ h. absurd (ground arith))

  -- The views of the changed block and of the others.
  view-logged : view logged rootdev x ≡ b
  view-logged =
      view-dirtied changed i new_log IsCoherent-changed (rw own r.busy) (rw own r.valid) x
      ∙ view-filled u i x b r.coherent r.busy r.valid (rw r.same_order r.in_list) r.is_block

  view-logged_ne : (z : ℕ) → z ≢ x → view logged rootdev z ≡ view s rootdev z
  view-logged_ne z ne =
      view-dirtied changed i new_log IsCoherent-changed (rw own r.busy) (rw own r.valid) z
      ∙ view-filled_ne u i b r.coherent r.busy z (ground (arith, r.is_block))
      ∙ r.same_view rootdev z (omega arith)

  module _ (t : Sys) (r' : Releases logged i t) where
    block_idle : (k : ℕ) → contains k t.cache.order ≡ true → (t.cache.buf k).busy ≡ false
    block_idle k m = elim (Bool-cases (k == i)) [
      | inl e ↦ rw ((==_iff k i).0 e) r'.free
      | inr ne ↦ rw (r'.others k (ground arith)) (
          rw (ne, r.others k (ground arith))
            (c.can.quiet.idle k (ap (contains k) (sym r.same_order) ∙ sym (r'.same_list k) ∙ m)))
    ]

    block_view_ne : (z : ℕ) → z ≢ x → view t rootdev z ≡ view s rootdev z
    block_view_ne z ne = r'.same_view rootdev z (omega arith) ∙ view-logged_ne z ne

    block_disk : t.disk ≡ s.disk
    block_disk = r'.same_disk ∙ r.same_disk

    block_image : t.image_blocks ≡ s.image_blocks
    block_image = r'.same_image ∙ r.same_image

    block_home :
        (j : ℕ) → j < (log_sector x s.log.lh).n → (log_sector x s.log.lh).sector j < s.log.start
    block_home j lt = elim (old_or_new x s.log.lh j lt) [
      | inl e ↦ rw e c.home
      | inr (before, e) ↦ rw e (c.can.home j before)
    ]

    block-CanCommit : CanCommit t
    block-CanCommit =
        let log : t.log ≡ new_log = r'.same_log in
        record {
          quiet = record {
            coherent = r'.coherent;
            idle = block_idle;
            addressable = rw block_image c.can.quiet.addressable;
          };
          on_device = rw log c.can.on_device;
          header = rw log (log_sector-IsHeader x s.log.lh c.can.header c.room small);
          home = rw log block_home;
          inside = rw (log, block_image) (ground (arith, c.inside, new_count x s.log.lh));
          committed = rw (log, block_disk) c.can.committed;
          settled =
              subst
                (λ (l : Log).
                  (z : ℕ) → z < l.start → IsUnlogged l.lh z → view t rootdev z ≡ t.disk z)
                (sym log)
                λ z lt none.
                  block_view_ne z (IsUnlogged-ne x s.log.lh z none)
                  ∙ c.can.settled z lt (IsUnlogged-before x s.log.lh z none)
                  ∙ ap (λ (d : ℕ → Bytes). d z) (sym block_disk);
        }

    block-Logs : Logs s x b t
    block-Logs = record {
      can = block-CanCommit;
      new_log = r'.same_log;
      new_view = r'.same_view rootdev x (omega arith) ∙ view-logged;
      same_view = block_view_ne;
      same_disk = block_disk;
      same_trace = r'.same_trace ∙ r.same_trace;
      same_image = block_image;
      same_inode = r'.same_inode ∙ r.same_inode;
      same_file = r'.same_file ∙ r.same_file;
    }

-- The end of a call of fs.c that changes a block: a change `f` of its bytes, `log_write`, `brelse`.
pub change_steps :
    (s : Sys) (x : ℕ) (f : Bytes → Bytes) (i : ℕ) (u : Sys)
    → CanLog s x
    → x < 4294967296
    → Reads s rootdev x i u
    → (m : Sys) × (t : Sys) × (log_write i (filled u i (f (u.cache.buf i).bytes)) ≡ ok tt m)
      × (brelse i m ≡ ok tt t)
      × Logs s x (f (view s rootdev x)) t
change_steps s x f i u c small r =
    let b : Bytes = f (u.cache.buf i).bytes in
    let (t, e, r') = release s x c small i u r b in
    (
      _,
      t,
      logs s x c small i u r b,
      e,
      subst (λ y. Logs s x (f y) t) r.contents (block-Logs s x c small i u r b t r'),
    )

pub change_end-Post :
    {B : Sys → Type 0} (s : Sys) (x : ℕ) (f : Bytes → Bytes) (i : ℕ) (u : Sys)
    → CanLog s x
    → x < 4294967296
    → Reads s rootdev x i u
    → Post
        (λ _ t. Logs s x (f (view s rootdev x)) t)
        B
        ((set_bytes i f >> (log_write i >> brelse i)) u)
change_end-Post s x f i u c small r =
    let (m, t, e, e', h) = change_steps s x f i u c small r in ok-Post (rw (e, e') refl) h

-- The same with its `bread`.
pub change_block-Post :
    (s : Sys) (dev x : ℕ) (f : Bytes → Bytes)
    → CanLog s x
    → x < 4294967296
    → dev ≡ rootdev
    → Post
        (λ _ t. Logs s x (f (view s rootdev x)) t)
        (λ t. t ≡ s)
        ((bread dev x >>= λ i. set_bytes i f >> (log_write i >> brelse i)) s)
change_block-Post s dev x f c small root =
    let end : ℕ → M Void = λ i. set_bytes i f >> (log_write i >> brelse i) in
    subst
      (λ d. Post (λ _ t. Logs s x (f (view s rootdev x)) t) (λ t. t ≡ s) ((bread d x >>= end) s))
      (sym root)
      (bind-Post (bread rootdev x) end s
        (bread-Post s x c.can.quiet.coherent (ground (arith, c.home, c.inside))
          c.can.quiet.addressable (λ i m h. c.can.quiet.idle i m))
        λ i u r. change_end-Post s x f i u c small r)
