-- ===== src/Log/Copy/Head.antt =====
-- `write_head` of xv6/log.c over a quiet state: the header goes to its block between two flushes.
use fscq.Base.{
  ℕ, ◌+◌, ◌<◌, ◌≡◌, refl, ◌≢◌, arith, Bool-cases, ◌==◌, ==_iff, inl, inr, contains, ◌∷◌, sym, ◌∙◌,
  ap, subst,
}
use fscq.Memory.{Bytes}
use fscq.Params.{rootdev}
use fscq.Machine.{Sys, Buf, DiskOp, Stats, Void, ok, upd, set_bytes, ◌>>◌, ◌>>=◌}
use fscq.Machine.Post.{Post, bind-Post, weaken-Post, ok-Post}
use fscq.Ide.{ideflush}
use fscq.Bio.{bread, bwrite, brelse}
use fscq.Bio.View.{view, IsCoherent}
use fscq.Bio.Read.{Reads}
use fscq.Bio.Release.{Releases, brelse-Releases}
use fscq.Log.{put_header, write_head}
use fscq.Log.Copy.{IsQuiet, bread-Post}
use fscq.Log.Copy.Round.{PutsBuffer, put_buffer}

abbrev flushed : Sys → Sys
flushed s = record s {
  trace = DiskOp.flush ∷ s.trace;
  stats = record (s.stats) { nflush = s.stats.nflush + 1 };
}

IsCoherent-flushed : (s : Sys) → IsCoherent s → IsCoherent (flushed s)
IsCoherent-flushed s c = record {
  unique = c.unique;
  one_device = c.one_device;
  dirty_valid = c.dirty_valid;
  clean = c.clean;
}

-- The header block of the disk and of the cache has become `b`, between two flushes.
pub record PutsHead (s : Sys) (y : ℕ) (b : Bytes) (t : Sys) : Type 0 where
  pub disk : t.disk ≡ upd s.disk y b
  pub trace : t.trace ≡ DiskOp.flush ∷ DiskOp.write y b ∷ DiskOp.flush ∷ s.trace
  pub new_view : view t rootdev y ≡ b
  pub same_view : (z : ℕ) → z ≢ y → view t rootdev z ≡ view s rootdev z
  pub same_log : t.log ≡ s.log
  pub same_image : t.image_blocks ≡ s.image_blocks

module _ (s : Sys) (q : IsQuiet s) (dev : s.log.dev ≡ rootdev)
    (inside : s.log.start < s.image_blocks) where
  abbrev head_block : Bytes
  head_block = put_header s.log.lh (view s rootdev s.log.start)

  module _ (i : ℕ) (u w t : Sys) (r : Reads (flushed s) rootdev s.log.start i u)
      (pb : PutsBuffer u s.log.start i (put_header s.log.lh (u.cache.buf i).bytes) w)
      (r' : Releases (flushed w) i t) where
    block : put_header s.log.lh (u.cache.buf i).bytes ≡ head_block
    unfolding view
    block = rw r.contents refl

    head-PutsHead : PutsHead s s.log.start head_block t
    unfolding view
    head-PutsHead = record {
      disk = r'.same_disk ∙ pb.puts.disk ∙ rw (r.same_disk, block) refl;
      trace =
          r'.same_trace
          ∙ ap (λ tr. DiskOp.flush ∷ tr) (pb.puts.trace ∙ rw (r.same_trace, block) refl);
      new_view = r'.same_view rootdev s.log.start (omega arith) ∙ pb.puts.new_view ∙ block;
      same_view = λ z nz.
          r'.same_view rootdev z (omega arith)
          ∙ pb.puts.same_view z nz
          ∙ r.same_view rootdev z (omega arith);
      same_log = r'.same_log ∙ pb.puts.same_log ∙ r.same_log;
      same_image = r'.same_image ∙ pb.puts.same_image ∙ r.same_image;
    }

    head-IsQuiet : IsQuiet t
    head-IsQuiet = record {
      coherent = r'.coherent;
      idle = λ k m. elim (Bool-cases (k == i)) [
        | inl e ↦ rw ((==_iff k i).0 e) r'.free
        | inr ne ↦
            rw (r'.others k (ground arith), pb.others k (ground arith), r.others k (ground arith))
              (q.idle k (
                ap (contains k) (sym r.same_order)
                ∙ ap (contains k) (sym pb.same_order)
                ∙ sym (r'.same_list k)
                ∙ m))
      ];
      addressable = rw head-PutsHead.same_image q.addressable;
    }

  abbrev head_end : ℕ → Sys → fscq.Machine.Run Void
  head_end i = set_bytes i (put_header s.log.lh) >> (bwrite i >> (ideflush >> brelse i))

  head_end-Post :
      {B : Sys → Type 0} (i : ℕ) (u : Sys)
      → Reads (flushed s) rootdev s.log.start i u
      → Post (λ _ t. IsQuiet t × PutsHead s s.log.start head_block t) B (head_end i u)
  unfolding ideflush
  head_end-Post i u r =
      let (w, ew, pb) =
        put_buffer u s.log.start i (put_header s.log.lh (u.cache.buf i).bytes) r.coherent
          (rw r.same_image q.addressable) (rw r.same_image inside) (rw r.same_order r.in_list)
          r.busy r.valid r.is_block in
      let (t, et, r') =
        brelse-Releases (flushed w) i (IsCoherent-flushed w pb.coherent)
          (rw (pb.same_order, r.same_order) r.in_list) pb.busy
          (λ h. rw (pb.bytes, pb.puts.disk) (ground (arith, pb.is_block))) in
      ok-Post (rw (ew, et) refl) (head-IsQuiet i u w t r pb r', head-PutsHead i u w t r pb r')

  -- Over a quiet state, `write_head` puts the header in its block, between two flushes, or stops
  -- after the first of them as no buffer is free.
  pub write_head-Post :
      Post
        (λ _ t. IsQuiet t × PutsHead s s.log.start head_block t)
        (λ t. (t.trace ≡ DiskOp.flush ∷ s.trace) × (t.disk ≡ s.disk))
        (write_head s)
  unfolding write_head ideflush
  write_head-Post =
      subst
        (λ d.
          Post (λ _ t. IsQuiet t × PutsHead s s.log.start head_block t)
            (λ t. (t.trace ≡ DiskOp.flush ∷ s.trace) × (t.disk ≡ s.disk))
            ((bread d s.log.start >>= head_end) (flushed s)))
        (sym dev)
        (bind-Post (bread rootdev s.log.start) head_end (flushed s)
          (weaken-Post (bread rootdev s.log.start (flushed s))
            (bread-Post (flushed s) s.log.start (IsCoherent-flushed s q.coherent) inside
              q.addressable (λ i m h. q.idle i m))
            (λ i t r. r) (λ t e. (ap (λ (z : Sys). z.trace) e, ap (λ (z : Sys). z.disk) e)))
          λ i u r. head_end-Post i u r)
