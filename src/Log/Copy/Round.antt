-- ===== src/Log/Copy/Round.antt =====
-- A copy of a block over another one by xv6/log.c, from the two buffers in hand on.
use fscq.Base.{
  ℕ, ◌<◌, ◌≤◌, ◌≡◌, refl, ◌≢◌, true, false, inl, inr, arith, ◌==◌, ==_self, Option-cases,
  Bool-cases, ==_iff, contains, ◌∷◌, sym, ◌∙◌, ap,
}
use fscq.Memory.{Bytes}
use fscq.Params.{rootdev}
use fscq.Machine.{Sys, Buf, DiskOp, M, Void, ok, ◌>>◌, upd, put_buf}
use fscq.Machine.Post.{Post}
use fscq.Ide.{max_sector}
use fscq.Bio.{find_cached, bwrite, brelse, holds}
use fscq.Bio.View.{view, IsCoherent, find_cached-some, find_cached-same}
use fscq.Bio.Write.{Writes, bwrite-Writes}
use fscq.Bio.Release.{Releases, brelse-Releases}
use fscq.Log.{copy_block}
use fscq.Log.Copy.{IsQuiet, HeldBoth}

-- The state after new bytes were put in a buffer in use.
abbrev pub filled : Sys → ℕ → Bytes → Sys
filled s i b = put_buf s i (record (s.cache.buf i) { bytes = b })

module _ (s : Sys) (i : ℕ) (b : Bytes) (c : IsCoherent s) (busy : (s.cache.buf i).busy ≡ true) where
  pub IsCoherent-filled : IsCoherent (filled s i b)
  IsCoherent-filled = record {
    unique = λ d t j k hd mj mk hj hk.
        c.unique d t j k hd mj mk (ground (arith, hj)) (ground (arith, hk));
    one_device = λ j h. ground (arith, h, c.one_device j);
    dirty_valid = λ j h. ground (arith, h, c.dirty_valid j);
    clean = λ j m h1 h2 h3. ground (arith, h1, h2, h3, c.clean j m);
  }

  -- Only the block of that buffer reads differently.
  pub view-filled_ne :
      (x : ℕ)
      → holds rootdev x (s.cache.buf i) ≡ false
      → view (filled s i b) rootdev x ≡ view s rootdev x
  unfolding view
  view-filled_ne x ne =
      rw
        (find_cached-same s.cache.buf (filled s i b).cache.buf rootdev x s.cache.order
          (λ j. ground arith))
        (elim (Option-cases (find_cached s.cache.buf rootdev x s.cache.order)) [
          | inl miss ↦ rw miss refl
          | inr (j, hit) ↦
              rw hit (ground (arith, find_cached-some s.cache.buf rootdev x s.cache.order j hit))
        ])

-- Block `y` of the disk and of the cache has become `b`; all else is as before.
pub record Puts (s : Sys) (y : ℕ) (b : Bytes) (t : Sys) : Type 0 where
  pub disk : t.disk ≡ upd s.disk y b
  pub trace : t.trace ≡ DiskOp.write y b ∷ s.trace
  pub new_view : view t rootdev y ≡ b
  pub same_view : (z : ℕ) → z ≢ y → view t rootdev z ≡ view s rootdev z
  pub same_log : t.log ≡ s.log
  pub same_image : t.image_blocks ≡ s.image_blocks

-- A buffer in the caller's hands is given new bytes and written.
pub record PutsBuffer (v : Sys) (y i : ℕ) (b : Bytes) (w : Sys) : Type 0 where
  pub coherent : IsCoherent w
  pub puts : Puts v y b w
  pub busy : (w.cache.buf i).busy ≡ true
  pub bytes : (w.cache.buf i).bytes ≡ b
  pub is_block : holds rootdev y (w.cache.buf i) ≡ true
  pub others : (j : ℕ) → j ≢ i → w.cache.buf j ≡ v.cache.buf j
  pub same_order : w.cache.order ≡ v.cache.order

module _ (v : Sys) (y i : ℕ) (b : Bytes) (c : IsCoherent v) (small : v.image_blocks ≤ max_sector)
    (inside : y < v.image_blocks) (in_list : contains i v.cache.order ≡ true)
    (busy : (v.cache.buf i).busy ≡ true) (valid : (v.cache.buf i).valid ≡ true)
    (held : holds rootdev y (v.cache.buf i) ≡ true) where
  own : (filled v i b).cache.buf i ≡ record (v.cache.buf i) { bytes = b }
  own = rw ==_self refl

  is_sector : ((filled v i b).cache.buf i).sector ≡ y
  is_sector = rw own (ground arith)

  Writes-PutsBuffer : (w : Sys) → Writes (filled v i b) i w → PutsBuffer v y i b w
  Writes-PutsBuffer w h =
      let bytes : ((filled v i b).cache.buf i).bytes ≡ b = rw own refl in
      record {
        coherent = h.coherent;
        puts = record {
          disk = h.disk ∙ rw (is_sector, bytes) refl;
          trace = h.trace ∙ rw (is_sector, bytes) refl;
          new_view = ap (view w rootdev) (sym is_sector) ∙ h.new_view ∙ bytes;
          same_view = λ z ne.
              h.same_view z (λ e. ne (e ∙ is_sector))
              ∙ view-filled_ne v i b c busy z (ground arith);
          same_log = h.same_log;
          same_image = h.same_image (rw is_sector inside);
        };
        busy = rw (h.own, own) busy;
        bytes = rw (h.own, own) refl;
        is_block = rw (h.own, own) held;
        others = λ j ne. h.others j ne ∙ ground arith;
        same_order = h.same_order;
      }

  pub put_buffer : (w : Sys) × (bwrite i (filled v i b) ≡ ok tt w) × PutsBuffer v y i b w
  put_buffer =
      let (w, e, h) =
        bwrite-Writes (filled v i b) i (IsCoherent-filled v i b c busy) (rw own busy) (rw own valid)
          in_list (rw is_sector (omega arith)) in
      (w, e, Writes-PutsBuffer w h)

-- The end of a round: the source's bytes go to the destination's buffer and to the disk, and
-- both buffers are released.
module _ (s v : Sys) (y x to from : ℕ) (q : IsQuiet s) (ne : y ≢ x) (inside : y < s.image_blocks)
    (h : HeldBoth s v y x to from) where
  abbrev round_end : M Void → M Void
  round_end k = copy_block to from >> (brelse from >> (brelse to >> k))

  put_to :
      (w : Sys) × (copy_block to from v ≡ ok tt w) × PutsBuffer v y to (v.cache.buf from).bytes w
  unfolding copy_block
  put_to =
      put_buffer v y to (v.cache.buf from).bytes h.coherent (rw h.same_image q.addressable)
        (rw h.same_image inside) h.first.in_list h.first.busy h.first.valid h.first.is_block

  -- The source's buffer is as it was.
  source_kept :
      (w : Sys) → PutsBuffer v y to (v.cache.buf from).bytes w → w.cache.buf from ≡ v.cache.buf from
  source_kept w p = p.others from (λ e. h.ne (sym e))

  release_from :
      (w : Sys)
      → PutsBuffer v y to (v.cache.buf from).bytes w
      → (p : Sys) × (brelse from w ≡ ok tt p) × Releases w from p
  release_from w p =
      brelse-Releases w from p.coherent (rw p.same_order h.second.in_list)
        (rw (source_kept w p) h.second.busy)
        λ same.
          rw (source_kept w p, p.puts.disk, h.same_disk)
            (ground (
              arith,
              h.second.is_block,
              h.second.settled (ap (λ (b : Buf). b.dirty) (sym (source_kept w p)) ∙ same),
            ))

  release_to :
      (w p : Sys)
      → PutsBuffer v y to (v.cache.buf from).bytes w
      → Releases w from p
      → (t : Sys) × (brelse to p ≡ ok tt t) × Releases p to t
  release_to w p pb r =
      brelse-Releases p to r.coherent (r.same_list to ∙ rw pb.same_order h.first.in_list)
        (rw (r.others to h.ne) pb.busy)
        λ same.
          rw (r.others to h.ne, r.same_disk, pb.puts.disk) (ground (arith, pb.is_block, pb.bytes))

  module _ (w p t : Sys) (pb : PutsBuffer v y to (v.cache.buf from).bytes w) (r : Releases w from p)
      (r' : Releases p to t) where
    round-Puts : Puts s y (view s rootdev x) t
    round-Puts = record {
      disk = r'.same_disk ∙ r.same_disk ∙ pb.puts.disk ∙ rw (h.same_disk, h.second.contents) refl;
      trace =
          r'.same_trace ∙ r.same_trace ∙ pb.puts.trace ∙ rw (h.same_trace, h.second.contents) refl;
      new_view =
          r'.same_view rootdev y (omega arith)
          ∙ r.same_view rootdev y (omega arith)
          ∙ pb.puts.new_view
          ∙ h.second.contents;
      same_view = λ z nz.
          r'.same_view rootdev z (omega arith)
          ∙ r.same_view rootdev z (omega arith)
          ∙ pb.puts.same_view z nz
          ∙ h.same_view z;
      same_log = r'.same_log ∙ r.same_log ∙ pb.puts.same_log ∙ h.same_log;
      same_image = r'.same_image ∙ r.same_image ∙ pb.puts.same_image ∙ h.same_image;
    }

    round-idle : (k : ℕ) → contains k t.cache.order ≡ true → (t.cache.buf k).busy ≡ false
    round-idle k m = elim (Bool-cases (k == to)) [
      | inl e ↦ rw ((==_iff k to).0 e) r'.free
      | inr ne_to ↦ elim (Bool-cases (k == from)) [
        | inl e ↦ rw ((==_iff k from).0 e, r'.others from (λ e. h.ne (sym e))) r.free
        | inr ne_from ↦
            rw (r'.others k (ground arith), r.others k (ground arith), pb.others k (ground arith))
              (h.rest k
                (ap (contains k) (sym pb.same_order)
                  ∙ sym (r.same_list k)
                  ∙ sym (r'.same_list k)
                  ∙ m)
                (ground arith) (ground arith))
      ]
    ]

    round-IsQuiet : IsQuiet t
    round-IsQuiet = record {
      coherent = r'.coherent;
      idle = round-idle;
      addressable = rw round-Puts.same_image q.addressable;
    }

  pub round_end-Post :
      {H : Void → Sys → Type 0} {B : Sys → Type 0} (k : M Void)
      → ((t : Sys) → IsQuiet t → Puts s y (view s rootdev x) t → Post H B (k t))
      → Post H B (round_end k v)
  round_end-Post k next =
      let (w, ew, pb) = put_to in
      let (p, ep, r) = release_from w pb in
      let (t, et, r') = release_to w p pb r in
      rw (ew, ep, et) (next t (round-IsQuiet w p t pb r r') (round-Puts w p t pb r r'))
