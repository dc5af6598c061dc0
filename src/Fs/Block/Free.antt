-- ===== src/Fs/Block/Free.antt =====
-- `bfree` of xv6/fs.c within a transaction.
use fscq.Base.{
  ℕ, ◌%◌, ◌/◌, ◌<◌, ◌≡◌, sym, ap, ◌∙◌, subst, true, false, arith, not, ◌==◌, if◌then◌else◌,
}
use fscq.Params.{rootdev, bpb, bblock}
use fscq.Machine.{Sys, M, Void, ◌>>◌, ◌>>=◌, get_buf, set_bytes, panic, freeing_free_block}
use fscq.Machine.Post.{Post, bind-Post, weaken-Post}
use fscq.Bio.{bread, brelse}
use fscq.Bio.View.{view}
use fscq.Bio.Read.{Reads}
use fscq.Log.{Superblock, get_superblock, readsb, log_write}
use fscq.Log.Copy.{bread-Post}
use fscq.Log.Update.{CanLog, Logs}
use fscq.Log.Update.Block.{change_end-Post}
use fscq.Log.Update.Read.{Keeps, Keeps-CanLog, Keeps-Logs, Keeps-refl, readsb-Post}
use fscq.Fs.Block.{in_use, unmark, bfree}
use fscq.Fs.Block.Bitmap.{in_use-unmark}

-- The bitmap block of block `b`, by the superblock that block 1 reads as.
abbrev pub bitmap_of : Sys → ℕ → ℕ
bitmap_of s b = bblock b (get_superblock (view s rootdev 1)).ninodes

-- Block `b` is free in the bitmap, and every other bit of its bitmap block is as it was.
pub record Frees (s : Sys) (b : ℕ) (t : Sys) : Type 0 where
  pub logs : Logs s (bitmap_of s b) (view t rootdev (bitmap_of s b)) t
  pub bits :
      (bi : ℕ)
      → in_use (view t rootdev (bitmap_of s b)) bi
        ≡ (if bi == b % bpb then false else in_use (view s rootdev (bitmap_of s b)) bi)

module _ (s : Sys) (b : ℕ) (c : CanLog s (bitmap_of s b)) (small : bitmap_of s b < 4294967296)
    (taken : in_use (view s rootdev (bitmap_of s b)) (b % bpb) ≡ true) where
  -- What `bfree` does with the bitmap block in hand.
  abbrev free_end : ℕ → M Void
  free_end bp = get_buf bp >>= λ buf.
      if not (in_use buf.bytes (b % bpb))
      then panic freeing_free_block
      else (set_bytes bp (unmark (b % bpb)) >> (log_write bp >> brelse bp))

  free_end-Post :
      (t : Sys)
      → Keeps s t
      → (i : ℕ) (u : Sys) → Reads t rootdev (bitmap_of s b) i u
      → Post
          (λ _ w. Logs s (bitmap_of s b) (unmark (b % bpb) (view s rootdev (bitmap_of s b))) w)
          (Keeps s)
          (free_end i u)
  free_end-Post t k i u r =
      let bit : in_use (u.cache.buf i).bytes (b % bpb) ≡ true =
        ap (λ y. in_use y (b % bpb)) (r.contents ∙ k.same_view (bitmap_of s b)) ∙ taken in
      rw bit (
        weaken-Post ((set_bytes i (unmark (b % bpb)) >> (log_write i >> brelse i)) u)
          (change_end-Post {B = Keeps s} t (bitmap_of s b) (unmark (b % bpb)) i u
            (Keeps-CanLog s t k (bitmap_of s b) c) small r)
          (λ _ w h. Keeps-Logs s t k (bitmap_of s b) (unmark (b % bpb)) w h) (λ w h. h))

  free_block-Post :
      (t : Sys)
      → Keeps s t
      → Post
          (λ _ w. Logs s (bitmap_of s b) (unmark (b % bpb) (view s rootdev (bitmap_of s b))) w)
          (Keeps s)
          ((bread rootdev (bitmap_of s b) >>= free_end) t)
  free_block-Post t k =
      let c' = Keeps-CanLog s t k (bitmap_of s b) c in
      bind-Post (bread rootdev (bitmap_of s b)) free_end t
        (weaken-Post (bread rootdev (bitmap_of s b) t)
          (bread-Post t (bitmap_of s b) k.quiet.coherent (ground (arith, c'.home, c'.inside))
            k.quiet.addressable (λ i m h. k.quiet.idle i m))
          (λ i u r. r) (λ u e. subst (Keeps s) (sym e) k))
        λ i u r. free_end-Post t k i u r

  bfree-Logs :
      Post
        (λ _ t. Logs s (bitmap_of s b) (unmark (b % bpb) (view s rootdev (bitmap_of s b))) t)
        (Keeps s)
        (bfree rootdev b s)
  unfolding bfree
  bfree-Logs =
      bind-Post (readsb rootdev) (λ sb. bread rootdev (bblock b sb.ninodes) >>= free_end) s
        (weaken-Post (readsb rootdev s)
          (readsb-Post s c.can.quiet (ground (arith, c.home, c.inside))) (λ sb t h. h)
          (λ t e. Keeps-refl s t c.can.quiet e))
        λ sb t h.
          subst
            (λ (z : Superblock).
              Post
                (λ _ w.
                  Logs s (bitmap_of s b) (unmark (b % bpb) (view s rootdev (bitmap_of s b))) w)
                (Keeps s) ((bread rootdev (bblock b z.ninodes) >>= free_end) t))
            (sym h.0) (free_block-Post t h.1)

  Logs-Frees :
      view s rootdev (bitmap_of s b) (b % bpb / 8) < 256
      → (t : Sys) → Logs s (bitmap_of s b) (unmark (b % bpb) (view s rootdev (bitmap_of s b))) t
      → Frees s b t
  Logs-Frees byte t h = record {
    logs = subst (λ y. Logs s (bitmap_of s b) y t) (sym h.new_view) h;
    bits = λ bi.
        ap (λ y. in_use y bi) h.new_view
        ∙ in_use-unmark (view s rootdev (bitmap_of s b)) (b % bpb) byte bi;
  }

  -- In a transaction with room for one block more, `bfree` of a block of the root device that
  -- is in use in the bitmap, whose bitmap block lies below the log area and has a byte at its
  -- place, returns, or stops for want of a free buffer with every block reading as before. When
  -- it returns, the bit of the block is clear, every other bit of the bitmap block is as it
  -- was, the bitmap block is logged, every other block reads as before, nothing has gone to the
  -- disk, and the state can commit.
  pub bfree-Frees :
      view s rootdev (bitmap_of s b) (b % bpb / 8) < 256
      → Post (λ _ t. Frees s b t) (Keeps s) (bfree rootdev b s)
  bfree-Frees byte =
      weaken-Post (bfree rootdev b s) bfree-Logs (λ _ t h. Logs-Frees byte t h) (λ t h. h)
