-- ===== src/Fs/Block/Alloc.antt =====
-- `balloc` of xv6/fs.c within a transaction.
pub mod Search
use fscq.Base.{
  ℕ, zero, suc, ◌+◌, ◌-◌, ◌*◌, ◌%◌, ◌/◌, ◌≤◌, ◌<◌, ◌≡◌, ◌≢◌, refl, sym, ap, ◌∙◌, subst, true, false,
  arith, not, ◌==◌, ==_iff, if◌then◌else◌, Bool, Bool-cases, Option, none, some, Option-cases, inl,
  inr, min,
}
use fscq.Memory.{Bytes}
use fscq.Params.{rootdev, bpb, bblock, bsize}
use fscq.Machine.{Sys, M, Void, ◌>>◌, ◌>>=◌, get_buf, set_bytes, pure}
use fscq.Machine.Post.{Post, bind-Post, weaken-Post, ok-Post}
use fscq.Bio.{bread, brelse}
use fscq.Bio.View.{view}
use fscq.Bio.Read.{Reads}
use fscq.Log.{Superblock, get_superblock, readsb, log_write}
use fscq.Log.Copy.{bread-Post}
use fscq.Log.Commit.{CanCommit}
use fscq.Log.Update.{Logs}
use fscq.Log.Update.Block.{change_steps}
use fscq.Log.Update.Read.{Keeps, Keeps-Logs, Keeps-refl, Keeps-trans, readsb-Post, read_end}
use fscq.Log.Update.Room.{HasRoom, HasRoom-CanLog, HasRoom-Keeps, HasRoom-Logs, same_start}
use fscq.Fs.Block.{in_use, mark, find_bit, take_block, bzero, balloc_loop, balloc}
use fscq.Fs.Block.Bitmap.{FirstFree, find_bit-FirstFree, in_use-mark}
use fscq.Fs.Block.Free.{bitmap_of}
use fscq.Fs.Block.Zero.{Zeroes, bzero-Zeroes}

-- The superblock, and the bit of block `b` in the bitmap.
abbrev pub sb_of : Sys → Superblock
sb_of s = get_superblock (view s rootdev 1)

unfoldable pub is_used : Sys → ℕ → Bool
is_used s b = in_use (view s rootdev (bitmap_of s b)) (b % bpb)

-- The log has room for two blocks, the bitmap lies below the log area, and no block of the bitmap is
-- free.
pub record CanAlloc (s : Sys) : Type 0 where
  pub room : HasRoom s 2
  pub small : s.log.start ≤ 4294967296
  pub bitmap_home : (b : ℕ) → b < (sb_of s).size → bitmap_of s b < s.log.start
  pub bytes : (b : ℕ) → b < (sb_of s).size → view s rootdev (bitmap_of s b) (b % bpb / 8) < 256
  pub free_apart :
      (b c : ℕ) → b < (sb_of s).size → c < (sb_of s).size → is_used s b ≡ false → bitmap_of s c ≢ b

-- Block `a` was the first free block; it is in use, and reads as zeroes.
pub record Allocates (s : Sys) (a : ℕ) (t : Sys) : Type 0 where
  pub room : HasRoom t 0
  pub in_size : a < (sb_of s).size
  pub was_free : is_used s a ≡ false
  pub first : (b : ℕ) → b < a → is_used s b ≡ true
  pub bits :
      (b : ℕ)
      → b < (sb_of s).size
      → in_use (view t rootdev (bitmap_of s b)) (b % bpb) ≡ (if b == a then true else is_used s b)
  pub zeroed : (j : ℕ) → j < bsize → view t rootdev a j ≡ 0
  pub others : (z : ℕ) → z ≢ a → z ≢ bitmap_of s a → view t rootdev z ≡ view s rootdev z
  pub same_disk : t.disk ≡ s.disk
  pub same_trace : t.trace ≡ s.trace
  pub same_inode : t.inode ≡ s.inode

module _ (s : Sys) (c : CanAlloc s) (a : ℕ) (in_size : a < (sb_of s).size)
    (free : is_used s a ≡ false) (first : (b : ℕ) → b < a → is_used s b ≡ true) where
  -- After the mark of the bit, and the clearing of the block.
  module _ (u w : Sys)
      (l : Logs s (bitmap_of s a) (mark (a % bpb) (view s rootdev (bitmap_of s a))) u)
      (z : Zeroes u a w) where
    apart : (b : ℕ) → b < (sb_of s).size → bitmap_of s b ≢ a
    apart b lt = c.free_apart a b in_size lt free

    view_bitmap : view w rootdev (bitmap_of s a) ≡ mark (a % bpb) (view s rootdev (bitmap_of s a))
    view_bitmap = z.logs.same_view (bitmap_of s a) (apart a in_size) ∙ l.new_view

    view_others : (x : ℕ) → x ≢ a → x ≢ bitmap_of s a → view w rootdev x ≡ view s rootdev x
    view_others x ne ne' = z.logs.same_view x ne ∙ l.same_view x ne'

    bits :
        (b : ℕ)
        → b < (sb_of s).size
        → in_use (view w rootdev (bitmap_of s b)) (b % bpb) ≡ (if b == a then true else is_used s b)
    unfolding is_used
    bits b lt = elim (Bool-cases (bitmap_of s b == bitmap_of s a)) [
      | inl same ↦
          let e : bitmap_of s b ≡ bitmap_of s a = (==_iff _ _).0 same in
          let block : b / bpb ≡ a / bpb = omega (arith, e) in
          rw
            (
              e,
              view_bitmap,
              in_use-mark (view s rootdev (bitmap_of s a)) (a % bpb) (c.bytes a in_size) (b % bpb),
            )
            (ground arith)
      | inr other ↦ rw (view_others (bitmap_of s b) (apart b lt) (ground arith)) (ground arith)
    ]

    pub take-Allocates : Allocates s a w
    take-Allocates = record {
      room =
          HasRoom-Logs u w 0 a (view w rootdev a) z.logs
            (HasRoom-Logs s u 1 (bitmap_of s a) _ l c.room);
      in_size = in_size;
      was_free = free;
      first = first;
      bits = bits;
      zeroed = z.zero_bytes;
      others = view_others;
      same_disk = z.logs.same_disk ∙ l.same_disk;
      same_trace = z.logs.same_trace ∙ l.same_trace;
      same_inode = z.logs.same_inode ∙ l.same_inode;
    }
