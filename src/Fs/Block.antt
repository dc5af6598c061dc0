-- ===== src/Fs/Block.antt =====
-- The block allocator of xv6/fs.c, over the bitmap: bit `b % BPB` of bitmap block BBLOCK(b).
pub mod Alloc
pub mod Free
pub mod Zero
pub mod Bitmap
pub mod Rounds
use fscq.Base.{
  ℕ, zero, suc, ◌+◌, ◌-◌, ◌/◌, ◌%◌, min, Bool, true, false, ◌==◌, ltb, if◌then◌else◌, not, Option,
  none, some,
}
use fscq.Memory.{Bytes, memset, set_byte, test_bit, set_bit, clear_bit}
use fscq.Params.{bsize, bpb, bblock, u32}
use fscq.Machine.{
  Buf, M, Void, ◌>>=◌, ◌>>◌, pure, panic, gets, modify, upd, get_buf, put_buf, set_bytes,
  balloc_out_of_blocks, freeing_free_block,
}
use fscq.Bio.{bread, brelse}
use fscq.Log.{Superblock, readsb, log_write}

-- `xv6_bzero`
unfoldable pub bzero : ℕ → ℕ → M Void
bzero dev bno = do
  bp ← bread dev bno
  set_bytes bp (λ b. memset b 0 0 bsize)
  log_write bp
  brelse bp

-- Bit `bi` of a bitmap block, and the block with it set or cleared.
unfoldable pub in_use : Bytes → ℕ → Bool
unfolding test_bit
in_use b bi = test_bit (b (bi / 8)) (bi % 8)

unfoldable pub mark : ℕ → Bytes → Bytes
unfolding set_byte set_bit
mark bi b = set_byte b (bi / 8) (set_bit (b (bi / 8)) (bi % 8))

unfoldable pub unmark : ℕ → Bytes → Bytes
unfolding set_byte clear_bit
unmark bi b = set_byte b (bi / 8) (clear_bit (b (bi / 8)) (bi % 8))

-- The inner loop of `balloc`: the first free bit of the block from `bi` on, for `k` rounds.
unfoldable pub find_bit : Bytes → ℕ → ℕ → Option ℕ
unfolding in_use
find_bit b bi zero = none
find_bit b bi (suc k) = let rest = find_bit b (bi + 1) k in if in_use b bi then rest else some bi

-- What the inner loop does when it has found the bit.
unfoldable pub take_block : ℕ → ℕ → ℕ → ℕ → M ℕ
unfolding mark bzero
take_block dev bp b bi = do
  set_bytes bp (mark bi)
  log_write bp
  brelse bp
  bzero dev (b + bi)
  pure (b + bi)

-- The outer loop, from `b` for `k` rounds.
unfoldable pub balloc_loop : ℕ → Superblock → ℕ → ℕ → M ℕ
unfolding find_bit take_block
balloc_loop dev sb b zero = panic balloc_out_of_blocks
balloc_loop dev sb b (suc k) =
    let rest = balloc_loop dev sb (b + bpb) k in
    do
      bp ← bread dev (bblock b sb.ninodes)
      buf ← get_buf bp
      elim (find_bit buf.bytes 0 (min bpb (sb.size - b))) [
        | some bi ↦ take_block dev bp b bi
        | none ↦ brelse bp >> rest
      ]

unfoldable pub balloc : ℕ → M ℕ
unfolding balloc_loop
balloc dev = do sb ← readsb dev; balloc_loop dev sb 0 ((sb.size + bpb - 1) / bpb)

unfoldable pub bfree : ℕ → ℕ → M Void
unfolding in_use unmark
bfree dev b = do
  sb ← readsb dev
  bp ← bread dev (bblock b sb.ninodes)
  buf ← get_buf bp
  if not (in_use buf.bytes (b % bpb))
      then panic freeing_free_block
      else (do set_bytes bp (unmark (b % bpb)); log_write bp; brelse bp)
