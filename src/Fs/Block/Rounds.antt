-- ===== src/Fs/Block/Rounds.antt =====
-- The block allocator of xv6/fs.c has no loop that is given rounds.
use fscq.Base.{ℕ, zero, suc, ◌+◌, ◌-◌, min}
use fscq.Params.{bpb}
use fscq.Machine.{Buf, balloc_out_of_blocks}
use fscq.Machine.Fuel.{
  IsFueled, fueled, bind-IsFueled, gets-IsFueled, panic-IsFueled, Option-IsFueled,
}
use fscq.Bio.Rounds.{bread-IsFueled, brelse-IsFueled}
use fscq.Log.{Superblock}
use fscq.Log.Rounds.{readsb-IsFueled, log_write-IsFueled}
use fscq.Fs.Block.{bzero, find_bit, take_block, balloc_loop, balloc, bfree}

bzero-IsFueled : (dev bno : ℕ) → IsFueled (bzero dev bno)
unfolding bzero
bzero-IsFueled dev bno = search (fueled, bread-IsFueled, brelse-IsFueled, log_write-IsFueled)

take_block-IsFueled : (dev bp b bi : ℕ) → IsFueled (take_block dev bp b bi)
unfolding take_block
take_block-IsFueled dev bp b bi =
    search (fueled, brelse-IsFueled, log_write-IsFueled, bzero-IsFueled)

balloc_loop-IsFueled : (dev : ℕ) (sb : Superblock) (k b : ℕ) → IsFueled (balloc_loop dev sb b k)
unfolding balloc_loop
balloc_loop-IsFueled dev sb zero b = panic-IsFueled balloc_out_of_blocks
balloc_loop-IsFueled dev sb (suc k) b = bind-IsFueled (bread-IsFueled dev _) (λ bp.
    bind-IsFueled {A = Buf} (gets-IsFueled (λ s. s.cache.buf bp)) (λ buf.
      Option-IsFueled (find_bit buf.bytes 0 (min bpb (sb.size - b)))
        (bind-IsFueled (brelse-IsFueled bp) (λ _. balloc_loop-IsFueled dev sb k (b + bpb)))
        (λ bi. take_block-IsFueled dev bp b bi)))

pub balloc-IsFueled : (dev : ℕ) → IsFueled (balloc dev)
unfolding balloc
balloc-IsFueled dev = search (fueled, readsb-IsFueled, balloc_loop-IsFueled)

pub bfree-IsFueled : (dev b : ℕ) → IsFueled (bfree dev b)
unfolding bfree
bfree-IsFueled dev b =
    search (fueled, readsb-IsFueled, bread-IsFueled, brelse-IsFueled, log_write-IsFueled) depth 9
