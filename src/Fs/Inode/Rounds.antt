-- ===== src/Fs/Inode/Rounds.antt =====
-- The operations on inodes of xv6/fs.c have no loop that is given rounds.
use fscq.Base.{ℕ, zero, suc, ◌+◌, ◌≡◌, refl, ◌==◌, none, some}
use fscq.Memory.{get16}
use fscq.Params.{ninode}
use fscq.Bio.{brelse}
use fscq.Log.{log_write}
use fscq.Machine.{Sys, set_bytes, ◌>>◌, Buf, ialloc_no_inodes}
use fscq.Machine.Fuel.{
  HasFuel, IsFueled, fueled, panic-IsFueled, bind-IsFueled, gets-IsFueled, if-IsFueled,
}
use fscq.Bio.Rounds.{bread-IsFueled, brelse-IsFueled}
use fscq.Log.Rounds.{readsb-IsFueled, log_write-IsFueled}
use fscq.Fs.Inode.{
  Slot, hit, empty, dinode_at, fresh_dinode, iupdate, iget, iget_scan, ialloc_loop, ialloc,
  load_inode, ilock, iunlock,
}

pub iupdate-IsFueled : (i : ℕ) → IsFueled (iupdate i)
unfolding iupdate
iupdate-IsFueled i = search (fueled, bread-IsFueled, brelse-IsFueled, log_write-IsFueled) depth 9

iget_run :
    (dev inum : ℕ) (s : Sys) (slot : Slot)
    → iget_scan s.inode dev inum none 0 ninode ≡ slot
    → HasFuel (iget dev inum s)
unfolding iget
iget_run dev inum s (hit i) e = rw e tt
iget_run dev inum s (empty none) e = rw e tt
iget_run dev inum s (empty (some i)) e = rw e tt

pub iget-IsFueled : (dev inum : ℕ) → IsFueled (iget dev inum)
iget-IsFueled dev inum = record {
  run = λ s. iget_run dev inum s (iget_scan s.inode dev inum none 0 ninode) refl;
}

take_inode-IsFueled :
    (dev type inum bp : ℕ)
    → IsFueled (do
      set_bytes bp (fresh_dinode (dinode_at inum) type)
      log_write bp
      brelse bp
      iget dev inum)
take_inode-IsFueled dev type inum bp =
    search (fueled, brelse-IsFueled, log_write-IsFueled, iget-IsFueled)

ialloc_loop-IsFueled : (dev type k inum : ℕ) → IsFueled (ialloc_loop dev type inum k)
unfolding ialloc_loop
ialloc_loop-IsFueled dev type zero inum = panic-IsFueled ialloc_no_inodes
ialloc_loop-IsFueled dev type (suc k) inum = bind-IsFueled (bread-IsFueled dev _) (λ bp.
    bind-IsFueled {A = Buf} (gets-IsFueled (λ s. s.cache.buf bp)) (λ b.
      if-IsFueled (get16 b.bytes (dinode_at inum) == 0) (take_inode-IsFueled dev type inum bp)
        (bind-IsFueled (brelse-IsFueled bp) (λ _. ialloc_loop-IsFueled dev type k (inum + 1)))))

ialloc-IsFueled : (dev type : ℕ) → IsFueled (ialloc dev type)
unfolding ialloc
ialloc-IsFueled dev type = search (fueled, readsb-IsFueled, ialloc_loop-IsFueled)

load_inode-IsFueled : (i : ℕ) → IsFueled (load_inode i)
unfolding load_inode
load_inode-IsFueled i = search (fueled, bread-IsFueled, brelse-IsFueled) depth 12

pub ilock-IsFueled : (i : ℕ) → IsFueled (ilock i)
unfolding ilock
ilock-IsFueled i = search (fueled, load_inode-IsFueled) depth 9

pub iunlock-IsFueled : (i : ℕ) → IsFueled (iunlock i)
unfolding iunlock
iunlock-IsFueled i = search fueled
