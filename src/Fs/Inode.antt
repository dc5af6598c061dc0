-- ===== src/Fs/Inode.antt =====
-- Inodes on disk and their cache, xv6/fs.c. A pointer to an inode is its index in `icache.inode`.
-- `struct dinode` lies at byte `inum % IPB * 64` of its block: four shorts, the size, three times,
-- then the block addresses, of which `struct inode` has room for nine.
pub mod Lock
pub mod Update
pub mod Table
pub mod Rounds
pub mod Dinode
use fscq.Base.{
  ℕ, zero, suc, ◌+◌, ◌-◌, ◌*◌, ◌/◌, ◌%◌, ℤ, pos, negsuc, suc_ℤ, below_one, is_nat, Bool, true,
  false, ◌&&◌, ◌||◌, not, ◌==◌, ltb, if◌then◌else◌, Option, none, some,
}
use fscq.Memory.{Bytes, memset, get16, get32, put16, put32, get_words, put_words}
use fscq.Params.{ipb, iblock, dinode_size, ninode}
use fscq.Machine.{
  Buf, Inode, M, Void, ◌>>=◌, ◌>>◌, pure, panic, gets, modify, when, wait_for_ever, upd, get_buf,
  put_buf, set_bytes, get_inode, modify_inode, ialloc_no_inodes, iget_no_inodes, ilock_no_ref,
  ilock_no_type, iunlock_not_held,
}
use fscq.Bio.{bread, brelse}
use fscq.Log.{Superblock, readsb, log_write}

-- `(struct dinode*)bp->data + inum%IPB`
abbrev pub dinode_at : ℕ → ℕ
dinode_at inum = inum % ipb * dinode_size

-- NDIRECT + 1 addresses are copied.
abbrev pub naddrs : ℕ
naddrs = 9

-- The fields that `ilock` copies from the disk.
unfoldable pub get_dinode : Bytes → ℕ → Inode → Inode
get_dinode b at ip = record ip {
  type = get16 b at;
  major = get16 b (at + 2);
  minor = get16 b (at + 4);
  nlink = get16 b (at + 6);
  size = get32 b (at + 8);
  ctime = get32 b (at + 12);
  atime = get32 b (at + 16);
  mtime = get32 b (at + 20);
  addrs = get_words b (at + 24) naddrs ip.addrs;
}

-- The fields that `iupdate` copies to the disk: the shorts, the ints in its order, the addresses.
unfoldable pub put_shorts : Inode → ℕ → Bytes → Bytes
put_shorts ip at b =
    put16 (put16 (put16 (put16 b at ip.type) (at + 2) ip.major) (at + 4) ip.minor) (at + 6) ip.nlink

unfoldable pub put_ints : Inode → ℕ → Bytes → Bytes
put_ints ip at b =
    put32 (put32 (put32 (put32 b (at + 8) ip.size) (at + 16) ip.atime) (at + 12) ip.ctime) (at + 20)
      ip.mtime

unfoldable pub put_dinode : Inode → ℕ → Bytes → Bytes
put_dinode ip at b = put_words ip.addrs (at + 24) naddrs (put_ints ip at (put_shorts ip at b))

unfoldable pub iupdate : ℕ → M Void
unfolding put_dinode
iupdate i = do
  ip ← get_inode i
  bp ← bread ip.dev (iblock ip.inum)
  set_bytes bp (put_dinode ip (dinode_at ip.inum))
  log_write bp
  brelse bp

-- The scan of `iget`: the cached entry, or the first empty one.
pub data Slot : Type 0 where
  hit : ℕ → Slot
  empty : Option ℕ → Slot

abbrev pub is_cached : ℕ → ℕ → Inode → Bool
is_cached dev inum ip = not (below_one ip.ref) && ip.dev == dev && ip.inum == inum

-- `if(empty == 0 && ip->ref == 0) empty = ip;`
abbrev pub note_empty : Inode → ℕ → Option ℕ → Option ℕ
note_empty ip i (some e) = some e
note_empty ip i none = if is_nat 0 ip.ref then some i else none

unfoldable pub iget_scan : (ℕ → Inode) → ℕ → ℕ → Option ℕ → ℕ → ℕ → Slot
iget_scan inode dev inum e i zero = empty e
iget_scan inode dev inum e i (suc k) =
    let rest = iget_scan inode dev inum (note_empty (inode i) i e) (i + 1) k in
    if is_cached dev inum (inode i) then hit i else rest

unfoldable pub iget : ℕ → ℕ → M ℕ
unfolding iget_scan
iget dev inum = do
  slot ← gets (λ s. iget_scan s.inode dev inum none 0 ninode)
  elim slot [
    | hit i ↦ modify_inode i (λ ip. record ip { ref = suc_ℤ ip.ref }) >> pure i
    | empty none ↦ panic iget_no_inodes
    | empty (some i) ↦
        modify_inode i
          (λ ip. record ip { dev = dev; inum = inum; ref = pos 1; busy = false; valid = false })
        >> pure i
  ]

-- The dinode of `inum`, cleared and given its type.
unfoldable pub fresh_dinode : ℕ → ℕ → Bytes → Bytes
fresh_dinode at type b = put16 (memset b at 0 dinode_size) at type

-- The loop of `ialloc`, from `inum` for `k` rounds.
unfoldable pub ialloc_loop : ℕ → ℕ → ℕ → ℕ → M ℕ
unfolding iget fresh_dinode
ialloc_loop dev type inum zero = panic ialloc_no_inodes
ialloc_loop dev type inum (suc k) =
    let rest = ialloc_loop dev type (inum + 1) k in
    do
      bp ← bread dev (iblock inum)
      b ← get_buf bp
      if get16 b.bytes (dinode_at inum) == 0
          then (do
            set_bytes bp (fresh_dinode (dinode_at inum) type)
            log_write bp
            brelse bp
            iget dev inum)
          else (brelse bp >> rest)

unfoldable pub ialloc : ℕ → ℕ → M ℕ
unfolding ialloc_loop
ialloc dev type = do sb ← readsb dev; ialloc_loop dev type 1 (sb.ninodes - 1)

unfoldable pub idup : ℕ → M ℕ
idup i = modify_inode i (λ ip. record ip { ref = suc_ℤ ip.ref }) >> pure i

-- The read of a dinode into an entry that is not valid.
unfoldable pub load_inode : ℕ → M Void
unfolding get_dinode
load_inode i = do
  ip ← get_inode i
  bp ← bread ip.dev (iblock ip.inum)
  b ← get_buf bp
  modify_inode i (get_dinode b.bytes (dinode_at ip.inum))
  brelse bp
  modify_inode i (λ ip. record ip { valid = true })
  ip ← get_inode i
  when (ip.type == 0) (panic ilock_no_type)

unfoldable pub ilock : ℕ → M Void
unfolding load_inode
ilock i = do
  ip ← get_inode i
  if below_one ip.ref
      then panic ilock_no_ref
      else if ip.busy
      then wait_for_ever
      else (do modify_inode i (λ ip. record ip { busy = true }); when (not ip.valid) (load_inode i))

unfoldable pub iunlock : ℕ → M Void
iunlock i = do
  ip ← get_inode i
  if not ip.busy || below_one ip.ref
      then panic iunlock_not_held
      else modify_inode i (λ ip. record ip { busy = false })
