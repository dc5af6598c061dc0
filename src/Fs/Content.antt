-- ===== src/Fs/Content.antt =====
-- The contents of inodes, xv6/fs.c: `bmap`, `itrunc`, `iput`, `readi`, `zeroi` and `writei`. Offsets
-- and sizes are `uint`s, and sums of them wrap. No code enters a function into `devsw`, so a device
-- file has none to call.
pub mod Writei
pub mod WriteLoop
pub mod Writes
pub mod Readi
pub mod Blocks
pub mod Rounds
use fscq.Base.{
  ℕ, zero, suc, ◌+◌, ◌-◌, ◌*◌, ◌/◌, ◌%◌, min, ℤ, pos, minus_one, pred_ℤ, is_nat, Bool, true, false,
  ◌&&◌, ◌||◌, not, ◌==◌, ltb, leb, if◌then◌else◌,
}
use fscq.Memory.{Bytes, shift, memmove, memset, get32, put32}
use fscq.Params.{bsize, ndirect, nindirect, maxfile, t_dev, u32}
use fscq.Machine.{
  Inode, out_of_fuel, M, Void, ◌>>=◌, ◌>>◌, pure, panic, when, undefined_behaviour, upd, get_buf,
  set_bytes, get_inode, modify_inode, unix_time, bmap_out_of_range, iput_busy,
}
use fscq.Bio.{bread, brelse}
use fscq.Log.{log_write}
use fscq.Fs.Block.{balloc, bfree}
use fscq.Fs.Inode.{iupdate, iunlock}

-- `if((addr = ip->addrs[k]) == 0) ip->addrs[k] = addr = balloc(ip->dev);`
unfoldable pub addr_of : ℕ → ℕ → M ℕ
addr_of i k = do
  ip ← get_inode i
  if ip.addrs k == 0
      then (do
        addr ← balloc ip.dev
        modify_inode i (λ ip. record ip { addrs = upd ip.addrs k addr })
        pure addr)
      else pure (ip.addrs k)

-- The address of block `bn` in the indirect block at `bp`, allocated if it is 0.
unfoldable pub indirect_addr : ℕ → ℕ → ℕ → M ℕ
indirect_addr dev bp bn = do
  b ← get_buf bp
  let addr = get32 b.bytes (4 * bn)
  if addr == 0
      then (do
        addr ← balloc dev
        set_bytes bp (λ b. put32 b (4 * bn) addr)
        log_write bp
        pure addr)
      else pure addr

-- The double indirect block is sought in `ip->addrs[NDIRECT+1]`, which is beyond the array that
-- `struct inode` has: the read is undefined in C, and so is all that follows it.
unfoldable pub bmap : ℕ → ℕ → M ℕ
unfolding addr_of indirect_addr
bmap i bn =
    if ltb bn ndirect
    then addr_of i bn
    else if ltb (bn - ndirect) nindirect
    then (do
      addr ← addr_of i ndirect
      ip ← get_inode i
      bp ← bread ip.dev addr
      addr ← indirect_addr ip.dev bp (bn - ndirect)
      brelse bp
      pure addr)
    else if ltb (bn - ndirect) (maxfile - ndirect)
    then undefined_behaviour
    else panic bmap_out_of_range

-- The loop of `itrunc` over the direct blocks, from `j` for `k` rounds.
unfoldable pub free_direct : ℕ → ℕ → ℕ → M Void
free_direct i j zero = pure tt
free_direct i j (suc k) = do
  ip ← get_inode i
  when (not (ip.addrs j == 0))
      (do bfree ip.dev (ip.addrs j); modify_inode i (λ ip. record ip { addrs = upd ip.addrs j 0 }))
  free_direct i (j + 1) k

-- The loop over the words of the indirect block at `bp`.
unfoldable pub free_indirect : ℕ → ℕ → ℕ → ℕ → M Void
free_indirect dev bp j zero = pure tt
free_indirect dev bp j (suc k) = do
  b ← get_buf bp
  when (not (get32 b.bytes (4 * j) == 0)) (bfree dev (get32 b.bytes (4 * j)))
  free_indirect dev bp (j + 1) k

unfoldable pub itrunc : ℕ → M Void
unfolding free_direct free_indirect
itrunc i = do
  free_direct i 0 ndirect
  ip ← get_inode i
  when (not (ip.addrs ndirect == 0)) (do
    bp ← bread ip.dev (ip.addrs ndirect)
    free_indirect ip.dev bp 0 nindirect
    brelse bp
    bfree ip.dev (ip.addrs ndirect)
    modify_inode i (λ ip. record ip { addrs = upd ip.addrs ndirect 0 }))
  modify_inode i (λ ip. record ip { size = 0 })
  iupdate i

-- `ip->ref == 1 && (ip->flags & I_VALID) && ip->nlink == 0`
abbrev is_last_use : Inode → Bool
is_last_use ip = is_nat 1 ip.ref && (ip.valid && ip.nlink == 0)

unfoldable pub iput : ℕ → M Void
unfolding itrunc
iput i = do
  ip ← get_inode i
  when (is_last_use ip) (
      if ip.busy then panic iput_busy else (do
        modify_inode i (λ ip. record ip { busy = true })
        itrunc i
        modify_inode i (λ ip. record ip { type = 0 })
        iupdate i
        modify_inode i (λ ip. record ip { busy = false; valid = false })))
  modify_inode i (λ ip. record ip { ref = pred_ℤ ip.ref })

unfoldable pub iunlockput : ℕ → M Void
iunlockput i = do iunlock i; iput i

-- struct stat
pub record Stat : Type 0 where
  pub dev : ℕ
  pub ino : ℕ
  pub type : ℕ
  pub nlink : ℕ
  pub size : ℕ
  pub mtime : ℕ
  pub ctime : ℕ
  pub atime : ℕ

unfoldable pub stati : Inode → Stat
stati ip = record {
  dev = ip.dev;
  ino = ip.inum;
  type = ip.type;
  nlink = ip.nlink;
  size = ip.size;
  mtime = ip.mtime;
  ctime = ip.ctime;
  atime = ip.atime;
}

-- `m = min(n - tot, BSIZE - off%BSIZE)`
abbrev pub chunk : ℕ → ℕ → ℕ → ℕ
chunk n tot off = min (n - tot) (bsize - off % bsize)

-- `bp = bread(ip->dev, bmap(ip, off/BSIZE))`
unfoldable pub bread_at : ℕ → ℕ → M ℕ
unfolding bmap
bread_at i off = do ip ← get_inode i; addr ← bmap i (off / bsize); bread ip.dev addr

-- The loop of `readi`. Each round copies a byte at least, so `n + 1` rounds are enough.
unfoldable pub readi_loop : ℕ → ℕ → Bytes → ℕ → ℕ → ℕ → M Bytes
unfolding bread_at
readi_loop zero i dst off n tot = λ s. out_of_fuel
readi_loop (suc fuel) i dst off n tot = if leb n tot then pure dst else (do
  bp ← bread_at i off
  b ← get_buf bp
  brelse bp
  let m = chunk n tot off
  readi_loop fuel i (memmove dst tot (shift (off % bsize) b.bytes) m) (off + m) n (tot + m))

-- `off > ip->size || off + n < off`
abbrev bad_range : ℕ → ℕ → ℕ → Bool
bad_range size off n = ltb size off || ltb ((off + n) % u32) off

-- `readi`, with the contents of `dst` after it.
unfoldable pub readi : ℕ → Bytes → ℕ → ℕ → M (ℤ × Bytes)
unfolding readi_loop
readi i dst off n = do
  ip ← get_inode i
  if ip.type == t_dev || bad_range ip.size off n then pure (minus_one, dst) else (do
    let n = if ltb ip.size ((off + n) % u32) then ip.size - off else n
    dst ← readi_loop (n + 1) i dst off n 0
    pure (pos n, dst))

-- The loop of `zeroi` and of `writei`: `change` is the `memset`, or the `memmove` from the source,
-- of `m` bytes at `at` in the round that has `tot` bytes behind it.
unfoldable pub write_loop : (ℕ → ℕ → ℕ → Bytes → Bytes) → ℕ → ℕ → ℕ → ℕ → ℕ → M Void
unfolding bread_at
write_loop change zero i off n tot = λ s. out_of_fuel
write_loop change (suc fuel) i off n tot = if leb n tot then pure tt else (do
  bp ← bread_at i off
  let m = chunk n tot off
  set_bytes bp (change tot (off % bsize) m)
  log_write bp
  brelse bp
  write_loop change fuel i (off + m) n (tot + m))

-- `ip->size = off; ip->mtime = unix_time(); iupdate(ip);`
unfoldable pub grow : ℕ → ℕ → M Void
grow i off = do t ← unix_time; modify_inode i (λ ip. record ip { size = off; mtime = t }); iupdate i

abbrev zero_change : ℕ → ℕ → ℕ → Bytes → Bytes
zero_change tot at m b = memset b at 0 m

unfoldable pub zeroi : ℕ → ℕ → ℕ → M Void
unfolding write_loop grow
zeroi i off n = do write_loop zero_change (n + 1) i off n 0; grow i ((off + n) % u32)

abbrev pub copy_change : Bytes → ℕ → ℕ → ℕ → Bytes → Bytes
copy_change src tot at m b = memmove b at (shift tot src) m

-- MAXFILE*BSIZE is a `size_t`, so the second test compares in 64 bits.
unfoldable pub writei : ℕ → Bytes → ℕ → ℕ → M ℤ
unfolding write_loop grow
writei i src off n = do
  ip ← get_inode i
  if ip.type == t_dev || (bad_range ip.size off n || ltb (maxfile * bsize) ((off + n) % u32))
      then pure minus_one
      else (do
        write_loop (copy_change src) (n + 1) i off n 0
        ip ← get_inode i
        when (ltb 0 n && ltb ip.size ((off + n) % u32)) (grow i ((off + n) % u32))
        pure (pos n))
