-- ===== src/Log.antt =====
-- The redo log, xv6/log.c. Block `start` of the log area is the header: `n` at byte 0 and
-- `sector[i]` at byte 4 + 4 * i; block `start + 1 + i` is the logged copy of `sector[i]`.
pub mod Update
pub mod Recover
pub mod Commit
pub mod Crash
pub mod Copy
pub mod Transaction
pub mod Header
pub mod Rounds
use fscq.Base.{
  ℕ, zero, suc, ◌+◌, ◌-◌, ◌*◌, ◌%◌, ℤ, pos, negsuc, suc_ℤ, pred_ℤ, below_one, is_nat, Bool, true,
  false, ◌||◌, ltb, leb, ◌==◌, if◌then◌else◌,
}
use fscq.Memory.{Bytes, get32, put32, get_words, put_words}
use fscq.Params.{bsize, rootdev, maxopblocks, logsize, u32}
use fscq.Machine.{
  Buf, Log, LogHeader, Sys, M, Void, ◌>>=◌, ◌>>◌, pure, panic, gets, modify, when, wait_for_ever,
  undefined_behaviour, upd, get_buf, set_buf, put_buf, set_bytes, modify_log, log_committing,
  log_too_big, log_outside_trans,
}
use fscq.Ide.{ideflush}
use fscq.Bio.{bread, bwrite, brelse}

-- struct superblock: four `uint`s at the start of block 1
pub record Superblock : Type 0 where
  pub size : ℕ
  pub nblocks : ℕ
  pub ninodes : ℕ
  pub nlog : ℕ

abbrev pub get_superblock : Bytes → Superblock
get_superblock b = record {
  size = get32 b 0;
  nblocks = get32 b 4;
  ninodes = get32 b 8;
  nlog = get32 b 12;
}

-- `readsb` of fs.c
unfoldable pub readsb : ℕ → M Superblock
readsb dev = do bp ← bread dev 1; b ← get_buf bp; brelse bp; pure (get_superblock b.bytes)

-- Copy block `from` over block `to` and write that to the disk, as both copy loops do.
unfoldable pub copy_block : ℕ → ℕ → M Void
copy_block to from = do f ← get_buf from; set_bytes to (λ _. f.bytes); bwrite to

-- The loop of `install_trans`, from `tail` for `k` rounds.
unfoldable pub install_loop : ℕ → ℕ → M Void
unfolding copy_block
install_loop zero tail = pure tt
install_loop (suc k) tail = do
  l ← gets (λ s. s.log)
  lbuf ← bread l.dev (l.start + tail + 1)
  dbuf ← bread l.dev (l.lh.sector tail)
  copy_block dbuf lbuf
  brelse lbuf
  brelse dbuf
  install_loop k (tail + 1)

unfoldable pub install_trans : M Void
unfolding install_loop
install_trans = do l ← gets (λ s. s.log); install_loop l.lh.n 0

-- `n` is an `int`, and only bounds loops before it is reset: a negative one stands for no rounds.
abbrev pub header_count : Bytes → ℕ
header_count b = if leb 2147483648 (get32 b 0) then 0 else get32 b 0

unfoldable pub put_header : LogHeader → Bytes → Bytes
put_header lh b = put_words lh.sector 4 lh.n (put32 b 0 lh.n)

-- More sectors than `lh.sector` has room for run over its end.
unfoldable pub read_head : M Void
read_head = do
  l ← gets (λ s. s.log)
  i ← bread l.dev l.start
  b ← get_buf i
  let n = header_count b.bytes
  if ltb logsize n
      then undefined_behaviour
      else modify_log
          (λ l. record l { lh = record { n = n; sector = get_words b.bytes 4 n l.lh.sector } })
  brelse i

unfoldable pub write_head : M Void
unfolding put_header
write_head = do
  ideflush
  l ← gets (λ s. s.log)
  i ← bread l.dev l.start
  set_bytes i (put_header l.lh)
  bwrite i
  ideflush
  brelse i

-- `thelog.lh.n = 0`
unfoldable pub clear_head : M Void
clear_head = modify_log λ l. record l { lh = record (l.lh) { n = 0 } }

unfoldable pub recover_from_log : M Void
unfolding read_head install_trans clear_head write_head
recover_from_log = do read_head; install_trans; clear_head; write_head

-- `sizeof(struct logheader)` is 124, below BSIZE, so its check cannot fail.
unfoldable pub initlog : M Void
unfolding readsb recover_from_log
initlog = do
  sb ← readsb rootdev
  modify_log
      (λ l. record l { start = (sb.size + u32 - sb.nlog) % u32; size = sb.nlog; dev = rootdev })
  recover_from_log

-- `thelog.lh.n + (thelog.outstanding+1)*MAXOPBLOCKS > LOGSIZE`
unfoldable pub may_exhaust : ℕ → ℤ → Bool
may_exhaust n (pos k) = ltb logsize (n + (k + 1) * maxopblocks)
may_exhaust n (negsuc k) = ltb (logsize + k * maxopblocks) n

-- Both waits of `begin_op` are for another thread, and there is none.
unfoldable pub begin_op : M Void
unfolding may_exhaust
begin_op = do
  l ← gets (λ s. s.log)
  if l.committing || may_exhaust l.lh.n l.outstanding
      then wait_for_ever
      else modify_log (λ l. record l { outstanding = suc_ℤ l.outstanding })

-- The loop of `write_log`, from `tail` for `k` rounds.
unfoldable pub write_log_loop : ℕ → ℕ → M Void
unfolding copy_block
write_log_loop zero tail = pure tt
write_log_loop (suc k) tail = do
  l ← gets (λ s. s.log)
  to ← bread l.dev (l.start + tail + 1)
  from ← bread l.dev (l.lh.sector tail)
  copy_block to from
  brelse from
  brelse to
  write_log_loop k (tail + 1)

unfoldable pub write_log : M Void
unfolding write_log_loop
write_log = do l ← gets (λ s. s.log); write_log_loop l.lh.n 0

unfoldable pub commit : M Void
unfolding write_log write_head install_trans clear_head
commit = do
  l ← gets (λ s. s.log)
  when (ltb 0 l.lh.n) (do write_log; write_head; install_trans; clear_head; write_head)

unfoldable pub end_op : M Void
unfolding commit
end_op = do
  modify_log (λ l. record l { outstanding = pred_ℤ l.outstanding })
  l ← gets (λ s. s.log)
  if l.committing
      then panic log_committing
      else when (is_nat 0 l.outstanding) (do
        modify_log (λ l. record l { committing = true })
        commit
        modify_log (λ l. record l { committing = false }))

-- The index at which the search of `log_write` stops: the sector's, or `n`.
unfoldable pub absorb_index : (ℕ → ℕ) → ℕ → ℕ → ℕ → ℕ
absorb_index sector target i zero = i
absorb_index sector target i (suc k) =
    let rest = absorb_index sector target (i + 1) k in if sector i == target then i else rest

-- The header after a `log_write` of sector `target`.
unfoldable pub log_sector : ℕ → LogHeader → LogHeader
unfolding absorb_index
log_sector target lh =
    let i = absorb_index lh.sector target 0 lh.n in
    record { n = if i == lh.n then lh.n + 1 else lh.n; sector = upd lh.sector i target }

-- `thelog.lh.n >= thelog.size - 1`, an `int` comparison: it holds for an empty log too.
abbrev too_big : Log → Bool
too_big l = leb logsize l.lh.n || leb l.size (l.lh.n + 1)

unfoldable pub log_write : ℕ → M Void
unfolding log_sector
log_write i = do
  l ← gets (λ s. s.log)
  b ← get_buf i
  if too_big l
      then panic log_too_big
      else if below_one l.outstanding
      then panic log_outside_trans
      else (do
        modify_log (λ l. record l { lh = log_sector b.sector l.lh })
        set_buf i (record b { dirty = true }))
