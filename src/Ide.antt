-- ===== src/Ide.antt =====
-- xv6/ide.c over `unix_read`, `unix_write` and `unix_flush` of xv6/fuse.c. A sector is a block of
-- 4096 bytes of the image file. `pread` beyond its end is short, and the process exits; `pwrite`
-- there extends it. Other I/O errors of the host do not occur in the model.
use fscq.Base.{ℕ, ◌+◌, true, false, ◌&&◌, not, leb, if◌then◌else◌, ◌∷◌}
use fscq.Memory.{Bytes}
use fscq.Machine.{
  Buf, DiskOp, ok, exited, undefined, M, Void, ◌>>=◌, ◌>>◌, panic, upd, get_buf, set_buf,
  iderw_not_busy, iderw_nothing_to_do,
}

-- `sector*BSIZE` is computed in `int`: from this sector on it overflows.
abbrev pub max_sector : ℕ
max_sector = 524288

unfoldable pub unix_read : ℕ → M Bytes
unix_read sector s =
    if leb max_sector sector
    then undefined
    else if leb s.image_blocks sector
    then exited s
    else ok (s.disk sector) (record s { stats = record (s.stats) { nread = s.stats.nread + 1 } })

unfoldable pub unix_write : ℕ → Bytes → M Void
unix_write sector b s =
    if leb max_sector sector
    then undefined
    else ok tt (record s {
      disk = upd s.disk sector b;
      image_blocks = if leb s.image_blocks sector then sector + 1 else s.image_blocks;
      trace = DiskOp.write sector b ∷ s.trace;
      stats = record (s.stats) { nwrite = s.stats.nwrite + 1 };
    })

unfoldable pub unix_flush : M Void
unix_flush s = ok tt (record s {
  trace = DiskOp.flush ∷ s.trace;
  stats = record (s.stats) { nflush = s.stats.nflush + 1 };
})

-- The transfer of `iderw`, after its checks.
unfoldable pub transfer : ℕ → Buf → M Void
unfolding unix_read unix_write
transfer i b =
    if b.dirty
    then (do unix_write b.sector b.bytes; set_buf i (record b { dirty = false }))
    else (do d ← unix_read b.sector; set_buf i (record b { valid = true; bytes = d }))

unfoldable pub iderw : ℕ → M Void
unfolding transfer
iderw i = do
  b ← get_buf i
  if not b.busy
      then panic iderw_not_busy
      else (if b.valid && not b.dirty then panic iderw_nothing_to_do else transfer i b)

unfoldable pub ideflush : M Void
unfolding unix_flush
ideflush = unix_flush
