-- ===== src/Log/Transaction.antt =====
-- The bracket of `begin_op` and `end_op`: the log space that it reserves, and the count of the
-- operations under way.
use fscq.Base.{
  ℕ, suc, ◌+◌, ◌*◌, ◌≤◌, ◌<◌, ◌≡◌, ◌⊎◌, inl, inr, true, false, ◌||◌, arith, Bool-cases, pos,
}
use fscq.Params.{logsize, maxopblocks}
use fscq.Machine.{
  Sys, Log, LogHeader, Run, ok, panicked, spins, and_then, ◌>>=◌, ◌>>◌, log_outside_trans,
  log_too_big, Void,
}
use fscq.Log.{may_exhaust, begin_op, end_op, commit, log_write, log_sector}

-- With `k` operations under way, `begin_op` either returns, with one more and with room in the
-- log for all of them, and changes nothing else; or it waits for ever, and then the log is
-- committing or has no room for one more.
pub begin_op_lem :
    (s : Sys) (k : ℕ)
    → s.log.outstanding ≡ pos k
    → ((begin_op s ≡ ok tt (record s { log = record (s.log) { outstanding = pos (k + 1) } }))
        × (s.log.committing ≡ false)
        × (s.log.lh.n + (k + 1) * maxopblocks ≤ logsize))
      ⊎ ((begin_op s ≡ spins)
          × ((s.log.committing ≡ true) ⊎ (logsize < s.log.lh.n + (k + 1) * maxopblocks)))
unfolding begin_op
begin_op_lem s k e =
    elim (Bool-cases (s.log.committing || may_exhaust s.log.lh.n s.log.outstanding)) [
      | inl waits ↦ inr (
        ground arith,
        elim (Bool-cases s.log.committing) [ inl busy ↦ inl busy | inr idle ↦ inr (ground arith) ],
      )
      | inr goes ↦ inl (ground arith, ground arith, ground arith)
    ]

-- With an operation under way, a header with room and a log area with room for one block more,
-- `log_write` does not fail: it enters the buffer's sector in the header and marks the buffer
-- dirty.
pub log_write-enters :
    (s : Sys) (i k : ℕ)
    → s.log.outstanding ≡ pos (suc k)
    → s.log.lh.n < logsize
    → s.log.lh.n + 1 < s.log.size
    → log_write i s
      ≡ ok tt (record s {
        log = record (s.log) { lh = log_sector (s.cache.buf i).sector s.log.lh };
        cache = record (s.cache) {
          buf = fscq.Machine.upd s.cache.buf i (record (s.cache.buf i) { dirty = true });
        };
      })
unfolding log_write
log_write-enters s i k e room big = ground arith

-- The last `end_op` with nothing logged.
pub end_op-empty :
    (s : Sys)
    → s.log.outstanding ≡ pos 1
    → s.log.committing ≡ false
    → s.log.lh.n ≡ 0
    → end_op s
      ≡ ok tt (record s { log = record (s.log) { outstanding = pos 0; committing = false } })
unfolding end_op commit
end_op-empty s e idle none_logged = ground arith
