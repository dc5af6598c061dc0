-- ===== src/Examples/LogInputs.antt =====
-- The theorems on the log at concrete inputs.
use fscq.Base.{ℕ, ◌+◌, ◌*◌, ◌<◌, ◌≤◌, ◌≡◌, refl, ◌⊎◌, true, false, arith, pos, negsuc}
use fscq.Memory.{zeroes, get_words}
use fscq.Params.{logsize, maxopblocks}
use fscq.Machine.{Sys, LogHeader, ok, spins, panicked, log_outside_trans}
use fscq.Machine.Outcomes.{Ends}
use fscq.Log.{begin_op, log_write, log_sector, header_count, put_header}
use fscq.Log.Header.{IsHeader, Enters, read-put_header, log_sector-Enters, log_sector-IsHeader}
use fscq.Log.Transaction.{begin_op_lem}
use fscq.Sysfile.Rename.{log_write-after_extra_end}
use fscq.Examples.State.{booted}

-- Blocks 70 and 71 are logged.
abbrev header : LogHeader
header = record { n = 2; sector = λ i. 70 + i }

header-IsHeader : IsHeader header
header-IsHeader = record {
  fits = omega arith;
  distinct = λ i j hi hj e. omega arith;
  in_range = λ i h. omega arith;
}

read-put_header_example :
    (header_count (put_header header zeroes) ≡ header.n)
    × ((i : ℕ)
        → i < header.n
        → get_words (put_header header zeroes) 4 header.n zeroes i ≡ header.sector i)
read-put_header_example = read-put_header header zeroes zeroes header-IsHeader

log_sector-IsHeader_example : IsHeader (log_sector 90 header)
log_sector-IsHeader_example =
    log_sector-IsHeader 90 header header-IsHeader (omega arith) (omega arith)

log_sector-Enters_example : Enters 71 header (log_sector 71 header)
log_sector-Enters_example = log_sector-Enters 71 header

-- A log with `k` operations under way and these blocks logged.
abbrev logging : ℕ → Sys
logging k = record (booted (λ _. zeroes)) {
  log = record {
    start = 9970;
    size = 30;
    outstanding = pos k;
    committing = false;
    dev = 1;
    lh = header;
  };
}

begin_op_lem_example :
    ((begin_op (logging 1)
        ≡ ok tt (record (logging 1) { log = record ((logging 1).log) { outstanding = pos 2 } }))
      × (false ≡ false)
      × (2 + 2 * maxopblocks ≤ logsize))
    ⊎ ((begin_op (logging 1) ≡ spins) × ((false ≡ true) ⊎ (logsize < 2 + 2 * maxopblocks)))
begin_op_lem_example = begin_op_lem (logging 1) 1 refl

-- The log after a transaction that was ended twice.
abbrev ended_twice : Sys
ended_twice = record (logging 0) {
  log = record ((logging 0).log) { outstanding = negsuc 0; lh = record { n = 0; sector = zeroes } };
}

log_write-after_extra_end_example :
    Ends (λ _ t. log_write 3 t ≡ panicked log_outside_trans t) (begin_op ended_twice)
log_write-after_extra_end_example =
    log_write-after_extra_end ended_twice 3 refl refl refl (omega arith)
