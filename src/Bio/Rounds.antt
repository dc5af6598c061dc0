-- ===== src/Bio/Rounds.antt =====
-- The calls of xv6/bio.c and xv6/ide.c have no loop that is given rounds.
use fscq.Base.{ℕ, arith}
use fscq.Machine.Fuel.{IsFueled, fueled}
use fscq.Ide.{unix_read, unix_write, transfer, iderw}
use fscq.Bio.{claim, bget, bread, bwrite, brelse}

iderw-IsFueled : (i : ℕ) → IsFueled (iderw i)
unfolding iderw unix_read unix_write transfer
iderw-IsFueled i = record { run = λ s. ground arith }

bget-IsFueled : (dev sector : ℕ) → IsFueled (bget dev sector)
unfolding bget claim
bget-IsFueled dev sector = record { run = λ s. ground arith }

pub bread-IsFueled : (dev sector : ℕ) → IsFueled (bread dev sector)
unfolding bread
bread-IsFueled dev sector = search (fueled, bget-IsFueled, iderw-IsFueled)

pub brelse-IsFueled : (i : ℕ) → IsFueled (brelse i)
unfolding brelse
brelse-IsFueled i = record { run = λ s. ground arith }

pub bwrite-IsFueled : (i : ℕ) → IsFueled (bwrite i)
unfolding bwrite
bwrite-IsFueled i = search (fueled, iderw-IsFueled)
