-- ===== src/Log/Rounds.antt =====
-- The calls of xv6/log.c have no loop that is given rounds.
use fscq.Base.{ℕ, zero, suc, ◌+◌, arith}
use fscq.Machine.Fuel.{IsFueled, fueled, bind-IsFueled, gets-IsFueled, pure-IsFueled}
use fscq.Machine.{Log}
use fscq.Ide.{ideflush}
use fscq.Bio.Rounds.{bwrite-IsFueled, bread-IsFueled, brelse-IsFueled}
use fscq.Log.{
  copy_block, install_loop, install_trans, write_head, clear_head, write_log_loop, write_log,
  commit, begin_op, end_op, readsb, log_write,
}

pub readsb-IsFueled : (dev : ℕ) → IsFueled (readsb dev)
unfolding readsb
readsb-IsFueled dev = search (fueled, bread-IsFueled, brelse-IsFueled)

pub log_write-IsFueled : (i : ℕ) → IsFueled (log_write i)
unfolding log_write
log_write-IsFueled i = record { run = λ s. ground arith }

ideflush-IsFueled : IsFueled ideflush
unfolding ideflush
ideflush-IsFueled = record { run = λ s. tt }

copy_block-IsFueled : (to from : ℕ) → IsFueled (copy_block to from)
unfolding copy_block
copy_block-IsFueled to from = search (fueled, bwrite-IsFueled)

install_loop-IsFueled : (k tail : ℕ) → IsFueled (install_loop k tail)
unfolding install_loop
install_loop-IsFueled zero tail = pure-IsFueled tt
install_loop-IsFueled (suc k) tail = bind-IsFueled {A = Log} (gets-IsFueled (λ s. s.log)) (λ l.
    bind-IsFueled (bread-IsFueled l.dev (l.start + tail + 1)) (λ lbuf.
      bind-IsFueled (bread-IsFueled l.dev (l.lh.sector tail)) (λ dbuf.
        bind-IsFueled (copy_block-IsFueled dbuf lbuf) (λ _.
          bind-IsFueled (brelse-IsFueled lbuf) (λ _.
            bind-IsFueled (brelse-IsFueled dbuf) (λ _. install_loop-IsFueled k (tail + 1)))))))

write_log_loop-IsFueled : (k tail : ℕ) → IsFueled (write_log_loop k tail)
unfolding write_log_loop
write_log_loop-IsFueled zero tail = pure-IsFueled tt
write_log_loop-IsFueled (suc k) tail = bind-IsFueled {A = Log} (gets-IsFueled (λ s. s.log)) (λ l.
    bind-IsFueled (bread-IsFueled l.dev (l.start + tail + 1)) (λ to.
      bind-IsFueled (bread-IsFueled l.dev (l.lh.sector tail)) (λ from.
        bind-IsFueled (copy_block-IsFueled to from) (λ _.
          bind-IsFueled (brelse-IsFueled from) (λ _.
            bind-IsFueled (brelse-IsFueled to) (λ _. write_log_loop-IsFueled k (tail + 1)))))))

write_head-IsFueled : IsFueled write_head
unfolding write_head
write_head-IsFueled =
    search (fueled, ideflush-IsFueled, bread-IsFueled, bwrite-IsFueled, brelse-IsFueled) depth 9

commit-IsFueled : IsFueled commit
unfolding commit write_log install_trans clear_head
commit-IsFueled =
    search (fueled, write_log_loop-IsFueled, install_loop-IsFueled, write_head-IsFueled) depth 12

pub begin_op-IsFueled : IsFueled begin_op
unfolding begin_op
begin_op-IsFueled = search fueled

pub end_op-IsFueled : IsFueled end_op
unfolding end_op
end_op-IsFueled = search (fueled, commit-IsFueled) depth 12
