-- ===== src/Fs/Content/Rounds.antt =====
-- The rounds that the loops of `readi`, `zeroi` and `writei` of xv6/fs.c are given.
use fscq.Base.{not, ℕ, zero, suc, ◌+◌, ◌-◌, ◌%◌, ◌<◌, arith, inl, inr, Bool-cases, leb, ◌*◌, ◌==◌}
use fscq.Memory.{Bytes, memmove, shift, get32}
use fscq.Params.{bsize}
use fscq.Machine.{unix_time, upd, Buf, Inode}
use fscq.Machine.Fuel.{
  IsFueled, fueled, bind-IsFueled, gets-IsFueled, pure-IsFueled, modify-IsFueled, when-IsFueled,
}
use fscq.Bio.Rounds.{bread-IsFueled, brelse-IsFueled}
use fscq.Log.Rounds.{log_write-IsFueled}
use fscq.Fs.Block.Rounds.{balloc-IsFueled, bfree-IsFueled}
use fscq.Fs.Inode.Rounds.{iupdate-IsFueled, iunlock-IsFueled}
use fscq.Fs.Content.{
  addr_of, indirect_addr, bmap, bread_at, readi_loop, readi, write_loop, grow, zeroi, writei,
  free_direct, free_indirect, itrunc, iput, iunlockput, chunk,
}

addr_of-IsFueled : (i j : ℕ) → IsFueled (addr_of i j)
unfolding addr_of
addr_of-IsFueled i j = search (fueled, balloc-IsFueled) depth 9

indirect_addr-IsFueled : (dev bp bn : ℕ) → IsFueled (indirect_addr dev bp bn)
unfolding indirect_addr
indirect_addr-IsFueled dev bp bn = search (fueled, balloc-IsFueled, log_write-IsFueled) depth 9

bmap-IsFueled : (i bn : ℕ) → IsFueled (bmap i bn)
unfolding bmap
bmap-IsFueled i bn =
    search (fueled, addr_of-IsFueled, indirect_addr-IsFueled, bread-IsFueled, brelse-IsFueled) depth
      12

bread_at-IsFueled : (i off : ℕ) → IsFueled (bread_at i off)
unfolding bread_at
bread_at-IsFueled i off = search (fueled, bmap-IsFueled, bread-IsFueled)

readi_loop-IsFueled :
    (fuel i : ℕ) (dst : Bytes) (off n tot : ℕ)
    → n - tot < fuel
    → IsFueled (readi_loop fuel i dst off n tot)
unfolding readi_loop
readi_loop-IsFueled zero i dst off n tot h = absurd (omega arith)
readi_loop-IsFueled (suc fuel) i dst off n tot h = elim (Bool-cases (leb n tot)) [
  | inl done ↦ rw done (pure-IsFueled dst)
  | inr more ↦
      let next : n - (tot + chunk n tot off) < fuel = ground (arith, more) in
      rw more (
        bind-IsFueled (bread_at-IsFueled i off) (λ bp.
          bind-IsFueled {A = Buf} (gets-IsFueled (λ s. s.cache.buf bp)) (λ b.
            bind-IsFueled (brelse-IsFueled bp) (λ _.
              readi_loop-IsFueled fuel i
                (memmove dst tot (shift (off % bsize) b.bytes) (chunk n tot off))
                (off + chunk n tot off) n (tot + chunk n tot off) next))))
]

readi_start : (i : ℕ) (dst : Bytes) (off n : ℕ) → IsFueled (readi_loop (n + 1) i dst off n 0)
readi_start i dst off n = readi_loop-IsFueled (n + 1) i dst off n 0 (omega arith)

pub readi-IsFueled : (i : ℕ) (dst : Bytes) (off n : ℕ) → IsFueled (readi i dst off n)
unfolding readi
readi-IsFueled i dst off n = search (fueled, readi_start) depth 9

write_loop-IsFueled :
    (change : ℕ → ℕ → ℕ → Bytes → Bytes) (fuel i off n tot : ℕ)
    → n - tot < fuel
    → IsFueled (write_loop change fuel i off n tot)
unfolding write_loop
write_loop-IsFueled change zero i off n tot h = absurd (omega arith)
write_loop-IsFueled change (suc fuel) i off n tot h = elim (Bool-cases (leb n tot)) [
  | inl done ↦ rw done (pure-IsFueled tt)
  | inr more ↦
      let next : n - (tot + chunk n tot off) < fuel = ground (arith, more) in
      rw more (
        bind-IsFueled (bread_at-IsFueled i off) (λ bp. bind-IsFueled (modify-IsFueled _) (λ _.
          bind-IsFueled (log_write-IsFueled bp) (λ _. bind-IsFueled (brelse-IsFueled bp) (λ _.
            write_loop-IsFueled change fuel i (off + chunk n tot off) n (tot + chunk n tot off)
              next)))))
]

write_start :
    (change : ℕ → ℕ → ℕ → Bytes → Bytes) (i off n : ℕ)
    → IsFueled (write_loop change (n + 1) i off n 0)
write_start change i off n = write_loop-IsFueled change (n + 1) i off n 0 (omega arith)

time-IsFueled : IsFueled unix_time
time-IsFueled = record { run = λ s. tt }

grow-IsFueled : (i off : ℕ) → IsFueled (grow i off)
unfolding grow
grow-IsFueled i off = search (fueled, time-IsFueled, iupdate-IsFueled)

pub zeroi-IsFueled : (i off n : ℕ) → IsFueled (zeroi i off n)
unfolding zeroi
zeroi-IsFueled i off n = search (fueled, write_start, grow-IsFueled)

pub writei-IsFueled : (i : ℕ) (src : Bytes) (off n : ℕ) → IsFueled (writei i src off n)
unfolding writei
writei-IsFueled i src off n = search (fueled, write_start, grow-IsFueled) depth 12

free_direct-IsFueled : (i k j : ℕ) → IsFueled (free_direct i j k)
unfolding free_direct
free_direct-IsFueled i zero j = pure-IsFueled tt
free_direct-IsFueled i (suc k) j = bind-IsFueled {A = Inode} (gets-IsFueled (λ s. s.inode i)) (λ ip.
    bind-IsFueled
      (when-IsFueled (not (ip.addrs j == 0)) (
        bind-IsFueled (bfree-IsFueled ip.dev (ip.addrs j)) (λ _. modify-IsFueled (λ s. record s {
          inode = upd s.inode i (record (s.inode i) { addrs = upd (s.inode i).addrs j 0 });
        }))))
      (λ _. free_direct-IsFueled i k (j + 1)))

free_indirect-IsFueled : (dev bp k j : ℕ) → IsFueled (free_indirect dev bp j k)
unfolding free_indirect
free_indirect-IsFueled dev bp zero j = pure-IsFueled tt
free_indirect-IsFueled dev bp (suc k) j =
    bind-IsFueled {A = Buf} (gets-IsFueled (λ s. s.cache.buf bp)) (λ b.
      bind-IsFueled
        (when-IsFueled (not (get32 b.bytes (4 * j) == 0))
          (bfree-IsFueled dev (get32 b.bytes (4 * j))))
        (λ _. free_indirect-IsFueled dev bp k (j + 1)))

itrunc-IsFueled : (i : ℕ) → IsFueled (itrunc i)
unfolding itrunc
itrunc-IsFueled i =
    search
      (
        fueled, free_direct-IsFueled, free_indirect-IsFueled, bread-IsFueled, brelse-IsFueled,
        bfree-IsFueled, iupdate-IsFueled,
      )
      depth 12

pub iput-IsFueled : (i : ℕ) → IsFueled (iput i)
unfolding iput
iput-IsFueled i = search (fueled, itrunc-IsFueled, iupdate-IsFueled) depth 12

pub iunlockput-IsFueled : (i : ℕ) → IsFueled (iunlockput i)
unfolding iunlockput
iunlockput-IsFueled i = search (fueled, iunlock-IsFueled, iput-IsFueled)
