-- ===== src/Sysfile/Rename.antt =====
-- The transactions of `sys_rename` and `sys_dolink` of xv6/sysfile.c, for a name that is not there.
use fscq.Base.{ℕ, ◌<◌, ◌≡◌, refl, false, arith, pos, negsuc, minus_one, none}
use fscq.Machine.{Sys, Log, ok, panicked, log_outside_trans}
use fscq.Machine.Outcomes.{Ends, Ends-ok}
use fscq.Log.{begin_op, end_op, log_write}
use fscq.Log.Transaction.{end_op-empty}
use fscq.Fs.Path.{FilePath, namei}
use fscq.Sysfile.Links.{sys_rename, sys_dounlink, sys_dolink, enoent}

-- No operation is under way, and nothing is logged.
pub record IsIdle (l : Log) : Type 0 where
  pub none_under_way : l.outstanding ≡ pos 0
  pub not_committing : l.committing ≡ false
  pub empty : l.lh.n ≡ 0

-- The state in which `begin_op` leaves an idle log.
abbrev begun : Sys → Sys
begun s = record s { log = record (s.log) { outstanding = pos 1 } }

begin_op-begun : (s : Sys) → IsIdle s.log → begin_op s ≡ ok tt (begun s)
unfolding begin_op
begin_op-begun s idle = ground arith

-- The new name is not there, and then the old one is not either; neither lookup logs anything.
abbrev pub NeitherThere : FilePath → FilePath → Sys → Type 0
NeitherThere path1 path2 s =
    Ends
      (λ r t.
        (r ≡ enoent)
        × Ends
            (λ ip u.
              (ip ≡ none)
              × (u.log.outstanding ≡ pos 1)
              × (u.log.committing ≡ false)
              × (u.log.lh.n ≡ 0))
            (namei path1 t))
      (sys_dounlink path2 (begun s))

end_op-zero :
    (s : Sys)
    → s.log.outstanding ≡ pos 0
    → s.log.committing ≡ false
    → end_op s ≡ ok tt (record s { log = record (s.log) { outstanding = negsuc 0 } })
unfolding end_op
end_op-zero s e idle = ground arith

-- From an idle log, where neither name is there and the lookups log nothing, `sys_rename` returns
-- -1 and leaves the count of the operations under way at -1: `sys_dolink` has ended the
-- transaction that `sys_rename` ends again.
pub sys_rename-missing :
    (path1 path2 : FilePath) (s : Sys)
    → IsIdle s.log
    → NeitherThere path1 path2 s
    → Ends
        (λ r t.
          (r ≡ minus_one)
          × (t.log.outstanding ≡ negsuc 0)
          × (t.log.committing ≡ false)
          × (t.log.lh.n ≡ 0))
        (sys_rename path1 path2 s)
unfolding sys_rename sys_dolink
sys_rename-missing path1 path2 s idle h =
    let (r, t, e1, (er, h2)) = Ends-ok _ (sys_dounlink path2 (begun s)) h in
    let (ip, u, e2, (ei, e3, e4, e5)) = Ends-ok _ (namei path1 t) h2 in
    rw (begin_op-begun s idle, e1, er, e2, ei, end_op-empty u e3 e4 e5, end_op-zero)
      (refl, refl, refl, e5)

-- From a count of -1, an empty log of two blocks at least and no commit going on, the next
-- `begin_op` returns, and a `log_write` after it panics: it is outside of a transaction.
pub log_write-after_extra_end :
    (s : Sys) (i : ℕ)
    → s.log.outstanding ≡ negsuc 0
    → s.log.committing ≡ false
    → s.log.lh.n ≡ 0
    → 1 < s.log.size
    → Ends (λ _ t. log_write i t ≡ panicked log_outside_trans t) (begin_op s)
unfolding begin_op log_write
log_write-after_extra_end s i e idle empty size = ground arith
