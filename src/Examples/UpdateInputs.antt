-- ===== src/Examples/UpdateInputs.antt =====
-- The theorems on changes within a transaction, and on its end, at a concrete log.
use fscq.Base.{ℕ, ◌<◌, ◌≡◌, refl, false, pos, arith}
use fscq.Machine.{Sys, Inode}
use fscq.Machine.Post.{Post}
use fscq.Log.{end_op}
use fscq.Log.Crash.Since.{Stopped}
use fscq.Log.Commit.{CanCommit, IsAtomic}
use fscq.Log.Commit.Ends.{Ends, end_op-Ends}
use fscq.Log.Update.{CanLog}
use fscq.Log.Update.Tables.{retabled-CanCommit}
use fscq.Bio.View.{view}
use fscq.Fs.Block.{bzero, bfree}
use fscq.Fs.Block.Zero.{Zeroes, bzero-Zeroes}
use fscq.Fs.Block.Free.{Frees, bfree-Frees}
use fscq.Log.Update.Read.{Keeps}
use fscq.Examples.Everything.{everything}
use fscq.Fs.Inode.{iupdate}
use fscq.Fs.Inode.Update.{Stores, iupdate-Stores}
use fscq.Examples.FileInputs.{an_inode, an_inode-IsInRange}
use fscq.Examples.CrashInputs.{one_logged, one_logged-CanCommit}

-- One operation is under way, and block 7 is logged.
abbrev pub under_way : Sys
under_way = one_logged (pos 1) false

under_way-CanCommit : CanCommit under_way
under_way-CanCommit = one_logged-CanCommit (pos 1) false

under_way-CanLog : (x : ℕ) → x < 9970 → CanLog under_way x
under_way-CanLog x lt = record {
  can = under_way-CanCommit;
  under_way = 0;
  outstanding = refl;
  room = omega arith;
  space = omega arith;
  home = lt;
  inside = omega arith;
}

bzero-Zeroes_example :
    Post (λ _ t. Zeroes under_way 300 t) (λ t. t ≡ under_way) (bzero 1 300 under_way)
bzero-Zeroes_example = bzero-Zeroes under_way 300 (under_way-CanLog 300 (omega arith)) (omega arith)

-- The bitmap block of block 1 is block 7, in which the bits 0 and 1 of each byte are set.
bfree-Frees_example : Post (λ _ t. Frees under_way 1 t) (Keeps under_way) (bfree 1 1 under_way)
unfolding everything view
bfree-Frees_example =
    bfree-Frees under_way 1 (under_way-CanLog 7 (omega arith)) (omega arith) refl (omega arith)

end_op-Ends_example :
    Post (λ _ t. Ends under_way t) (Stopped under_way (IsAtomic under_way)) (end_op under_way)
end_op-Ends_example = end_op-Ends under_way under_way-CanCommit refl refl

-- The same with the inode table `table`.
abbrev pub with_table : (ℕ → Inode) → Sys
with_table table = record under_way { inode = table }

pub with_table-CanCommit : (table : ℕ → Inode) → CanCommit (with_table table)
with_table-CanCommit table =
    retabled-CanCommit under_way (pos 1) false table under_way.file under_way-CanCommit

-- Inode 70 of the root device is in the table.
abbrev updating : Sys
updating = with_table (λ _. record an_inode { dev = 1; inum = 70 })

iupdate-Stores_example :
    Post
      (λ _ t. Stores updating (record an_inode { dev = 1; inum = 70 }) t)
      (λ t. t ≡ updating)
      (iupdate 0 updating)
iupdate-Stores_example =
    iupdate-Stores updating 0
      (record {
        can = with_table-CanCommit updating.inode;
        under_way = 0;
        outstanding = refl;
        room = omega arith;
        space = omega arith;
        home = omega arith;
        inside = omega arith;
      })
      (omega arith) refl
      (record {
        type = an_inode-IsInRange.type;
        major = an_inode-IsInRange.major;
        minor = an_inode-IsInRange.minor;
        nlink = an_inode-IsInRange.nlink;
        size = an_inode-IsInRange.size;
        ctime = an_inode-IsInRange.ctime;
        atime = an_inode-IsInRange.atime;
        mtime = an_inode-IsInRange.mtime;
        addrs = an_inode-IsInRange.addrs;
      })
