-- ===== src/Log/Update/Tables.antt =====
-- Changes of the tables of inodes and files, and of the flags of the log: no block is concerned.
use fscq.Base.{ℕ, Bool, ℤ}
use fscq.Machine.{Sys, Inode, File}
use fscq.Bio.View.{view}
use fscq.Log.Copy.{IsQuiet}
use fscq.Log.Commit.{CanCommit}

-- `s` with other tables and flags.
abbrev pub retabled : Sys → ℤ → Bool → (ℕ → Inode) → (ℕ → File) → Sys
retabled s outstanding committing inode file = record s {
  log = record (s.log) { outstanding = outstanding; committing = committing };
  inode = inode;
  file = file;
}

module _ (s : Sys) (outstanding : ℤ) (committing : Bool) (inode : ℕ → Inode) (file : ℕ → File) where
  pub retabled-IsQuiet : IsQuiet s → IsQuiet (retabled s outstanding committing inode file)
  unfolding view
  retabled-IsQuiet q = record {
    coherent = record {
      unique = q.coherent.unique;
      one_device = q.coherent.one_device;
      dirty_valid = q.coherent.dirty_valid;
      clean = q.coherent.clean;
    };
    idle = q.idle;
    addressable = q.addressable;
  }

  pub retabled-CanCommit : CanCommit s → CanCommit (retabled s outstanding committing inode file)
  unfolding view
  retabled-CanCommit can = record {
    quiet = retabled-IsQuiet can.quiet;
    on_device = can.on_device;
    header = can.header;
    home = can.home;
    inside = can.inside;
    committed = can.committed;
    settled = can.settled;
  }
