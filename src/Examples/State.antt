-- ===== src/Examples/State.antt =====
-- A process that has just started, on a disk of 10000 blocks: its static variables are zero.
use fscq.Base.{ℕ, pos, false, []}
use fscq.Memory.{Bytes, zeroes}
use fscq.Machine.{Sys, fd_none}
use fscq.Fuse.{zero_stats}

abbrev pub booted : (ℕ → Bytes) → Sys
booted disk = record {
  disk = disk;
  image_blocks = 10000;
  trace = [];
  cache = record {
    buf = λ _. record {
      busy = false;
      valid = false;
      dirty = false;
      dev = 0;
      sector = 0;
      bytes = zeroes;
    };
    order = [];
  };
  log = record {
    start = 0;
    size = 0;
    outstanding = pos 0;
    committing = false;
    dev = 0;
    lh = record { n = 0; sector = zeroes };
  };
  inode = λ _. record {
    dev = 0;
    inum = 0;
    ref = pos 0;
    busy = false;
    valid = false;
    type = 0;
    major = 0;
    minor = 0;
    nlink = 0;
    size = 0;
    ctime = 0;
    atime = 0;
    mtime = 0;
    addrs = zeroes;
  };
  file =
      λ _. record { type = fd_none; ref = 0; readable = false; writable = false; ip = 0; off = 0 };
  stats = zero_stats;
  statsbuf = [];
  clock = λ k. k;
  calls = 0;
}
