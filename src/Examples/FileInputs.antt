-- ===== src/Examples/FileInputs.antt =====
-- The theorems on inodes and path names at concrete inputs.
use fscq.Machine.Fuel.{IsFueled}
use fscq.Sysfile.Open.{sys_read, sys_write}
use fscq.Sysfile.Rounds.{sys_read-IsFueled, sys_write-IsFueled}
use fscq.Fs.Path.Rounds.{namex-IsFueled}
use fscq.Base.{true, ℕ, ◌+◌, ◌≡◌, ◌⊎◌, arith, pos, [], ◌∷◌, ◌==◌, if◌then◌else◌, some}
use fscq.Memory.{zeroes}
use fscq.Machine.{Sys, Inode, ok, panicked, iget_no_inodes}
use fscq.Fs.Inode.{iget}
use fscq.Fs.Inode.Dinode.{IsInRange}
use fscq.Fs.Inode.Table.{IsTable, Gets, IsFull, iget-Gets}
use fscq.Fs.Path.{FilePath, skipelem, namex}
use fscq.Fs.Path.Elements.{elements, Peels, skipelem-Peels}
use fscq.Examples.State.{booted}

abbrev pub an_inode : Inode
an_inode = record ((booted (λ _. zeroes)).inode 0) {
  type = 2;
  nlink = 1;
  size = 70000;
  mtime = 1000000;
  addrs = λ i. 100 + i;
}

pub an_inode-IsInRange : IsInRange an_inode
an_inode-IsInRange = record {
  type = omega arith;
  major = omega arith;
  minor = omega arith;
  nlink = omega arith;
  size = omega arith;
  ctime = omega arith;
  atime = omega arith;
  mtime = omega arith;
  addrs = λ i h. omega arith;
}

abbrev empty_inode : Inode
empty_inode = (booted (λ _. zeroes)).inode 0

-- Inode 5 is in entry 0, with one reference.
abbrev one_cached : Sys
one_cached = record (booted (λ _. zeroes)) {
  inode =
      λ i. if i == 0 then record empty_inode { dev = 1; inum = 5; ref = pos 1 } else empty_inode;
}

one_cached-IsTable : IsTable one_cached.inode
one_cached-IsTable = record { unique = λ d n i j hi hj ci cj. ground (arith, ci, cj) }

iget-Gets_example :
    ((i : ℕ) × (t : Sys) × (iget 1 6 one_cached ≡ ok i t) × Gets one_cached 1 6 i t)
    ⊎ ((iget 1 6 one_cached ≡ panicked iget_no_inodes one_cached) × IsFull one_cached.inode 1 6)
iget-Gets_example = iget-Gets one_cached 1 6 one_cached-IsTable

-- "//a//b"
abbrev two_elements : FilePath
two_elements = b'/' ∷ b'/' ∷ b'a' ∷ b'/' ∷ b'/' ∷ b'b' ∷ []

skipelem-Peels_example :
    Peels two_elements zeroes (elements two_elements) (skipelem two_elements zeroes)
skipelem-Peels_example = skipelem-Peels two_elements zeroes

sys_read-IsFueled_example : IsFueled (sys_read (some 3) zeroes 5000 4000)
sys_read-IsFueled_example = sys_read-IsFueled (some 3) zeroes 5000 4000

sys_write-IsFueled_example : IsFueled (sys_write (some 3) zeroes 9000 100)
sys_write-IsFueled_example = sys_write-IsFueled (some 3) zeroes 9000 100

namex-IsFueled_example : IsFueled (namex (b'/' ∷ b'a' ∷ b'/' ∷ b'b' ∷ []) true zeroes)
namex-IsFueled_example = namex-IsFueled (b'/' ∷ b'a' ∷ b'/' ∷ b'b' ∷ []) true zeroes
