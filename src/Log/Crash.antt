-- ===== src/Log/Crash.antt =====
-- What a crash leaves of the disk, and what the recovery of xv6/log.c makes of it. A write of the
-- trace that no flush follows may be lost in a crash, each on its own; a flush is an fsync of
-- the image file. Block contents are as in the trace: a write of one block is not torn.
pub mod Since
pub mod Recovery
use fscq.Base.{ℕ, zero, suc, ◌+◌, ◌*◌, ◌≡◌, ◌⊎◌, ◌==◌, if◌then◌else◌, List, [], ◌∷◌}
use fscq.Memory.{Bytes, get32}
use fscq.Machine.{DiskOp, upd}
use fscq.Log.{header_count}

-- The disk after all operations of a trace, the last first.
unfoldable pub replay : (ℕ → Bytes) → List DiskOp → ℕ → Bytes
replay disk [] = disk
replay disk (DiskOp.write x b ∷ ops) = upd (replay disk ops) x b
replay disk (DiskOp.flush ∷ ops) = replay disk ops

-- `after` may be on the disk when the operations have been asked for: of the writes since the
-- last flush any may be missing.
unfoldable pub Persists : (ℕ → Bytes) → List DiskOp → (ℕ → Bytes) → Type 0
unfolding replay
Persists disk [] after = after ≡ disk
Persists disk (DiskOp.write x b ∷ ops) after =
    Persists disk ops after ⊎ ((d : ℕ → Bytes) × Persists disk ops d × (after ≡ upd d x b))
Persists disk (DiskOp.flush ∷ ops) after = after ≡ replay disk ops

-- `after` may be on the disk at some moment of the run that asked for the operations.
unfoldable pub CrashDisk : (ℕ → Bytes) → List DiskOp → (ℕ → Bytes) → Type 0
unfolding Persists
CrashDisk disk [] after = Persists disk [] after
CrashDisk disk (op ∷ ops) after = Persists disk (op ∷ ops) after ⊎ CrashDisk disk ops after

-- Block `x` as the first `k` entries of the header give it: the logged copy for the last entry
-- that names it, and without one the block itself.
unfoldable pub logged_block : ℕ → (ℕ → Bytes) → ℕ → ℕ → Bytes
logged_block start disk zero x = disk x
logged_block start disk (suc k) x =
    let rest = logged_block start disk k x in
    if get32 (disk start) (4 + 4 * k) == x then disk (start + k + 1) else rest

-- What block `x` is after the recovery from a disk whose log area starts at `start`.
unfoldable pub recovered : ℕ → (ℕ → Bytes) → ℕ → Bytes
unfolding logged_block
recovered start disk x = logged_block start disk (header_count (disk start)) x
