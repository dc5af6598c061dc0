-- ===== src/Examples/CacheInputs.antt =====
-- The theorems on the buffer cache and on the bitmap at concrete inputs.
use fscq.Base.{ℕ, ◌%◌, ◌≡◌, refl, true, false, arith, some, [], ◌∷◌, down_from, ◌==◌, if◌then◌else◌}
use fscq.Memory.{Bytes, zeroes}
use fscq.Params.{nbuf, bpb, bblock}
use fscq.Machine.{Sys, Buf, ok}
use fscq.Bio.{bread, bwrite, brelse, find_cached, find_free}
use fscq.Bio.View.{IsCoherent}
use fscq.Bio.Read.{IsReadable, Reads, bread-Reads}
use fscq.Bio.Write.{Writes, bwrite-Writes}
use fscq.Bio.Release.{Releases, brelse-Releases}
use fscq.Fs.Block.{in_use}
use fscq.Mkfs
use fscq.Mkfs.{Image}
use fscq.Mkfs.Bitmap.{balloc-in_use, balloc-log_free}
use fscq.Examples.State.{booted}
use fscq.Examples.Everything.{everything}

-- The cache after `binit`, over a disk whose block 7 is full of threes.
abbrev disk : ℕ → Bytes
disk sector = if sector == 7 then (λ _. 3) else zeroes

abbrev fresh : Sys
fresh = record (booted disk) {
  cache = record {
    buf = λ _. record {
      busy = false;
      valid = false;
      dirty = false;
      dev = 4294967295;
      sector = 0;
      bytes = zeroes;
    };
    order = down_from nbuf;
  };
}

fresh-IsCoherent : IsCoherent fresh
fresh-IsCoherent = record {
  unique = λ d x i j hd mi mj hi hj. absurd (hd (ground (arith, hi)));
  one_device = λ i h. cc;
  dirty_valid = λ i h. cc;
  clean = λ i m h1 h2 h3. cc;
}

fresh-IsReadable : IsReadable fresh 1 7
unfolding find_cached find_free everything
fresh-IsReadable = record {
  on_device = refl;
  inside = omega arith;
  small = omega arith;
  idle = λ i h. refl;
  some_free = λ h. (0, refl);
}

bread-Reads_example : (i : ℕ) × (t : Sys) × (bread 1 7 fresh ≡ ok i t) × Reads fresh 1 7 i t
bread-Reads_example = bread-Reads fresh 1 7 fresh-IsCoherent fresh-IsReadable

-- A cache of one buffer, which holds block 9, has been changed, and is in use.
abbrev held : Buf
held = record { busy = true; valid = true; dirty = false; dev = 1; sector = 9; bytes = λ i. i }

abbrev one_buffer : Buf → Sys
one_buffer b = record (booted disk) { cache = record { buf = λ _. b; order = 4 ∷ [] } }

one_buffer-IsCoherent : IsCoherent (one_buffer held)
one_buffer-IsCoherent = record {
  unique = λ d x i j hd mi mj hi hj. ground (arith, mi, mj);
  one_device = λ i h. refl;
  dirty_valid = λ i h. refl;
  clean = λ i m h1 h2 h3. cc;
}

bwrite-Writes_example :
    (t : Sys) × (bwrite 4 (one_buffer held) ≡ ok tt t) × Writes (one_buffer held) 4 t
bwrite-Writes_example =
    bwrite-Writes (one_buffer held) 4 one_buffer-IsCoherent refl refl refl (omega arith)

-- The same buffer as the disk has its block.
abbrev settled : Buf
settled = record held { bytes = zeroes }

settled-IsCoherent : IsCoherent (one_buffer settled)
settled-IsCoherent = record {
  unique = λ d x i j hd mi mj hi hj. ground (arith, mi, mj);
  one_device = λ i h. refl;
  dirty_valid = λ i h. refl;
  clean = λ i m h1 h2 h3. cc;
}

brelse-Releases_example :
    (t : Sys) × (brelse 4 (one_buffer settled) ≡ ok tt t) × Releases (one_buffer settled) 4 t
brelse-Releases_example =
    brelse-Releases (one_buffer settled) 4 settled-IsCoherent refl refl (λ h. refl)

balloc-in_use_example :
    (im : Image) × (Mkfs.balloc 68 Mkfs.blank ≡ some im)
    × (in_use (Mkfs.rsect (bblock 20000 4000) im) (20000 % bpb) ≡ false)
balloc-in_use_example = balloc-in_use Mkfs.blank 68 20000 (omega arith) (omega arith)

balloc-log_free_example :
    (im : Image) × (Mkfs.balloc 68 Mkfs.blank ≡ some im)
    × (in_use (Mkfs.rsect (bblock 9990 4000) im) (9990 % bpb) ≡ false)
balloc-log_free_example =
    balloc-log_free Mkfs.blank 68 9990 (omega arith) (omega arith) (omega arith)
