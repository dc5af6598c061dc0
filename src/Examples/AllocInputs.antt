-- ===== src/Examples/AllocInputs.antt =====
-- The theorem on `balloc` at an image that mkfs makes.
use fscq.Base.{ℕ, ◌<◌, ◌≡◌, ◌%◌, ◌/◌, refl, ltb, false, none, some, pos, arith, []}
use fscq.Memory.{Bytes, zeroes}
use fscq.Params.{rootdev, bpb}
use fscq.Machine.{Sys}
use fscq.Machine.Post.{Post}
use fscq.Bio.View.{view}
use fscq.Log.Update.Read.{Untouched}
use fscq.Log.Update.Room.{HasRoom}
use fscq.Log.Update.Tables.{retabled, retabled-CanCommit}
use fscq.Log.Commit.Again.{IsIdle, IsInPlace-IsIdle}
use fscq.Fs.Block.{balloc}
use fscq.Fs.Block.Free.{bitmap_of}
use fscq.Fs.Block.Alloc.{sb_of, is_used, CanAlloc, Allocates}
use fscq.Fs.Block.Alloc.Search.{balloc-Allocates}
use fscq.Mkfs
use fscq.Mkfs.Bitmap.{in_use-used_bits, used_bits-lt}
use fscq.Examples.Everything.{everything}
use fscq.Examples.CrashInputs.{mounted, mounted-IsMounted}

-- The image of an empty root directory.
abbrev fresh_disk : ℕ → Bytes
fresh_disk = elim (Mkfs.main []) [ none ↦ (λ _. zeroes) | some im ↦ im.sect ]

-- It is mounted, and an operation is under way.
abbrev fresh : Sys
fresh =
    retabled (mounted fresh_disk) (pos 1) false (mounted fresh_disk).inode (mounted fresh_disk).file

fresh-IsIdle : IsIdle (mounted fresh_disk)
unfolding everything
fresh-IsIdle =
    IsInPlace-IsIdle (mounted fresh_disk) fresh_disk (mounted-IsMounted fresh_disk).quiet refl refl
      (omega arith) (record { none_logged = refl; in_place = λ x lt. refl })
      (λ x lt. (mounted-IsMounted fresh_disk).fresh x)

fresh-HasRoom : HasRoom fresh 2
fresh-HasRoom = record {
  can =
      retabled-CanCommit (mounted fresh_disk) (pos 1) false fresh.inode fresh.file fresh-IsIdle.can;
  under_way = 0;
  outstanding = refl;
  room = omega arith;
  space = omega arith;
  inside = omega arith;
}

-- A bitmap in block 65, as `balloc` of mkfs writes it.
module _ (s : Sys) (n : ℕ) (room : HasRoom s 2) (start : s.log.start ≡ 9970)
    (size : (sb_of s).size ≡ 10000) (inodes : (sb_of s).ninodes ≡ 4000)
    (bitmap : view s rootdev 65 ≡ Mkfs.used_bits n) (past : 65 < n) where
  in_65 : (b : ℕ) → b < (sb_of s).size → bitmap_of s b ≡ 65
  in_65 b lt = omega (arith, size, inodes)

  used_below : (b : ℕ) → b < (sb_of s).size → is_used s b ≡ ltb b n
  unfolding is_used
  used_below b lt =
      let place : b % bpb ≡ b = omega (arith, size) in
      rw (in_65 b lt, bitmap, place) (in_use-used_bits n b)

  marked-CanAlloc : CanAlloc s
  marked-CanAlloc = record {
    room = room;
    small = rw start (omega arith);
    bitmap_home = λ b lt. rw (in_65 b lt, start) (omega arith);
    bytes = λ b lt. rw (in_65 b lt, bitmap) (used_bits-lt n (b % bpb / 8));
    free_apart = λ b c lt lt' free e. ground (arith, used_below b lt, in_65 c lt');
  }

-- Its first 67 blocks are in use, and those of the log area, from 9970 on, are not.
fresh-CanAlloc : CanAlloc fresh
unfolding everything view
fresh-CanAlloc = marked-CanAlloc fresh 67 fresh-HasRoom refl refl refl refl (omega arith)

balloc-Allocates_example : Post (λ a t. Allocates fresh a t) (Untouched fresh) (balloc 1 fresh)
unfolding everything view is_used
balloc-Allocates_example =
    balloc-Allocates fresh fresh-CanAlloc 100 (omega arith) refl (omega arith)
