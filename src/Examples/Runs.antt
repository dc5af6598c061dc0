-- ===== src/Examples/Runs.antt =====
-- Runs of the whole program: an image made by mkfs, mounted, and used through the calls.
use fscq.Base.{
  ℕ, ◌≡◌, refl, ℤ, pos, negsuc, minus_one, Bool, true, false, Option, none, some, [], ◌∷◌, not,
}
use fscq.Memory.{zeroes, cstring}
use fscq.Machine.{Sys, ok, ◌>>=◌, pure}
use fscq.Fs.Path.{FilePath, namei}
use fscq.Sysfile.Open.{sys_open, sys_mkdir, sys_write, sys_read}
use fscq.Sysfile.Links.{sys_unlink, sys_rename}
use fscq.Fuse
use fscq.Mkfs
use fscq.Machine.Outcomes.{Ends}
use fscq.Sysfile.Rename.{IsIdle, NeitherThere, sys_rename-missing}
use fscq.Examples.State.{booted}
use fscq.Examples.Everything.{everything}

abbrev is_none : {A : Type 0} → Option A → Bool
is_none none = true
is_none (some a) = false

-- The image that mkfs makes of one file, "h", which holds "hi".
abbrev image : Option Mkfs.Image
image = Mkfs.main ((b'h' ∷ [], (cstring (b'h' ∷ b'i' ∷ []), 2) ∷ []) ∷ [])

-- The process after `main` has mounted it.
abbrev mounted : Sys
mounted = elim image [
  | none ↦ booted (λ _. zeroes)
  | some im ↦ elim (Fuse.main (booted im.sect)) [ ok a s ↦ s | _ ↦ booted im.sect ]
]

abbrev path : ℕ → FilePath
path c = b'/' ∷ c ∷ []

-- "hi" is read back.
read_hi :
    Ends {A = ℕ × ℕ}
      (λ r s. r ≡ (104, 105))
      ((do f ← sys_open (path b'h') 0; (r, b) ← sys_read f zeroes 10 0; pure (b 0, b 1)) mounted)
unfolding everything
read_hi = refl

-- A write behind the end of a new file in a new directory, and a read across the hole.
write_behind_end :
    Ends {A = ℤ × ℤ × ℤ × ℕ × ℕ × ℕ}
      (λ r s. r ≡ (pos 0, pos 2, pos 3, 0, b'y', b'o'))
      ((do
        m ← sys_mkdir (path b'd')
        f ← sys_open (b'/' ∷ b'd' ∷ b'/' ∷ b'x' ∷ []) 514
        w ← sys_write f (cstring (b'y' ∷ b'o' ∷ [])) 2 5000
        (r, b) ← sys_read f zeroes 10 4999
        pure (m, w, r, b 0, b 1, b 2))
        mounted)
unfolding everything
write_behind_end = refl

-- An unlinked file is gone, and its blocks are free again: the next file has the same block.
unlink_and_reuse :
    Ends {A = ℤ × Bool × Bool}
      (λ r s. r ≡ (pos 0, true, true))
      ((do
        a ← namei (path b'h')
        u ← sys_unlink (path b'h')
        gone ← namei (path b'h')
        f ← sys_open (path b'k') 514
        pure (u, is_none gone, not (is_none f)))
        mounted)
unfolding everything
unlink_and_reuse = refl

-- A rename moves the entry.
rename_moves :
    Ends {A = ℤ × Bool × Bool}
      (λ r s. r ≡ (pos 0, true, false))
      ((do
        r ← sys_rename (path b'h') (path b'k')
        old ← namei (path b'h')
        new ← namei (path b'k')
        pure (r, is_none old, is_none new))
        mounted)
unfolding everything
rename_moves = refl

mounted-IsIdle : IsIdle mounted.log
unfolding everything
mounted-IsIdle = record { none_under_way = refl; not_committing = refl; empty = refl }

neither_there : NeitherThere (path b'p') (path b'q') mounted
unfolding everything
neither_there = (refl, (refl, refl, refl, refl))

sys_rename-missing_example :
    Ends
      (λ r t.
        (r ≡ minus_one)
        × (t.log.outstanding ≡ negsuc 0)
        × (t.log.committing ≡ false)
        × (t.log.lh.n ≡ 0))
      (sys_rename (path b'p') (path b'q') mounted)
sys_rename-missing_example =
    sys_rename-missing (path b'p') (path b'q') mounted mounted-IsIdle neither_there
