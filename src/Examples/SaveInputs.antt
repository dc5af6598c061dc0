-- ===== src/Examples/SaveInputs.antt =====
-- The theorems on `filewrite` and `fileread` at a concrete file.
use fscq.Base.{◌+◌, refl, true, false, arith, pos}
use fscq.Memory.{Bytes, zeroes}
use fscq.Machine.{Sys, Inode, fd_inode}
use fscq.Machine.Post.{Post}
use fscq.Log.Update.Tables.{retabled, retabled-CanCommit}
use fscq.Log.Commit.Again.{IsIdle, IsInPlace-IsIdle}
use fscq.File.{filewrite, fileread}
use fscq.File.Read.{IsReadable, Fetches, fileread-Fetches}
use fscq.Fs.Content.Readi.{ReadsBytes}
use fscq.Log.Update.Read.{Untouched}
use fscq.File.Save.{IsOpen, Saved, NotSaved}
use fscq.File.Write.{filewrite-Saved}
use fscq.Examples.Everything.{everything}
use fscq.Examples.CrashInputs.{image, mounted, mounted-IsMounted}
use fscq.Examples.ContentInputs.{small_file, one_block-IsOwn}

-- A mounted image, with a file that is open for writing at byte 20 of its 100.
abbrev loaded_file : Inode
loaded_file = record small_file { valid = true }

abbrev opened : Sys
opened =
    retabled (mounted image) (pos 0) false (λ _. loaded_file)
      (λ _. record { type = fd_inode; ref = 1; readable = true; writable = true; ip = 3; off = 20 })

mounted-IsIdle : IsIdle (mounted image)
unfolding everything
mounted-IsIdle =
    IsInPlace-IsIdle (mounted image) image (mounted-IsMounted image).quiet refl refl (omega arith)
      (record { none_logged = refl; in_place = λ x lt. refl })
      (λ x lt. (mounted-IsMounted image).fresh x)

opened-IsOpen : IsOpen opened 0
opened-IsOpen = record {
  idle = record {
    can =
        retabled-CanCommit (mounted image) (pos 0) false opened.inode opened.file
          mounted-IsIdle.can;
    none_logged = refl;
  };
  outstanding = refl;
  committing = refl;
  space = omega arith;
  inside = omega arith;
  counted = refl;
  loaded = refl;
  unlocked = refl;
  no_device = omega arith;
  own =
      one_block-IsOwn opened refl refl loaded_file 21 refl (omega arith) (λ bn. refl) (omega arith)
        (omega arith);
}

-- The bytes that the example writes.
abbrev thirty : Bytes
thirty j = 60 + j

filewrite-Saved_example :
    Post (Saved opened 0 thirty 30) (NotSaved opened 0 thirty 30) (filewrite 0 thirty 30 opened)
filewrite-Saved_example =
    filewrite-Saved opened 0 opened-IsOpen thirty 30 (omega arith) (omega arith) (omega arith) refl
      refl

opened-IsReadable : IsReadable opened 0
opened-IsReadable = record {
  quiet = opened-IsOpen.idle.can.quiet;
  readable = refl;
  on_inode = refl;
  offset = omega arith;
  counted = refl;
  loaded = refl;
  unlocked = refl;
  file = opened-IsOpen.own.file;
}

-- 90 bytes from byte 20 on, of which the file has 80.
fileread-Fetches_example :
    Post
      (λ r t. ReadsBytes opened loaded_file zeroes 20 90 r × Fetches opened 0 r.0 t)
      (Untouched opened)
      (fileread 0 zeroes 90 opened)
fileread-Fetches_example = fileread-Fetches opened 0 opened-IsReadable zeroes 90 (omega arith)
