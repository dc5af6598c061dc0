-- ===== src/Fs/Path.antt =====
-- Path names, xv6/fs.c. A path is its characters before the NUL; `name` is the caller's array of 62
-- bytes, where a shorter name is followed by a NUL.
pub mod Elements
pub mod Rounds
use fscq.Base.{
  ℕ, zero, suc, ◌+◌, Bool, true, false, not, ◌&&◌, ◌||◌, ◌==◌, leb, if◌then◌else◌, Option, none,
  some, List, [], ◌∷◌, length,
}
use fscq.Memory.{Bytes, memmove, set_byte, cstring, zeroes}
use fscq.Params.{dirsiz, rootdev, rootino, t_dir}
use fscq.Machine.{
  Inode, Run, out_of_fuel, M, Void, ◌>>=◌, ◌>>◌, pure, gets, get_inode, undefined_behaviour,
}
use fscq.Fs.Inode.{iget, ilock, iunlock}
use fscq.Fs.Content.{iput, iunlockput}
use fscq.Fs.Dir.{dirlookup}

abbrev pub FilePath : Type 0
FilePath = List ℕ

-- `while(*path == '/') path++;`
unfoldable pub skip_slashes : FilePath → FilePath
skip_slashes [] = []
skip_slashes (c ∷ cs) = elim (c == b'/') [ true ↦ skip_slashes cs | false ↦ c ∷ cs ]

-- The characters up to the next slash or the end, and what follows them.
unfoldable pub element : FilePath → List ℕ
element [] = []
element (c ∷ cs) = elim (c == b'/') [ true ↦ [] | false ↦ c ∷ element cs ]

unfoldable pub after_element : FilePath → FilePath
after_element [] = []
after_element (c ∷ cs) = elim (c == b'/') [ true ↦ c ∷ cs | false ↦ after_element cs ]

-- `memmove` of the element into `name`, with its NUL if there is room.
unfoldable pub copy_name : List ℕ → Bytes → Bytes
copy_name e name =
    if leb dirsiz (length e)
    then memmove name 0 (cstring e) dirsiz
    else set_byte (memmove name 0 (cstring e) (length e)) (length e) 0

-- `skipelem` from where it has skipped the slashes in front.
unfoldable pub take_element : FilePath → Bytes → Option (FilePath × Bytes)
take_element [] name = none
take_element (c ∷ cs) name =
    some (skip_slashes (after_element (c ∷ cs)), copy_name (element (c ∷ cs)) name)

-- `skipelem`: the rest of the path and the array `name`, or `none` for its null result.
unfoldable pub skipelem : FilePath → Bytes → Option (FilePath × Bytes)
unfolding take_element
skipelem path name = take_element (skip_slashes path) name

-- `*path == c`
abbrev pub starts_with : ℕ → FilePath → Bool
starts_with c [] = false
starts_with c (d ∷ ds) = d == c

abbrev pub at_end : FilePath → Bool
at_end [] = true
at_end (c ∷ cs) = false

-- The loop of `namex`. Each round takes a character at least.
unfoldable pub namex_loop : ℕ → Bool → ℕ → FilePath → Bytes → M (Option ℕ × Bytes)
namex_loop zero parent ip path name = λ s. out_of_fuel
namex_loop (suc fuel) parent ip path name = elim (skipelem path name) [
  | none ↦ if parent then (iput ip >> pure (none, name)) else pure (some ip, name)
  | some (rest, name) ↦ do
    ilock ip
    d ← get_inode ip
    if not (d.type == t_dir)
        then (iunlockput ip >> pure (none, name))
        else if parent && at_end rest
        then (iunlock ip >> pure (some ip, name))
        else (do
          next ← dirlookup ip name
          iunlockput ip
          elim next [
            | none ↦ pure (none, name)
            | some (next, _) ↦ namex_loop fuel parent next rest name
          ])
]

-- `curproc` is never set, so a path that is not absolute reads through a null pointer.
unfoldable pub namex : FilePath → Bool → Bytes → M (Option ℕ × Bytes)
namex path parent name =
    if starts_with b'/' path
    then (do ip ← iget rootdev rootino; namex_loop (length path + 1) parent ip path name)
    else undefined_behaviour

unfoldable pub namei : FilePath → M (Option ℕ)
namei path = do (ip, _) ← namex path false zeroes; pure ip

unfoldable pub nameiparent : FilePath → Bytes → M (Option ℕ × Bytes)
nameiparent path name = namex path true name
