-- ===== src/Fs/Dir.antt =====
-- Directories, xv6/fs.c: a file of 64-byte entries, `inum` in two bytes and a name of at most 62,
-- which ends at its first NUL if it has one.
pub mod Lookup
pub mod Insert
pub mod Link
pub mod Entries
pub mod Rounds
use fscq.Base.{
  ℕ, zero, suc, ◌+◌, ◌-◌, ◌/◌, ℤ, pos, minus_one, is_nat, Bool, not, ◌&&◌, ◌==◌, if◌then◌else◌,
  Option, none, some,
}
use fscq.Memory.{Bytes, zeroes, shift, get16, put16, strncmp_eq, strncpy}
use fscq.Params.{dirsiz, dirent_size, t_dir}
use fscq.Machine.{
  M, ◌>>=◌, ◌>>◌, pure, panic, get_inode, dirlookup_not_dir, dirlookup_read, dirlink_read,
  dirlink_short, Panic,
}
use fscq.Fs.Inode.{iget}
use fscq.Fs.Content.{readi, writei, iput}

-- `namecmp(s, t) == 0`
unfoldable pub namecmp_eq : Bytes → Bytes → Bool
unfolding strncmp_eq
namecmp_eq s t = strncmp_eq s t 0 dirsiz

-- struct dirent in its bytes: `de.inum`, and `de.name`.
abbrev pub de_inum : Bytes → ℕ
de_inum de = get16 de 0

abbrev pub de_name : Bytes → Bytes
de_name de = shift 2 de

-- The rounds of a loop over the entries from offset `off` of a directory of `size` bytes.
abbrev pub entries : ℕ → ℕ → ℕ
entries size off = (size - off + (dirent_size - 1)) / dirent_size

-- The entry at `off`: a short read is the panic `p`.
unfoldable pub read_entry : Panic → ℕ → Bytes → ℕ → M Bytes
read_entry p dp de off = do
  (r, de) ← readi dp de off dirent_size
  if is_nat dirent_size r then pure de else panic p

-- The loop of `dirlookup`; the result is the entry's inode number and offset.
unfoldable pub dirlookup_loop : ℕ → Bytes → Bytes → ℕ → ℕ → M (Option (ℕ × ℕ))
unfolding read_entry namecmp_eq
dirlookup_loop dp name de off zero = pure none
dirlookup_loop dp name de off (suc k) = do
  de ← read_entry dirlookup_read dp de off
  let rest = dirlookup_loop dp name de (off + dirent_size) k
  if not (de_inum de == 0) && namecmp_eq name (de_name de)
      then pure (some (de_inum de, off))
      else rest

-- `dirlookup(dp, name, poff)`: the inode, and `*poff`.
unfoldable pub dirlookup : ℕ → Bytes → M (Option (ℕ × ℕ))
unfolding dirlookup_loop
dirlookup dp name = do
  d ← get_inode dp
  if not (d.type == t_dir) then panic dirlookup_not_dir else (do
    found ← dirlookup_loop dp name zeroes 0 (entries d.size 0)
    elim found [
      | none ↦ pure none
      | some (inum, off) ↦ iget d.dev inum >>= λ ip. pure (some (ip, off))
    ])

-- The second loop of `dirlink`: the offset of an empty entry, or the end.
unfoldable pub empty_entry : ℕ → Bytes → ℕ → ℕ → M (ℕ × Bytes)
unfolding read_entry
empty_entry dp de off zero = pure (off, de)
empty_entry dp de off (suc k) = do
  de ← read_entry dirlink_read dp de off
  let rest = empty_entry dp de (off + dirent_size) k
  if de_inum de == 0 then pure (off, de) else rest

unfoldable pub dirlink : ℕ → Bytes → ℕ → M ℤ
unfolding dirlookup empty_entry
dirlink dp name inum = do
  found ← dirlookup dp name
  elim found [
    | some (ip, _) ↦ iput ip >> pure minus_one
    | none ↦ do
      d ← get_inode dp
      (off, de) ← empty_entry dp zeroes 0 (entries d.size 0)
      r ← writei dp (put16 (strncpy de 2 name 0 dirsiz) 0 inum) off dirent_size
      if is_nat dirent_size r then pure (pos 0) else panic dirlink_short
  ]
