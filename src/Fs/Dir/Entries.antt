-- ===== src/Fs/Dir/Entries.antt =====
-- The entries of a directory of xv6/fs.c, by the bytes of its file.
use fscq.Base.{
  ℕ, zero, suc, ◌+◌, ◌%◌, ◌≤◌, ◌<◌, ◌≡◌, refl, sym, ap, subst, arith, ◌==◌, ◌&&◌, not, Bool,
  if◌then◌else◌, Option, none, some, pos, ℤ,
}
use fscq.Memory.{Bytes, get16}
use fscq.Memory.Strings.{strncmp_eq-same}
use fscq.Params.{dirsiz, dirent_size, t_dir}
use fscq.Machine.{Sys, Inode, Panic}
use fscq.Machine.Post.{Post, bind-Post, weaken-Post, ok-Post}
use fscq.Log.Update.Read.{Keeps, Keeps-trans}
use fscq.Fs.Content.{readi}
use fscq.Fs.Content.Blocks.{IsFile, IsFile-Keeps, byte_at, byte_at-Keeps}
use fscq.Fs.Content.Readi.{ReadsBytes, readi-ReadsBytes}
use fscq.Fs.Dir.{de_inum, de_name, namecmp_eq, read_entry}

-- The entry at offset `off`.
abbrev pub entry : Sys → Inode → ℕ → Bytes
entry s ip off j = byte_at s ip (off + j)

-- It is an entry for the name.
abbrev pub names : Bytes → Bytes → Bool
names name de = not (de_inum de == 0) && namecmp_eq name (de_name de)

-- The inode number and the offset of the first of `k` entries from `off` on that is for the name.
unfoldable pub find_entry : Sys → Inode → Bytes → ℕ → ℕ → Option (ℕ × ℕ)
unfolding byte_at namecmp_eq
find_entry s ip name off zero = none
find_entry s ip name off (suc k) =
    let rest = find_entry s ip name (off + dirent_size) k in
    if names name (entry s ip off) then some (de_inum (entry s ip off), off) else rest

-- A directory is a file of whole entries.
pub record IsDir (s : Sys) (ip : Inode) : Type 0 where
  pub file : IsFile s ip
  pub is_dir : ip.type ≡ t_dir
  pub whole : ip.size % dirent_size ≡ 0

-- The bytes of an entry decide what it is for.
module _ (d e : Bytes) (same : (j : ℕ) → j < dirent_size → d j ≡ e j) where
  pub same_inum : de_inum d ≡ de_inum e
  unfolding get16
  same_inum = ground (arith, same 0 (omega arith), same 1 (omega arith))

  same_name : (name : Bytes) → namecmp_eq name (de_name d) ≡ namecmp_eq name (de_name e)
  unfolding namecmp_eq
  same_name name =
      strncmp_eq-same name (de_name d) (de_name e) 0 dirsiz (λ j le lt. same (2 + j) (omega arith))

  pub same_names : (name : Bytes) → names name d ≡ names name e
  same_names name = rw (same_inum, same_name name) refl

-- The read of an entry of a directory, after reads that have changed nothing.
module _ (s t : Sys) (dp : ℕ) (f : IsDir s (s.inode dp)) (k : Keeps s t) (p : Panic) (de : Bytes)
    (off : ℕ) (within : off + dirent_size ≤ (s.inode dp).size) where
  abbrev IsEntry : Bytes → Sys → Type 0
  IsEntry d u = ((j : ℕ) → j < dirent_size → d j ≡ entry s (s.inode dp) off j) × Keeps s u

  read_entry-result :
      (r : ℤ × Bytes)
      → ReadsBytes t (s.inode dp) de off dirent_size r
      → (r.0 ≡ pos dirent_size) × ((j : ℕ) → j < dirent_size → r.1 j ≡ entry s (s.inode dp) off j)
  read_entry-result r h = (
    ground (arith, h.result, f.is_dir, f.file.short),
    λ j lt.
        ground
          (arith, h.bytes j, f.is_dir, f.file.short, byte_at-Keeps s t k (s.inode dp) (off + j)),
  )

  pub read_entry-Post : Post IsEntry (Keeps s) (read_entry p dp de off t)
  unfolding read_entry
  read_entry-Post =
      let same : t.inode dp ≡ s.inode dp = ap (λ (g : ℕ → Inode). g dp) k.same_inode in
      bind-Post (readi dp de off dirent_size) _ t
        (subst
          (λ (ip : Inode).
            Post (λ r u. ReadsBytes t ip de off dirent_size r × Keeps t u) (Keeps s)
              (readi dp de off dirent_size t))
          same
          (weaken-Post (readi dp de off dirent_size t)
            (readi-ReadsBytes t dp k.quiet
              (subst (IsFile t) (sym same) (IsFile-Keeps s t k (s.inode dp) f.file)) de off
              dirent_size (ground (arith, f.file.short)) (omega arith))
            (λ r u h. h) (λ u l. Keeps-trans k l)))
        λ r u h.
          let (count, bytes) = read_entry-result r h.0 in
          rw count (ok-Post refl (bytes, Keeps-trans k h.1))
