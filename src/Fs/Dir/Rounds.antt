-- ===== src/Fs/Dir/Rounds.antt =====
-- The loops over directories of xv6/fs.c have one round for each entry.
use fscq.Base.{ℕ, pos, minus_one, is_nat, not, ◌&&◌, ◌==◌, zero, suc, ◌+◌, none, some}
use fscq.Memory.{Bytes, zeroes, put16, strncpy}
use fscq.Params.{t_dir, dirsiz, dirent_size}
use fscq.Machine.{Inode, Panic, dirlookup_read, dirlink_read, dirlookup_not_dir, dirlink_short}
use fscq.Machine.Fuel.{
  IsFueled, fueled, pure-IsFueled, bind-IsFueled, gets-IsFueled, panic-IsFueled, Option-IsFueled,
  if-IsFueled,
}
use fscq.Fs.Inode.Rounds.{iget-IsFueled}
use fscq.Fs.Content.Rounds.{readi-IsFueled, writei-IsFueled, iput-IsFueled}
use fscq.Fs.Dir.{
  entries, de_inum, de_name, namecmp_eq, read_entry, dirlookup_loop, dirlookup, empty_entry,
  dirlink,
}

read_entry-IsFueled :
    (p : Panic) (dp : ℕ) (de : Bytes) (off : ℕ) → IsFueled (read_entry p dp de off)
unfolding read_entry
read_entry-IsFueled p dp de off = search (fueled, readi-IsFueled)

dirlookup_loop-IsFueled :
    (dp : ℕ) (name : Bytes) (k : ℕ) (de : Bytes) (off : ℕ)
    → IsFueled (dirlookup_loop dp name de off k)
unfolding dirlookup_loop
dirlookup_loop-IsFueled dp name zero de off = pure-IsFueled none
dirlookup_loop-IsFueled dp name (suc k) de off =
    bind-IsFueled (read_entry-IsFueled dirlookup_read dp de off) (λ e.
      if-IsFueled (not (de_inum e == 0) && namecmp_eq name (de_name e))
        (pure-IsFueled (some (de_inum e, off)))
        (dirlookup_loop-IsFueled dp name k e (off + dirent_size)))

pub dirlookup-IsFueled : (dp : ℕ) (name : Bytes) → IsFueled (dirlookup dp name)
unfolding dirlookup
dirlookup-IsFueled dp name = bind-IsFueled {A = Inode} (gets-IsFueled (λ s. s.inode dp)) (λ d.
    if-IsFueled (not (d.type == t_dir)) (panic-IsFueled dirlookup_not_dir) (
      bind-IsFueled (dirlookup_loop-IsFueled dp name (entries d.size 0) zeroes 0) (λ found.
        Option-IsFueled found (pure-IsFueled none)
          (λ p. bind-IsFueled (iget-IsFueled d.dev p.0) (λ ip. pure-IsFueled (some (ip, p.1)))))))

empty_entry-IsFueled : (dp k : ℕ) (de : Bytes) (off : ℕ) → IsFueled (empty_entry dp de off k)
unfolding empty_entry
empty_entry-IsFueled dp zero de off = pure-IsFueled (off, de)
empty_entry-IsFueled dp (suc k) de off =
    bind-IsFueled (read_entry-IsFueled dirlink_read dp de off) (λ e.
      if-IsFueled (de_inum e == 0) (pure-IsFueled (off, e))
        (empty_entry-IsFueled dp k e (off + dirent_size)))

dirlink-IsFueled : (dp : ℕ) (name : Bytes) (inum : ℕ) → IsFueled (dirlink dp name inum)
unfolding dirlink
dirlink-IsFueled dp name inum = bind-IsFueled (dirlookup-IsFueled dp name) (λ found.
    Option-IsFueled found
      (bind-IsFueled {A = Inode} (gets-IsFueled (λ s. s.inode dp)) (λ d.
        bind-IsFueled (empty_entry-IsFueled dp (entries d.size 0) zeroes 0) (λ e.
          bind-IsFueled
            (writei-IsFueled dp (put16 (strncpy e.1 2 name 0 dirsiz) 0 inum) e.0 dirent_size)
            (λ r.
              if-IsFueled (is_nat dirent_size r) (pure-IsFueled (pos 0))
                (panic-IsFueled dirlink_short)))))
      (λ p. bind-IsFueled (iput-IsFueled p.0) (λ _. pure-IsFueled minus_one)))
