-- ===== src/Fs/Dir/Lookup.antt =====
-- `dirlookup` of xv6/fs.c against the entries of the directory.
use fscq.Base.{
  ℕ, zero, suc, ◌+◌, ◌*◌, ◌/◌, ◌≤◌, ◌<◌, ◌≡◌, refl, sym, ap, ◌∙◌, subst, true, arith, ◌==◌, Bool,
  Bool-cases, inl, inr, ◌⊎◌, if◌then◌else◌, Option, none, some,
}
use fscq.Memory.{Bytes, zeroes}
use fscq.Params.{dirent_size, rootdev, t_dir}
use fscq.Machine.{Sys, Inode, M, pure, dirlookup_read, ◌>>=◌}
use fscq.Machine.Post.{Post, bind-Post, weaken-Post, ok-Post}
use fscq.Log.Copy.{IsQuiet}
use fscq.Log.Update.Tables.{retabled-IsQuiet}
use fscq.Bio.View.{view}
use fscq.Log.Update.Read.{Keeps, Keeps-refl}
use fscq.Fs.Inode.{iget}
use fscq.Fs.Inode.Table.{IsTable, IsFull, Gets, iget-Gets}
use fscq.Fs.Dir.{de_inum, entries, read_entry, dirlookup_loop, dirlookup}
use fscq.Fs.Dir.Entries.{IsDir, entry, names, find_entry, same_inum, same_names, read_entry-Post}

module _ (s : Sys) (dp : ℕ) (f : IsDir s (s.inode dp)) (name : Bytes) where
  abbrev ip : Inode
  ip = s.inode dp

  abbrev Found : ℕ → ℕ → Option (ℕ × ℕ) → Sys → Type 0
  Found off k o t = (o ≡ find_entry s ip name off k) × Keeps s t

  -- What a round does with the entry that it has read.
  abbrev chosen : ℕ → ℕ → Bytes → Bool → M (Option (ℕ × ℕ))
  chosen off k de hit =
      if hit then pure (some (de_inum de, off)) else dirlookup_loop dp name de (off + dirent_size) k

  round-Post :
      (off k : ℕ) (de : Bytes) (u : Sys)
      → ((j : ℕ) → j < dirent_size → de j ≡ entry s ip off j)
      → Keeps s u
      → Post
          (Found (off + dirent_size) k)
          (Keeps s)
          (dirlookup_loop dp name de (off + dirent_size) k u)
      → Post (Found off (suc k)) (Keeps s) (chosen off k de (names name de) u)
  unfolding find_entry
  round-Post off k de u bytes l rest =
      let inum : de_inum de ≡ de_inum (entry s ip off) = same_inum de (entry s ip off) bytes in
      let same : names name de ≡ names name (entry s ip off) =
        same_names de (entry s ip off) bytes name in
      elim (Bool-cases (names name (entry s ip off))) [
        | inl hit ↦
            subst (λ b. Post (Found off (suc k)) (Keeps s) (chosen off k de b u)) (sym (same ∙ hit))
              (ok-Post refl (rw hit (ap (λ n. some (n, off)) inum), l))
        | inr miss ↦
            subst (λ b. Post (Found off (suc k)) (Keeps s) (chosen off k de b u))
              (sym (same ∙ miss))
              (weaken-Post (dirlookup_loop dp name de (off + dirent_size) k u) rest
                (λ o t h. (h.0 ∙ rw miss refl, h.1)) (λ t h. h))
      ]

  dirlookup_loop-Post :
      (k : ℕ) (de : Bytes) (off : ℕ) (t : Sys)
      → off + k * dirent_size ≤ ip.size
      → Keeps s t
      → Post (Found off k) (Keeps s) (dirlookup_loop dp name de off k t)
  unfolding dirlookup_loop find_entry
  dirlookup_loop-Post zero de off t within l = ok-Post refl (refl, l)
  dirlookup_loop-Post (suc k) de off t within l =
      bind-Post (read_entry dirlookup_read dp de off) (λ d. chosen off k d (names name d)) t
        (read_entry-Post s t dp f l dirlookup_read de off (omega arith))
        λ d u h.
          round-Post off k d u h.0 h.1
            (dirlookup_loop-Post k d (off + dirent_size) u (omega arith) h.1)

  -- The entry of the directory for the name.
  abbrev lookup : Option (ℕ × ℕ)
  lookup = find_entry s ip name 0 (ip.size / dirent_size)

  -- Every block reads as before, and nothing has gone to the disk, nor to the log.
  pub record IsUnmoved (t : Sys) : Type 0 where
    pub same_view : (z : ℕ) → view t rootdev z ≡ view s rootdev z
    pub same_disk : t.disk ≡ s.disk
    pub same_trace : t.trace ≡ s.trace
    pub same_log : t.log ≡ s.log
    pub quiet : IsQuiet t

  -- What `dirlookup` returns: nothing, if no entry is for the name, and else the offset of the
  -- first that is, and what `iget` returns for its inode.
  abbrev pub LooksUp : Option (ℕ × ℕ) → Sys → Type 0
  LooksUp r t =
      ((lookup ≡ none) × (r ≡ none) × Keeps s t)
      ⊎ ((inum : ℕ) × (off : ℕ) × (i : ℕ) × (u : Sys) × (lookup ≡ some (inum, off))
          × (r ≡ some (i, off))
          × Keeps s u
          × Gets u rootdev inum i t
          × IsUnmoved t)

  -- What `dirlookup` does with what its loop has found.
  abbrev after_loop : Option (ℕ × ℕ) → M (Option (ℕ × ℕ))
  after_loop found = elim found [
    | none ↦ pure none
    | some (inum, off) ↦ iget ip.dev inum >>= λ i. pure (some (i, off))
  ]

  module _ (q : IsQuiet s) (table : IsTable s.inode)
      (room : (inum : ℕ) → ¬ IsFull s.inode rootdev inum) where
    Gets-IsUnmoved : (inum i : ℕ) (u v : Sys) → Keeps s u → Gets u rootdev inum i v → IsUnmoved v
    unfolding view
    Gets-IsUnmoved inum i u v l got = subst IsUnmoved (sym got.only_table) (record {
      same_view = l.same_view;
      same_disk = l.same_disk;
      same_trace = l.same_trace;
      same_log = l.same_log;
      quiet = retabled-IsQuiet u u.log.outstanding u.log.committing v.inode u.file l.quiet;
    })

    -- The inode of the entry, in the table.
    get-LooksUp :
        (inum off : ℕ) (u : Sys)
        → lookup ≡ some (inum, off)
        → Keeps s u
        → Post LooksUp (Keeps s) ((iget rootdev inum >>= λ i. pure (some (i, off))) u)
    get-LooksUp inum off u e l =
        elim (iget-Gets u rootdev inum (subst IsTable (sym l.same_inode) table)) [
          | inl (i, v, run, got) ↦ rw run (
              ok-Post refl
                (inr (inum, off, i, u, e, refl, l, got, Gets-IsUnmoved inum i u v l got)))
          | inr (_, full) ↦
              absurd (room inum (subst (λ g. IsFull g rootdev inum) l.same_inode full))
        ]

    after_loop-LooksUp :
        (found : Option (ℕ × ℕ)) (u : Sys)
        → found ≡ lookup
        → Keeps s u
        → Post LooksUp (Keeps s) (after_loop found u)
    after_loop-LooksUp none u e l = ok-Post refl (inl (sym e, refl, l))
    after_loop-LooksUp (some (inum, off)) u e l =
        subst (λ d. Post LooksUp (Keeps s) ((iget d inum >>= λ i. pure (some (i, off))) u))
          (sym f.file.on_device) (get-LooksUp inum off u (sym e) l)

    -- From a state with a coherent cache and no buffer in use, with a directory of the root
    -- device that is a file of whole entries with all its blocks, and a free entry in a table
    -- with at most one entry for an inode: `dirlookup` returns null if no entry of the
    -- directory that is in use has the name, and else the offset of the first that has it and
    -- what `iget` gives for its inode; or it stops for want of a free buffer. In every case
    -- each block reads as before, and nothing has gone to the disk; when it returns, the log
    -- is the same and no buffer is in use.
    pub dirlookup-LooksUp : Post LooksUp (Keeps s) (dirlookup dp name s)
    unfolding dirlookup
    dirlookup-LooksUp =
        let is_dir : (ip.type == t_dir) ≡ true = ground (arith, f.is_dir) in
        let rounds : entries ip.size 0 ≡ ip.size / dirent_size = omega (arith, f.whole) in
        rw (is_dir, rounds)
          (bind-Post (dirlookup_loop dp name zeroes 0 (ip.size / dirent_size)) after_loop s
            (dirlookup_loop-Post (ip.size / dirent_size) zeroes 0 s (omega arith)
              (Keeps-refl s s q refl))
            λ found u h. after_loop-LooksUp found u h.0 h.1)
