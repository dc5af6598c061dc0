-- ===== src/Fs/Dir/Link.antt =====
-- `dirlink` of xv6/fs.c as an insertion in the directory.
use fscq.Base.{
  ℕ, zero, suc, ◌+◌, ◌-◌, ◌*◌, ◌/◌, ◌%◌, ◌≤◌, ◌<◌, ◌≡◌, ◌≢◌, refl, sym, ap, ◌∙◌, subst, arith, ◌==◌,
  Bool, Bool-cases, inl, inr, if◌then◌else◌, Option, none, some, pos, minus_one, ℤ, is_nat,
}
use fscq.Memory.{in_range, Bytes, zeroes}
use fscq.Params.{rootdev, dirent_size, t_dev}
use fscq.Machine.{Sys, Inode, M, pure, panic, get_inode, dirlink_read, dirlink_short, ◌>>=◌, ◌>>◌}
use fscq.Machine.Post.{Post, bind-Post, weaken-Post, ok-Post}
use fscq.Log.Commit.{CanCommit}
use fscq.Log.Update.Read.{Keeps, Untouched, Keeps-Untouched}
use fscq.Log.Update.Room.{HasRoom, HasRoom-Keeps}
use fscq.Fs.Inode.Table.{IsTable, IsFull}
use fscq.Fs.Content.Blocks.{byte_at-Keeps}
use fscq.Fs.Content.{writei, iput}
use fscq.Fs.Content.Writes.{IsOwn, Stays, Stays-trans, Keeps-Stays}
use fscq.Fs.Content.WriteLoop.{Wrote, blocks}
use fscq.Fs.Content.Writei.{writei-Wrote}
use fscq.Fs.Dir.{de_inum, namecmp_eq, entries, read_entry, dirlookup, empty_entry, dirlink}
use fscq.Fs.Dir.Entries.{IsDir, entry, find_entry, same_inum, read_entry-Post}
use fscq.Fs.Dir.Insert.{
  first_empty, first_empty_le, first_empty_lem, new_entry, find_entry-Inserted,
}
use fscq.Fs.Dir.Lookup.{dirlookup-LooksUp}

-- The first entry of the directory that is not in use.
abbrev pub place : Sys → Inode → ℕ
place s ip = first_empty s ip 0 (ip.size / dirent_size)

-- The entry of a directory for a name.
abbrev pub lookup : Sys → Inode → Bytes → Option (ℕ × ℕ)
lookup s ip name = find_entry s ip name 0 (ip.size / dirent_size)

-- The new name, and no other, is found at the place that was empty; all blocks outside of the
-- directory read as before, and nothing has gone to the disk.
pub record Links (s : Sys) (ip : Inode) (name : Bytes) (inum : ℕ) (t : Sys) : Type 0 where
  pub can : CanCommit t
  pub stays : Stays s ip t
  pub lookups :
      (other : Bytes)
      → lookup t ip other
        ≡ (if namecmp_eq other name then some (inum, place s ip) else lookup s ip other)

module _ (s : Sys) (dp : ℕ) (f : IsDir s (s.inode dp)) where
  abbrev ip : Inode
  ip = s.inode dp

  abbrev FoundEmpty : ℕ → ℕ → ℕ × Bytes → Sys → Type 0
  FoundEmpty off k r t = (r.0 ≡ first_empty s ip off k) × Keeps s t

  -- What a round does with the entry that it has read.
  abbrev tried : ℕ → ℕ → Bytes → Bool → M (ℕ × Bytes)
  tried off k de unused = if unused then pure (off, de) else empty_entry dp de (off + dirent_size) k

  tried-FoundEmpty :
      (off k : ℕ) (de : Bytes) (u : Sys)
      → ((j : ℕ) → j < dirent_size → de j ≡ entry s ip off j)
      → Keeps s u
      → Post
          (FoundEmpty (off + dirent_size) k)
          (Keeps s)
          (empty_entry dp de (off + dirent_size) k u)
      → Post (FoundEmpty off (suc k)) (Keeps s) (tried off k de (de_inum de == 0) u)
  unfolding first_empty
  tried-FoundEmpty off k de u bytes l rest =
      let same : (de_inum de == 0) ≡ (de_inum (entry s ip off) == 0) =
        ap (λ n. n == 0) (same_inum de (entry s ip off) bytes) in
      elim (Bool-cases (de_inum (entry s ip off) == 0)) [
        | inl unused ↦
            subst (λ b. Post (FoundEmpty off (suc k)) (Keeps s) (tried off k de b u))
              (sym (same ∙ unused)) (ok-Post refl (rw unused refl, l))
        | inr used ↦
            subst (λ b. Post (FoundEmpty off (suc k)) (Keeps s) (tried off k de b u))
              (sym (same ∙ used))
              (weaken-Post (empty_entry dp de (off + dirent_size) k u) rest
                (λ r t h. (h.0 ∙ rw used refl, h.1)) (λ t h. h))
      ]

  empty_entry-FoundEmpty :
      (k : ℕ) (de : Bytes) (off : ℕ) (t : Sys)
      → off + k * dirent_size ≤ ip.size
      → Keeps s t
      → Post (FoundEmpty off k) (Keeps s) (empty_entry dp de off k t)
  unfolding empty_entry first_empty
  empty_entry-FoundEmpty zero de off t within l = ok-Post refl (refl, l)
  empty_entry-FoundEmpty (suc k) de off t within l =
      bind-Post (read_entry dirlink_read dp de off) (λ d. tried off k d (de_inum d == 0)) t
        (read_entry-Post s t dp f l dirlink_read de off (omega arith))
        λ d u h.
          tried-FoundEmpty off k d u h.0 h.1
            (empty_entry-FoundEmpty k d (off + dirent_size) u (omega arith) h.1)

  module _ (own : IsOwn s ip) (room : HasRoom s 1) (name : Bytes) (inum : ℕ) (positive : inum ≢ 0)
      (short : inum < 65536) (missing : lookup s ip name ≡ none) (e : ℕ)
      (e_inside : e < ip.size / dirent_size)
      (e_unused : de_inum (entry s ip (e * dirent_size)) ≡ 0) where
    at_place :
        (place s ip + dirent_size ≤ ip.size)
        × (place s ip % dirent_size ≡ 0)
        × (de_inum (entry s ip (place s ip)) ≡ 0)
    at_place =
        let start : 0 + e * dirent_size ≡ e * dirent_size = omega arith in
        let le =
          first_empty_le s ip 0 (ip.size / dirent_size) e e_inside
            (ap (λ x. de_inum (entry s ip x)) start ∙ e_unused) in
        let (_, whole, unused) =
          first_empty_lem s ip 0 (ip.size / dirent_size) refl (omega (arith, le, e_inside)) in
        (omega (arith, le, e_inside), whole, unused)

    abbrev Linked : ℤ → Sys → Type 0
    Linked r t = (r ≡ pos 0) × Links s ip name inum t

    Wrote-Links :
        (de : Bytes) (t : Sys)
        → Wrote s ip (place s ip) 0 dirent_size (new_entry de name inum) t
        → Links s ip name inum t
    Wrote-Links de t w =
        let (inside, whole, unused) = at_place in
        record {
          can = w.can;
          stays = w.stays;
          lookups = λ other.
              find_entry-Inserted s t ip (place s ip) de name inum w whole inside unused positive
                short other (ip.size / dirent_size) 0 refl (omega arith) (omega arith)
                (omega (arith, inside, f.whole)) missing;
        }

    -- What `dirlink` does with the place that it has found.
    abbrev write_end : ℕ × Bytes → M ℤ
    write_end r = writei dp (new_entry r.1 name inum) r.0 dirent_size >>= λ n.
        if is_nat dirent_size n then pure (pos 0) else panic dirlink_short

    -- The write of the entry, after reads that have changed nothing.
    module _ (u : Sys) (k : Keeps s u) (de : Bytes) where
      Wrote-Keeps :
          (t : Sys)
          → Wrote u ip (place s ip) 0 dirent_size (new_entry de name inum) t
          → Wrote s ip (place s ip) 0 dirent_size (new_entry de name inum) t
      Wrote-Keeps t w = record {
        can = w.can;
        stays = Stays-trans (Keeps-Stays s u ip own k) w.stays;
        bytes = λ b lt.
            w.bytes b lt
            ∙ ap
                (λ x.
                  if in_range (place s ip) dirent_size b
                  then new_entry de name inum (0 + (b - place s ip))
                  else x)
                (byte_at-Keeps s u k ip b);
      }

      abbrev Result : ℤ → Sys → Type 0
      Result r t =
          (r ≡ pos dirent_size) × Wrote u ip (place s ip) 0 dirent_size (new_entry de name inum) t

      write-Post :
          Post Result (Untouched s) (writei dp (new_entry de name inum) (place s ip) dirent_size u)
      write-Post =
          let (inside, whole, unused) = at_place in
          let same : u.inode dp ≡ ip = ap (λ (g : ℕ → Inode). g dp) k.same_inode in
          let few : blocks (place s ip) dirent_size ≡ 1 = omega (arith, whole) in
          weaken-Post (writei dp (new_entry de name inum) (place s ip) dirent_size u)
            (subst
              (λ (i : Inode).
                Post
                  (λ r t.
                    (r ≡ pos dirent_size)
                    × Wrote u i (place s ip) 0 dirent_size (new_entry de name inum) t)
                  (Untouched u) (writei dp (new_entry de name inum) (place s ip) dirent_size u))
              same
              (writei-Wrote u dp (new_entry de name inum) (place s ip) dirent_size
                (subst (IsOwn u) (sym same) (Keeps-Stays s u ip own k).own)
                (subst (HasRoom u) (sym few) (HasRoom-Keeps s u 1 k room))
                (subst (λ (i : Inode). i.type ≢ t_dev) (sym same) (omega (arith, f.is_dir)))
                (subst (λ (i : Inode). place s ip + dirent_size ≤ i.size) (sym same) inside)))
            (λ r t h. h)
            (λ t h. record {
              same_disk = h.same_disk ∙ k.same_disk;
              same_trace = h.same_trace ∙ k.same_trace;
            })

      write_end-Linked :
          (at : ℕ) → at ≡ place s ip → Post Linked (Untouched s) (write_end (at, de) u)
      write_end-Linked at here =
          subst (λ x. Post Linked (Untouched s) (write_end (x, de) u)) (sym here)
            (bind-Post (writei dp (new_entry de name inum) (place s ip) dirent_size)
              (λ n. if is_nat dirent_size n then pure (pos 0) else panic dirlink_short) u write-Post
              λ r t h. rw h.0 (ok-Post refl (refl, Wrote-Links de t (Wrote-Keeps t h.1))))

    module _ (table : IsTable s.inode) (free : (n : ℕ) → ¬ IsFull s.inode rootdev n) where
      -- The search for the place, and the write.
      insert_end :
          (t : Sys)
          → Keeps s t
          → Post Linked
              (Untouched s)
              ((get_inode dp >>= λ d. empty_entry dp zeroes 0 (entries d.size 0) >>= write_end) t)
      insert_end t k =
          let size : (t.inode dp).size ≡ ip.size =
            ap (λ (g : ℕ → Inode). (g dp).size) k.same_inode in
          let rounds : entries (t.inode dp).size 0 ≡ ip.size / dirent_size =
            omega (arith, size, f.whole) in
          rw rounds (
            bind-Post (empty_entry dp zeroes 0 (ip.size / dirent_size)) write_end t
              (weaken-Post (empty_entry dp zeroes 0 (ip.size / dirent_size) t)
                (empty_entry-FoundEmpty (ip.size / dirent_size) zeroes 0 t (omega arith) k)
                (λ r u h. h) (λ u l. Keeps-Untouched s u l))
              λ r u h. write_end-Linked u h.1 r.1 r.0 h.0)

      -- What `dirlink` does with what its lookup has found.
      abbrev after_lookup : Option (ℕ × ℕ) → M ℤ
      after_lookup found = elim found [
        | some (i, _) ↦ iput i >> pure minus_one
        | none ↦ get_inode dp >>= λ d. empty_entry dp zeroes 0 (entries d.size 0) >>= write_end
      ]

      -- In a transaction with room for one block more, for a directory of the root device
      -- that owns its blocks, has no entry for the name and an entry that is not in use, a
      -- free entry in a table with at most one entry for an inode, and an inode number from
      -- 1 to 65535: `dirlink` returns 0, or stops for want of a free buffer. When it
      -- returns, a lookup of any name that compares equal to the new one finds its inode
      -- number at the first entry that was not in use, and a lookup of any other name finds
      -- what it found; every block outside of the directory reads as before, and the state
      -- can commit. In both cases nothing has gone to the disk.
      pub dirlink-Links : Post Linked (Untouched s) (dirlink dp name inum s)
      unfolding dirlink
      dirlink-Links =
          bind-Post (dirlookup dp name) after_lookup s
            (weaken-Post (dirlookup dp name s)
              (dirlookup-LooksUp s dp f name room.can.quiet table free) (λ r t h. h)
              (λ t l. Keeps-Untouched s t l))
            λ r t h. elim h [
              | inl (_, null, k) ↦
                  subst (λ o. Post Linked (Untouched s) (after_lookup o t)) (sym null)
                    (insert_end t k)
              | inr (n, off, i, u, found, _, _, _, _) ↦
                  let m : some (n, off) ≡ none = sym found ∙ missing in absurd cc
            ]
