-- ===== src/File/Read.antt =====
-- `fileread` of xv6/file.c against the bytes of the file.
use fscq.Base.{
  ℕ, ◌+◌, ◌%◌, ◌<◌, ◌≡◌, refl, sym, ap, ◌∙◌, subst, true, false, arith, ltb, Bool-cases, inl, inr,
  ℤ, to_nat, below_one,
}
use fscq.Memory.{Bytes}
use fscq.Params.{rootdev, u32}
use fscq.Machine.{
  Sys, Inode, File, FileType, fd_none, fd_pipe, fd_inode, M, upd, pure, panic, fileread_type, ◌>>=◌,
  ◌>>◌,
}
use fscq.Machine.Post.{Post, bind-Post, weaken-Post, ok-Post}
use fscq.Bio.View.{view}
use fscq.Log.Copy.{IsQuiet}
use fscq.Log.Update.Read.{Keeps, Untouched}
use fscq.Log.Update.Tables.{retabled, retabled-IsQuiet}
use fscq.Fs.Inode.{ilock, iunlock}
use fscq.Fs.Inode.Lock.{ilock-loaded, iunlock-held, upd_eq}
use fscq.Fs.Content.{readi}
use fscq.Fs.Content.Blocks.{IsFile, addr_at, byte_at}
use fscq.Fs.Content.Readi.{ReadsBytes, readi-ReadsBytes}
use fscq.File.{advance, piperead, fileread}

-- A file that is open for reading on an inode of the table, which is loaded and not locked.
pub record IsReadable (s : Sys) (f : ℕ) : Type 0 where
  pub quiet : IsQuiet s
  pub readable : (s.file f).readable ≡ true
  pub on_inode : (s.file f).type ≡ fd_inode
  pub offset : (s.file f).off < u32
  pub counted : below_one (s.inode (s.file f).ip).ref ≡ false
  pub loaded : (s.inode (s.file f).ip).valid ≡ true
  pub unlocked : (s.inode (s.file f).ip).busy ≡ false
  pub file : IsFile s (s.inode (s.file f).ip)

-- The offset has moved by the number of bytes read, the inode is free again, every block reads as
-- before, and nothing has gone to the disk.
pub record Fetches (s : Sys) (f : ℕ) (r : ℤ) (t : Sys) : Type 0 where
  pub offset : (t.file f).off ≡ ((s.file f).off + to_nat r) % u32
  pub unlocked : (t.inode (s.file f).ip).busy ≡ false
  pub same_view : (z : ℕ) → view t rootdev z ≡ view s rootdev z
  pub same_disk : t.disk ≡ s.disk
  pub same_trace : t.trace ≡ s.trace

module _ (s : Sys) (f : ℕ) (h : IsReadable s f) (addr : Bytes) (n : ℕ) (short : n < u32) where
  abbrev x : File
  x = s.file f

  abbrev ip : Inode
  ip = s.inode x.ip

  abbrev held : Inode
  held = record ip { busy = true }

  -- With the inode locked.
  abbrev locked : Sys
  locked = retabled s s.log.outstanding s.log.committing (upd s.inode x.ip held) s.file

  locked-IsFile : IsFile locked held
  unfolding addr_at view
  locked-IsFile = record {
    on_device = h.file.on_device;
    short = h.file.short;
    mapped = h.file.mapped;
    inside = h.file.inside;
    indirect = h.file.indirect;
    indirect_inside = h.file.indirect_inside;
  }

  unlocked-ReadsBytes :
      (r : ℤ × Bytes) → ReadsBytes locked held addr x.off n r → ReadsBytes s ip addr x.off n r
  unfolding byte_at addr_at view
  unlocked-ReadsBytes r b = record { result = b.result; bytes = b.bytes }

  locked-read :
      Post
        (λ r u. ReadsBytes s ip addr x.off n r × Keeps locked u)
        (Untouched s)
        (readi x.ip addr x.off n locked)
  locked-read =
      let same : locked.inode x.ip ≡ held = upd_eq s.inode x.ip held in
      weaken-Post (readi x.ip addr x.off n locked)
        (subst
          (λ (i : Inode).
            Post (λ r u. ReadsBytes locked i addr x.off n r × Keeps locked u) (Keeps locked)
              (readi x.ip addr x.off n locked))
          same
          (readi-ReadsBytes locked x.ip
            (retabled-IsQuiet s s.log.outstanding s.log.committing locked.inode s.file h.quiet)
            (subst (IsFile locked) (sym same) locked-IsFile) addr x.off n h.offset short))
        (λ r u b. (unlocked-ReadsBytes r b.0, b.1))
        (λ u k. record { same_disk = k.same_disk; same_trace = k.same_trace })

  -- The end of the call, after the read.
  module _ (u : Sys) (k : Keeps locked u) (r : ℤ) where
    abbrev moved : File
    moved = record x { off = (x.off + to_nat r) % u32 }

    abbrev done : (ℕ → File) → Sys
    done file =
        retabled u u.log.outstanding u.log.committing
          (upd u.inode x.ip (record ip { busy = false })) file

    same_entry : u.inode x.ip ≡ held
    same_entry = ap (λ (g : ℕ → Inode). g x.ip) k.same_inode ∙ upd_eq s.inode x.ip held

    same_open : u.file f ≡ x
    same_open = ap (λ (g : ℕ → File). g f) k.same_file

    done-Fetches :
        (file : ℕ → File) → (file f).off ≡ (x.off + to_nat r) % u32 → Fetches s f r (done file)
    unfolding view
    done-Fetches file e = record {
      offset = e;
      unlocked = ap (λ (i : Inode). i.busy) (upd_eq u.inode x.ip (record ip { busy = false }));
      same_view = k.same_view;
      same_disk = k.same_disk;
      same_trace = k.same_trace;
    }

    -- What `fileread` does after the read.
    read_end :
        (d : Bytes)
        → Post
            (λ (p : ℤ × Bytes) t. (p ≡ (r, d)) × Fetches s f r t)
            (Untouched s)
            ((advance f r >> (iunlock x.ip >> pure (r, d))) u)
    read_end d = elim (Bool-cases (ltb 0 (to_nat r))) [
      | inl some_bytes ↦
          rw
            (
              some_bytes,
              same_open,
              iunlock-held (record u { file = upd u.file f moved }) x.ip ip same_entry h.counted,
            )
            (ok-Post refl (
              refl,
              done-Fetches (upd u.file f moved) (ap (λ (y : File). y.off) (upd_eq u.file f moved)),
            ))
      | inr no_bytes ↦
          rw (no_bytes, iunlock-held u x.ip ip same_entry h.counted)
            (ok-Post refl (
              refl,
              done-Fetches u.file (ap (λ (y : File). y.off) same_open ∙ ground (arith, h.offset)),
            ))
    ]

  abbrev Result : ℤ × Bytes → Sys → Type 0
  Result p t = ReadsBytes s ip addr x.off n p × Fetches s f p.0 t

  -- What `fileread` does with a file on an inode.
  abbrev on_type : FileType → M (ℤ × Bytes)
  on_type type = elim type [
    | fd_none ↦ panic fileread_type
    | fd_pipe ↦ piperead addr
    | fd_inode ↦
        ilock x.ip
        >> (readi x.ip addr x.off n >>= λ p. advance f p.0 >> (iunlock x.ip >> pure (p.0, p.1)))
  ]

  -- For a file that is open for reading on a loaded, unlocked inode of the root device that has
  -- all its blocks and no double indirect block, over a coherent cache with no buffer in use:
  -- `fileread` of a number of bytes of 32 bits returns what `readi` is to return at the offset
  -- of the file: -1 for a device, an offset past the end, or a sum of the two past 32 bits,
  -- else the bytes of the file from there on, as many as there are up to that number. The
  -- offset moves by the number of bytes returned, the inode is unlocked again, every block
  -- reads as before, and nothing has gone to the disk; or it stops for want of a free buffer,
  -- with nothing gone to the disk.
  pub fileread-Fetches : Post Result (Untouched s) (fileread f addr n s)
  unfolding fileread
  fileread-Fetches = rw h.readable (
      subst (λ y. Post Result (Untouched s) (on_type y s)) (sym h.on_inode)
        (rw (ilock-loaded s x.ip h.counted h.unlocked h.loaded) (
          bind-Post (readi x.ip addr x.off n)
            (λ p. advance f p.0 >> (iunlock x.ip >> pure (p.0, p.1))) locked locked-read
            λ p u b.
              weaken-Post ((advance f p.0 >> (iunlock x.ip >> pure (p.0, p.1))) u)
                (read_end u b.1 p.0 p.1)
                (λ q t e. subst (λ (z : ℤ × Bytes). Result z t) (sym e.0) (b.0, e.1)) (λ t e. e))))
