-- ===== src/Fs/Content/Writes.antt =====
-- The change of a block of a file of xv6/fs.c, by the bytes of the file.
use fscq.Base.{
  ℕ, ◌*◌, ◌/◌, ◌%◌, ◌≤◌, ◌<◌, ◌≡◌, ◌≢◌, refl, sym, ap, ◌∙◌, arith, ltb, ◌==◌, ==_iff, Bool-cases,
  inl, inr, if◌then◌else◌,
}
use fscq.Memory.{Bytes}
use fscq.Params.{rootdev, bsize, ndirect}
use fscq.Machine.{Sys, Inode, Log}
use fscq.Bio.View.{view}
use fscq.Log.Update.{Logs}
use fscq.Log.Update.Room.{same_start}
use fscq.Fs.Content.Blocks.{IsFile, IsFile-Keeps, addr_at, addr_at-Keeps, byte_at}
use fscq.Log.Update.Read.{Keeps}

-- A file with its blocks to itself: they are distinct, none is the indirect block, and all lie
-- below the log area.
pub record IsOwn (s : Sys) (ip : Inode) : Type 0 where
  pub file : IsFile s ip
  pub small : s.log.start ≤ 4294967296
  pub home : (bn : ℕ) → bn * bsize < ip.size → addr_at s ip bn < s.log.start
  pub distinct :
      (bn bm : ℕ)
      → bn * bsize < ip.size
      → bm * bsize < ip.size
      → addr_at s ip bn ≡ addr_at s ip bm
      → bn ≡ bm
  pub apart :
      (bn : ℕ)
      → bn * bsize < ip.size
      → ndirect * bsize < ip.size
      → ip.addrs ndirect ≢ addr_at s ip bn

-- The file has the same blocks, every other block reads as before, and nothing has gone to the
-- disk.
pub record Stays (s : Sys) (ip : Inode) (t : Sys) : Type 0 where
  pub own : IsOwn t ip
  pub same_addr : (bn : ℕ) → bn * bsize < ip.size → addr_at t ip bn ≡ addr_at s ip bn
  pub others :
      (z : ℕ)
      → ((bn : ℕ) → bn * bsize < ip.size → z ≢ addr_at s ip bn)
      → view t rootdev z ≡ view s rootdev z
  pub same_disk : t.disk ≡ s.disk
  pub same_trace : t.trace ≡ s.trace
  pub same_inode : t.inode ≡ s.inode
  pub same_file : t.file ≡ s.file
  pub same_outstanding : t.log.outstanding ≡ s.log.outstanding
  pub same_committing : t.log.committing ≡ s.log.committing
  pub same_area : t.log.start ≡ s.log.start

pub Stays-refl : (s : Sys) (ip : Inode) → IsOwn s ip → Stays s ip s
Stays-refl s ip own = record {
  own = own;
  same_addr = λ bn h. refl;
  others = λ z h. refl;
  same_disk = refl;
  same_trace = refl;
  same_inode = refl;
  same_file = refl;
  same_outstanding = refl;
  same_committing = refl;
  same_area = refl;
}

pub Stays-trans : {s t u : Sys} {ip : Inode} → Stays s ip t → Stays t ip u → Stays s ip u
Stays-trans h k = record {
  own = k.own;
  same_addr = λ bn lt. k.same_addr bn lt ∙ h.same_addr bn lt;
  others = λ z none. k.others z (λ bn lt e. none bn lt (e ∙ h.same_addr bn lt)) ∙ h.others z none;
  same_disk = k.same_disk ∙ h.same_disk;
  same_trace = k.same_trace ∙ h.same_trace;
  same_inode = k.same_inode ∙ h.same_inode;
  same_file = k.same_file ∙ h.same_file;
  same_outstanding = k.same_outstanding ∙ h.same_outstanding;
  same_committing = k.same_committing ∙ h.same_committing;
  same_area = k.same_area ∙ h.same_area;
}

-- A change of block `bn` of the file.
module _ (s t : Sys) (ip : Inode) (own : IsOwn s ip) (bn : ℕ) (has : bn * bsize < ip.size)
    (b : Bytes) (l : Logs s (addr_at s ip bn) b t) where
  change-addr_at : (bm : ℕ) → bm * bsize < ip.size → addr_at t ip bm ≡ addr_at s ip bm
  unfolding addr_at
  change-addr_at bm lt = elim (Bool-cases (ltb bm ndirect)) [
    | inl near ↦ rw near refl
    | inr far ↦ rw (far, l.same_view (ip.addrs ndirect) (own.apart bn has (ground arith))) refl
  ]

  change-IsFile : IsFile t ip
  change-IsFile = record {
    on_device = own.file.on_device;
    short = own.file.short;
    mapped = λ bm lt e. own.file.mapped bm lt (sym (change-addr_at bm lt) ∙ e);
    inside = λ bm lt. rw (change-addr_at bm lt, l.same_image) (own.file.inside bm lt);
    indirect = own.file.indirect;
    indirect_inside = λ lt. rw l.same_image (own.file.indirect_inside lt);
  }

  pub change-Stays : Stays s ip t
  change-Stays = record {
    own = record {
      file = change-IsFile;
      small = rw (same_start s t _ b l) own.small;
      home = λ bm lt. rw (change-addr_at bm lt, same_start s t _ b l) (own.home bm lt);
      distinct = λ bm bk lt lt' e.
          own.distinct bm bk lt lt' (sym (change-addr_at bm lt) ∙ e ∙ change-addr_at bk lt');
      apart = λ bm lt long e. own.apart bm lt long (e ∙ change-addr_at bm lt);
    };
    same_addr = change-addr_at;
    others = λ z none. l.same_view z (none bn has);
    same_disk = l.same_disk;
    same_trace = l.same_trace;
    same_inode = l.same_inode;
    same_file = l.same_file;
    same_outstanding = ap (λ (g : Log). g.outstanding) l.new_log;
    same_committing = ap (λ (g : Log). g.committing) l.new_log;
    same_area = ap (λ (g : Log). g.start) l.new_log;
  }

  -- Its bytes are the new ones, and the bytes of the other blocks are as before.
  pub change-byte_at :
      (k : ℕ)
      → k < ip.size
      → byte_at t ip k ≡ (if k / bsize == bn then b (k % bsize) else byte_at s ip k)
  unfolding byte_at
  change-byte_at k lt =
      let block : k / bsize * bsize < ip.size = omega arith in
      elim (Bool-cases (k / bsize == bn)) [
        | inl here ↦
            rw (here, change-addr_at (k / bsize) block, (==_iff (k / bsize) bn).0 here)
              (ap (λ (c : Bytes). c (k % bsize)) l.new_view)
        | inr other ↦
            rw (other, change-addr_at (k / bsize) block)
              (ap (λ (c : Bytes). c (k % bsize))
                (l.same_view (addr_at s ip (k / bsize))
                  (λ e. absurd (ground (arith, own.distinct (k / bsize) bn block has e)))))
      ]

-- Reads of blocks leave the file as it is.
module _ (s t : Sys) (ip : Inode) (own : IsOwn s ip) (k : Keeps s t) where
  Keeps-IsOwn : IsOwn t ip
  Keeps-IsOwn = record {
    file = IsFile-Keeps s t k ip own.file;
    small = rw k.same_log own.small;
    home = λ bn lt. rw (addr_at-Keeps s t k ip bn, k.same_log) (own.home bn lt);
    distinct = λ bn bm lt lt' e.
        own.distinct bn bm lt lt' (sym (addr_at-Keeps s t k ip bn) ∙ e ∙ addr_at-Keeps s t k ip bm);
    apart = λ bn lt long e. own.apart bn lt long (e ∙ addr_at-Keeps s t k ip bn);
  }

  pub Keeps-Stays : Stays s ip t
  Keeps-Stays = record {
    own = Keeps-IsOwn;
    same_addr = λ bn lt. addr_at-Keeps s t k ip bn;
    others = λ z none. k.same_view z;
    same_disk = k.same_disk;
    same_trace = k.same_trace;
    same_inode = k.same_inode;
    same_file = k.same_file;
    same_outstanding = ap (λ (g : Log). g.outstanding) k.same_log;
    same_committing = ap (λ (g : Log). g.committing) k.same_log;
    same_area = ap (λ (g : Log). g.start) k.same_log;
  }
