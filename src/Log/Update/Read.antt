-- ===== src/Log/Update/Read.antt =====
-- A block that is read and released within a transaction, and `readsb` of xv6/fs.c.
use fscq.Base.{
  ℕ, ◌<◌, ◌≡◌, refl, sym, ap, ◌∙◌, subst, arith, ◌==◌, ==_iff, Bool-cases, inl, inr, contains,
}
use fscq.Memory.{Bytes}
use fscq.Params.{rootdev}
use fscq.Machine.{Sys, Log, ok, pure, get_buf, ◌>>◌, ◌>>=◌}
use fscq.Machine.Post.{Post, bind-Post, ok-Post}
use fscq.Bio.{bread, brelse}
use fscq.Bio.View.{view}
use fscq.Bio.Read.{Reads}
use fscq.Bio.Release.{Releases, brelse-Releases}
use fscq.Log.{get_superblock, readsb, log_sector}
use fscq.Log.Copy.{IsQuiet, bread-Post}
use fscq.Log.Crash.Recovery.{IsUnlogged}
use fscq.Log.Commit.{CanCommit}
use fscq.Log.Update.{CanLog, Logs}

-- All reads as before, and nothing has gone to the disk.
pub record Keeps (s t : Sys) : Type 0 where
  pub quiet : IsQuiet t
  pub same_view : (z : ℕ) → view t rootdev z ≡ view s rootdev z
  pub same_log : t.log ≡ s.log
  pub same_disk : t.disk ≡ s.disk
  pub same_trace : t.trace ≡ s.trace
  pub same_image : t.image_blocks ≡ s.image_blocks
  pub same_inode : t.inode ≡ s.inode
  pub same_file : t.file ≡ s.file

-- Nothing has gone to the disk.
pub record Untouched (s t : Sys) : Type 0 where
  pub same_disk : t.disk ≡ s.disk
  pub same_trace : t.trace ≡ s.trace

module _ (s t : Sys) (k : Keeps s t) where
  pub Keeps-Untouched : Untouched s t
  Keeps-Untouched = record { same_disk = k.same_disk; same_trace = k.same_trace }

  pub Keeps-CanCommit : CanCommit s → CanCommit t
  Keeps-CanCommit c = record {
    quiet = k.quiet;
    on_device = rw k.same_log c.on_device;
    header = rw k.same_log c.header;
    home = rw k.same_log c.home;
    inside = rw (k.same_log, k.same_image) c.inside;
    committed = rw (k.same_log, k.same_disk) c.committed;
    settled =
        subst (λ (l : Log). (z : ℕ) → z < l.start → IsUnlogged l.lh z → view t rootdev z ≡ t.disk z)
          (sym k.same_log)
          λ z lt none.
            k.same_view z ∙ c.settled z lt none ∙ ap (λ (d : ℕ → Bytes). d z) (sym k.same_disk);
  }

  pub Keeps-CanLog : (x : ℕ) → CanLog s x → CanLog t x
  Keeps-CanLog x c = record {
    can = Keeps-CanCommit c.can;
    under_way = c.under_way;
    outstanding = rw k.same_log c.outstanding;
    room = rw k.same_log c.room;
    space = rw k.same_log c.space;
    home = rw k.same_log c.home;
    inside = rw (k.same_log, k.same_image) c.inside;
  }

  -- A change after the read is one of the first state.
  pub Keeps-Logs :
      (x : ℕ) (f : Bytes → Bytes) (u : Sys)
      → Logs t x (f (view t rootdev x)) u
      → Logs s x (f (view s rootdev x)) u
  Keeps-Logs x f u h = record {
    can = h.can;
    new_log = h.new_log ∙ ap (λ (l : Log). record l { lh = log_sector x l.lh }) k.same_log;
    new_view = h.new_view ∙ ap f (k.same_view x);
    same_view = λ z ne. h.same_view z ne ∙ k.same_view z;
    same_disk = h.same_disk ∙ k.same_disk;
    same_trace = h.same_trace ∙ k.same_trace;
    same_image = h.same_image ∙ k.same_image;
    same_inode = h.same_inode ∙ k.same_inode;
    same_file = h.same_file ∙ k.same_file;
  }

pub Keeps-trans : {s t u : Sys} → Keeps s t → Keeps t u → Keeps s u
Keeps-trans k l = record {
  quiet = l.quiet;
  same_view = λ z. l.same_view z ∙ k.same_view z;
  same_log = l.same_log ∙ k.same_log;
  same_disk = l.same_disk ∙ k.same_disk;
  same_trace = l.same_trace ∙ k.same_trace;
  same_image = l.same_image ∙ k.same_image;
  same_inode = l.same_inode ∙ k.same_inode;
  same_file = l.same_file ∙ k.same_file;
}

pub Keeps-refl : (s t : Sys) → IsQuiet s → t ≡ s → Keeps s t
Keeps-refl s t q e = record {
  quiet = subst IsQuiet (sym e) q;
  same_view = λ z. ap (λ u. view u rootdev z) e;
  same_log = ap (λ (u : Sys). u.log) e;
  same_disk = ap (λ (u : Sys). u.disk) e;
  same_trace = ap (λ (u : Sys). u.trace) e;
  same_image = ap (λ (u : Sys). u.image_blocks) e;
  same_inode = ap (λ (u : Sys). u.inode) e;
  same_file = ap (λ (u : Sys). u.file) e;
}

module _ (s : Sys) (q : IsQuiet s) (x i : ℕ) (u : Sys) (r : Reads s rootdev x i u) where
  Releases-Keeps : (t : Sys) → Releases u i t → Keeps s t
  Releases-Keeps t r' = record {
    quiet = record {
      coherent = r'.coherent;
      idle = λ k m. elim (Bool-cases (k == i)) [
        | inl e ↦ rw ((==_iff k i).0 e) r'.free
        | inr ne ↦
            rw (r'.others k (ground arith), r.others k (ground arith))
              (q.idle k (ap (contains k) (sym r.same_order) ∙ sym (r'.same_list k) ∙ m))
      ];
      addressable = rw (r'.same_image, r.same_image) q.addressable;
    };
    same_view = λ z. r'.same_view rootdev z (omega arith) ∙ r.same_view rootdev z (omega arith);
    same_log = r'.same_log ∙ r.same_log;
    same_disk = r'.same_disk ∙ r.same_disk;
    same_trace = r'.same_trace ∙ r.same_trace;
    same_image = r'.same_image ∙ r.same_image;
    same_inode = r'.same_inode ∙ r.same_inode;
    same_file = r'.same_file ∙ r.same_file;
  }

  pub read_end : (t : Sys) × (brelse i u ≡ ok tt t) × Keeps s t
  read_end =
      let (t, e, r') =
        brelse-Releases u i r.coherent (rw r.same_order r.in_list) r.busy
          (λ h. r.settled h ∙ rw r.same_disk (ground (arith, r.is_block))) in
      (t, e, Releases-Keeps t r')

-- `readsb` returns the superblock that block 1 reads as.
pub readsb-Post :
    (s : Sys)
    → IsQuiet s
    → 1 < s.image_blocks
    → Post
        (λ sb t. (sb ≡ get_superblock (view s rootdev 1)) × Keeps s t)
        (λ t. t ≡ s)
        (readsb rootdev s)
unfolding readsb
readsb-Post s q inside =
    bind-Post (bread rootdev 1)
      (λ bp. get_buf bp >>= λ b. brelse bp >> pure (get_superblock b.bytes)) s
      (bread-Post s 1 q.coherent inside q.addressable (λ i m h. q.idle i m))
      λ i u r.
        let (t, e, k) = read_end s q 1 i u r in
        ok-Post (rw e refl) (ap get_superblock r.contents, k)
