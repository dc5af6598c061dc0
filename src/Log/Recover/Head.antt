-- ===== src/Log/Recover/Head.antt =====
-- `read_head` of xv6/log.c after a mount.
use fscq.Base.{
  ℕ, ◌≡◌, sym, ap, ◌∙◌, subst, true, false, arith, ltb, Bool-cases, ◌==◌, ==_iff, inl, inr,
  if◌then◌else◌, contains,
}
use fscq.Memory.{Bytes, get_words}
use fscq.Params.{rootdev, logsize}
use fscq.Machine.{Sys, Log, M, Void, get_buf, modify_log, undefined_behaviour, ◌>>◌, ◌>>=◌}
use fscq.Machine.Post.{Post, bind-Post, ok-Post}
use fscq.Bio.{bread, brelse}
use fscq.Bio.View.{view, IsCoherent}
use fscq.Bio.Read.{Reads}
use fscq.Bio.Release.{Releases, brelse-Releases}
use fscq.Log.{header_count, read_head}
use fscq.Log.Copy.{IsQuiet, bread-Post}
use fscq.Log.Recover.{CanRecover, read_log}

-- What `read_head` leaves.
pub record ReadsHead (s t : Sys) : Type 0 where
  pub quiet : IsQuiet t
  pub new_log : t.log ≡ read_log s
  pub same_view : (x : ℕ) → view t rootdev x ≡ view s rootdev x
  pub same_disk : t.disk ≡ s.disk
  pub same_trace : t.trace ≡ s.trace
  pub same_image : t.image_blocks ≡ s.image_blocks

abbrev read_end : ℕ → M Void
read_end i = get_buf i >>= λ b.
    (if ltb logsize (header_count b.bytes)
      then undefined_behaviour
      else modify_log (λ l. record l {
        lh = record {
          n = header_count b.bytes;
          sector = get_words b.bytes 4 (header_count b.bytes) l.lh.sector;
        };
      }))
    >> brelse i

module _ (s : Sys) (can : CanRecover s) where
  module _ (i : ℕ) (u : Sys) (r : Reads s rootdev s.log.start i u) where
    block : (u.cache.buf i).bytes ≡ s.disk s.log.start
    block = r.contents ∙ can.fresh s.log.start (omega arith)

    abbrev log_with : Bytes → Log → Log
    log_with b l = record l {
      lh = record { n = header_count b; sector = get_words b 4 (header_count b) l.lh.sector };
    }

    abbrev entered : Sys
    entered = record u { log = log_with (u.cache.buf i).bytes u.log }

    IsCoherent-entered : IsCoherent entered
    IsCoherent-entered = record {
      unique = r.coherent.unique;
      one_device = r.coherent.one_device;
      dirty_valid = r.coherent.dirty_valid;
      clean = r.coherent.clean;
    }

    read_idle :
        (t : Sys)
        → Releases entered i t
        → (k : ℕ) → contains k t.cache.order ≡ true
        → (t.cache.buf k).busy ≡ false
    read_idle t r' k m = elim (Bool-cases (k == i)) [
      | inl e ↦ rw ((==_iff k i).0 e) r'.free
      | inr ne ↦
          rw (r'.others k (ground arith), r.others k (ground arith))
            (can.quiet.idle k (ap (contains k) (sym r.same_order) ∙ sym (r'.same_list k) ∙ m))
    ]

    read-ReadsHead : (t : Sys) → Releases entered i t → ReadsHead s t
    unfolding view
    read-ReadsHead t r' = record {
      quiet = record {
        coherent = r'.coherent;
        idle = read_idle t r';
        addressable = rw (r'.same_image, r.same_image) can.quiet.addressable;
      };
      new_log =
          r'.same_log
          ∙ ap (log_with (u.cache.buf i).bytes) r.same_log
          ∙ ap (λ b. log_with b s.log) block;
      same_view = λ x. r'.same_view rootdev x (omega arith) ∙ r.same_view rootdev x (omega arith);
      same_disk = r'.same_disk ∙ r.same_disk;
      same_trace = r'.same_trace ∙ r.same_trace;
      same_image = r'.same_image ∙ r.same_image;
    }

    read_end-Post : {B : Sys → Type 0} → Post (λ _ t. ReadsHead s t) B (read_end i u)
    read_end-Post =
        let fits : ltb logsize (header_count (u.cache.buf i).bytes) ≡ false =
          ap (λ b. ltb logsize (header_count b)) block ∙ ground (arith, can.header.fits) in
        let (t, et, r') =
          brelse-Releases entered i IsCoherent-entered (rw r.same_order r.in_list) r.busy
            (λ h. r.settled h ∙ rw r.same_disk (ground (arith, r.is_block))) in
        ok-Post (rw fits et) (read-ReadsHead t r')

  pub read_head-Post : Post (λ _ t. ReadsHead s t) (λ t. t ≡ s) (read_head s)
  unfolding read_head
  read_head-Post =
      subst (λ d. Post (λ _ t. ReadsHead s t) (λ t. t ≡ s) ((bread d s.log.start >>= read_end) s))
        (sym can.on_device)
        (bind-Post (bread rootdev s.log.start) read_end s
          (bread-Post s s.log.start can.quiet.coherent (ground (arith, can.header.inside))
            can.quiet.addressable (λ i m h. can.quiet.idle i m))
          λ i u r. read_end-Post i u r)
