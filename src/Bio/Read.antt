-- ===== src/Bio/Read.antt =====
-- The state that `bread` of xv6/bio.c leaves, over a coherent cache.
use fscq.Base.{
  ℕ, ◌<◌, ◌≡◌, refl, ◌≢◌, inl, inr, true, false, arith, if◌then◌else◌, Bool-cases, Option-cases,
  ==_self, none, some, contains, reverse, sym, ◌∙◌,
}
use fscq.Params.{rootdev}
use fscq.Machine.{Buf, Sys, Stats, ok, panicked, bget_no_buffers}
use fscq.Ide.{max_sector}
use fscq.Bio.{holds, find_cached, find_free, claim, bget, bread}
use fscq.Bio.View.{no_dev, view, IsCoherent, find_cached-some, find_free-some}
use fscq.Bio.Steps.{with_buf, bread-valid, bread-invalid, bread-miss}
use fscq.Bio.Replace.{
  contains-reverse, view-found, IsCoherent-found, IsCoherent-replaced, view-replaced,
}

-- What `bread` promises of its result.
pub record Reads (s : Sys) (dev sector i : ℕ) (t : Sys) : Type 0 where
  pub busy : (t.cache.buf i).busy ≡ true
  pub valid : (t.cache.buf i).valid ≡ true
  pub is_block : holds dev sector (t.cache.buf i) ≡ true
  pub contents : (t.cache.buf i).bytes ≡ view s dev sector
  pub same_view : (d x : ℕ) → d ≢ no_dev → view t d x ≡ view s d x
  pub same_disk : t.disk ≡ s.disk
  pub same_log : t.log ≡ s.log
  pub coherent : IsCoherent t
  pub in_list : contains i s.cache.order ≡ true
  pub was_idle : (s.cache.buf i).busy ≡ false
  pub settled : (t.cache.buf i).dirty ≡ false → (t.cache.buf i).bytes ≡ s.disk sector
  pub others : (j : ℕ) → j ≢ i → t.cache.buf j ≡ s.cache.buf j
  pub same_order : t.cache.order ≡ s.cache.order
  pub same_trace : t.trace ≡ s.trace
  pub same_image : t.image_blocks ≡ s.image_blocks
  pub same_inode : t.inode ≡ s.inode
  pub same_file : t.file ≡ s.file

-- `sector` can be read: a buffer that holds its block is not in use, and if there is none then
-- one is free; the image file has the sector.
pub record IsReadable (s : Sys) (dev sector : ℕ) : Type 0 where
  pub on_device : dev ≡ rootdev
  pub inside : sector < s.image_blocks
  pub small : sector < max_sector
  pub idle :
      (i : ℕ)
      → find_cached s.cache.buf dev sector s.cache.order ≡ some i
      → (s.cache.buf i).busy ≡ false
  pub some_free :
      find_cached s.cache.buf dev sector s.cache.order ≡ none
      → (i : ℕ) × (find_free s.cache.buf (reverse s.cache.order) ≡ some i)

module _ (s : Sys) (dev sector : ℕ) (c : IsCoherent s) (root : dev ≡ rootdev) where
  settled-found :
      (i : ℕ) (b : Buf)
      → contains i s.cache.order ≡ true
      → holds dev sector (s.cache.buf i) ≡ true
      → b.sector ≡ (s.cache.buf i).sector
      → b.bytes
        ≡ (if (s.cache.buf i).valid then (s.cache.buf i).bytes else s.disk (s.cache.buf i).sector)
      → (s.cache.buf i).busy ≡ false
      → b.dirty ≡ (s.cache.buf i).dirty
      → b.dirty ≡ false
      → b.bytes ≡ s.disk sector
  settled-found i b m held es eb idle ed same = ground (arith, c.clean i m)

  Reads-found :
      (i : ℕ) (b : Buf) (st : Stats)
      → find_cached s.cache.buf dev sector s.cache.order ≡ some i
      → b.dev ≡ (s.cache.buf i).dev
      → b.sector ≡ (s.cache.buf i).sector
      → b.busy ≡ true
      → b.valid ≡ true
      → b.bytes
        ≡ (if (s.cache.buf i).valid then (s.cache.buf i).bytes else s.disk (s.cache.buf i).sector)
      → (s.cache.buf i).busy ≡ false
      → b.dirty ≡ (s.cache.buf i).dirty
      → Reads s dev sector i (with_buf s i b st)
  unfolding view
  Reads-found i b st hit ed es busy valid eb idle edirty =
      let (m, held) = find_cached-some s.cache.buf dev sector s.cache.order i hit in
      record {
        busy = ground arith;
        valid = ground arith;
        is_block = ground arith;
        contents = rw (hit, ==_self) (ground arith);
        same_view = λ d x h. view-found s c i b st ed es valid eb d x;
        same_disk = refl;
        same_log = refl;
        coherent = IsCoherent-found s c i b st ed es valid busy (ground arith);
        in_list = m;
        was_idle = idle;
        settled = λ same. rw ==_self (settled-found i b m held es eb idle edirty (ground arith));
        others = λ j ne. ground arith;
        same_order = refl;
        same_trace = refl;
        same_image = refl;
        same_inode = refl;
        same_file = refl;
      }

  Reads-replaced :
      (i : ℕ) (b : Buf) (st : Stats)
      → find_cached s.cache.buf dev sector s.cache.order ≡ none
      → find_free s.cache.buf (reverse s.cache.order) ≡ some i
      → b.dev ≡ dev
      → b.sector ≡ sector
      → b.busy ≡ true
      → b.valid ≡ true
      → b.bytes ≡ s.disk sector
      → Reads s dev sector i (with_buf s i b st)
  unfolding view
  Reads-replaced i b st miss found ed es busy valid eb =
      let (m, free) = find_free-some s.cache.buf (reverse s.cache.order) i found in
      let m' = sym (contains-reverse i s.cache.order) ∙ m in
      let miss' : find_cached s.cache.buf b.dev b.sector s.cache.order ≡ none = rw (ed, es) miss in
      record {
        busy = ground arith;
        valid = ground arith;
        is_block = ground arith;
        contents = rw (miss, ==_self) eb;
        same_view = view-replaced s c i b st m' free miss' valid (rw es eb);
        same_disk = refl;
        same_log = refl;
        coherent = IsCoherent-replaced s c i b st m' free miss' (ed ∙ root) busy valid;
        in_list = m';
        was_idle = ground arith;
        settled = λ same. ground arith;
        others = λ j ne. ground arith;
        same_order = refl;
        same_trace = refl;
        same_image = refl;
        same_inode = refl;
        same_file = refl;
      }

-- Over a coherent cache, `bread` of a block of the root device that can be read (its number is
-- below 524288, the image has it, its buffer is not in use, or it has none and one is free)
-- returns a buffer in use with that block, whose bytes are those that the cache stands for; every
-- block reads as before, the disk, the trace, the log and the other buffers are the same, and the
-- cache is coherent. The buffer was idle before, and unless it is dirty its bytes are those of
-- the disk.
pub bread-Reads :
    (s : Sys) (dev sector : ℕ)
    → IsCoherent s
    → IsReadable s dev sector
    → (i : ℕ) × (t : Sys) × (bread dev sector s ≡ ok i t) × Reads s dev sector i t
bread-Reads s dev sector c r =
    elim (Option-cases (find_cached s.cache.buf dev sector s.cache.order)) [
      | inl miss ↦
          let (i, free) = r.some_free miss in
          (
            i,
            _,
            bread-miss s dev sector i miss free r.inside r.small,
            Reads-replaced s dev sector c r.on_device i _ _ miss free refl refl refl refl refl,
          )
      | inr (i, hit) ↦ elim (Bool-cases (s.cache.buf i).valid) [
        | inl valid ↦ (
          i,
          _,
          bread-valid s dev sector i hit (r.idle i hit) valid,
          Reads-found s dev sector c r.on_device i _ _ hit refl refl refl valid (rw valid refl)
              (r.idle i hit) refl,
        )
        | inr invalid ↦
            let held = (find_cached-some s.cache.buf dev sector s.cache.order i hit).1 in
            let e : (s.cache.buf i).sector ≡ sector = ground arith in
            (
              i,
              _,
              bread-invalid s dev sector i hit (r.idle i hit) invalid
                  (ground (arith, c.dirty_valid i)) (rw e r.inside) (rw e r.small),
              Reads-found s dev sector c r.on_device i _ _ hit refl refl refl refl (rw invalid refl)
                  (r.idle i hit) refl,
            )
      ]
    ]

-- `bread` on what a search of the list finds idle, and the panic where no buffer is free.
pub bread_full :
    (s : Sys) (dev sector : ℕ)
    → find_cached s.cache.buf dev sector s.cache.order ≡ none
    → find_free s.cache.buf (reverse s.cache.order) ≡ none
    → bread dev sector s ≡ panicked bget_no_buffers s
unfolding bread bget claim
bread_full s dev sector miss full = rw (miss, full) refl
