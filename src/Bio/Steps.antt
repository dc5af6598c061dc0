-- ===== src/Bio/Steps.antt =====
-- The runs of `bread` of xv6/bio.c, by what `bget` finds.
use fscq.Base.{
  ℕ, ◌<◌, ◌≡◌, refl, true, false, arith, ==_self, none, some, reverse, fun_ext, ◌+◌, ap, ◌∙◌,
}
use fscq.Machine.{Buf, Sys, Stats, ok, upd, put_buf, ◌>>=◌}
use fscq.Ide.{iderw, max_sector}
use fscq.Bio.{find_cached, find_free, recycle, bget, bread}

abbrev pub counted : Stats → Stats
counted c = record c { nread = c.nread + 1 }

-- The state after buffer `i` has become `b` and the counters `c`.
abbrev pub with_buf : Sys → ℕ → Buf → Stats → Sys
with_buf s i b c = record (put_buf s i b) { stats = c }

upd-upd : (f : ℕ → Buf) (i : ℕ) (a b : Buf) → upd (upd f i a) i b ≡ upd f i b
upd-upd f i a b = fun_ext λ j. ground arith

-- A buffer that is neither valid nor dirty is filled from the disk.
iderw-read :
    (s : Sys) (i : ℕ)
    → (s.cache.buf i).busy ≡ true
    → (s.cache.buf i).valid ≡ false
    → (s.cache.buf i).dirty ≡ false
    → (s.cache.buf i).sector < s.image_blocks
    → (s.cache.buf i).sector < max_sector
    → iderw i s
      ≡ ok tt (
          with_buf s i
            (record (s.cache.buf i) { valid = true; bytes = s.disk (s.cache.buf i).sector })
            (counted s.stats))
unfolding iderw
iderw-read s i busy invalid same inside small = ground arith

-- The same for a buffer that has just been put in place, by its fields.
iderw-put :
    (s : Sys) (i : ℕ) (b : Buf)
    → b.busy ≡ true
    → b.valid ≡ false
    → b.dirty ≡ false
    → b.sector < s.image_blocks
    → b.sector < max_sector
    → iderw i (put_buf s i b)
      ≡ ok tt (with_buf s i (record b { valid = true; bytes = s.disk b.sector }) (counted s.stats))
iderw-put s i b busy invalid same inside small =
    let own : upd s.cache.buf i b i ≡ b = ground arith in
    iderw-read (put_buf s i b) i (ap (λ (x : Buf). x.busy) own ∙ busy)
      (ap (λ (x : Buf). x.valid) own ∙ invalid) (ap (λ (x : Buf). x.dirty) own ∙ same)
      (rw own inside) (rw own small)
    ∙ ap
        (λ (g : ℕ → Buf).
          ok tt (record s { cache = record (s.cache) { buf = g }; stats = counted s.stats }))
        (fun_ext λ j. ground arith)

module _ (s : Sys) (dev sector i : ℕ) where
  pub bread-valid :
      find_cached s.cache.buf dev sector s.cache.order ≡ some i
      → (s.cache.buf i).busy ≡ false
      → (s.cache.buf i).valid ≡ true
      → bread dev sector s ≡ ok i (with_buf s i (record (s.cache.buf i) { busy = true }) s.stats)
  unfolding bread bget
  bread-valid hit idle valid = rw hit (ground arith)

  pub bread-invalid :
      find_cached s.cache.buf dev sector s.cache.order ≡ some i
      → (s.cache.buf i).busy ≡ false
      → (s.cache.buf i).valid ≡ false
      → (s.cache.buf i).dirty ≡ false
      → (s.cache.buf i).sector < s.image_blocks
      → (s.cache.buf i).sector < max_sector
      → bread dev sector s
        ≡ ok i (
            with_buf s i
              (record (s.cache.buf i) {
                busy = true;
                valid = true;
                bytes = s.disk (s.cache.buf i).sector;
              })
              (counted s.stats))
  unfolding bread bget
  bread-invalid hit idle invalid same inside small =
      let b : Buf = record (s.cache.buf i) { busy = true; valid = false } in
      rw (hit, ◌>>=◌, idle, ==_self, invalid)
        (rw (iderw-put s i b refl refl same inside small) refl)

  pub bread-miss :
      find_cached s.cache.buf dev sector s.cache.order ≡ none
      → find_free s.cache.buf (reverse s.cache.order) ≡ some i
      → sector < s.image_blocks
      → sector < max_sector
      → bread dev sector s
        ≡ ok i (
            with_buf s i
              (record (recycle dev sector (s.cache.buf i)) { valid = true; bytes = s.disk sector })
              (counted s.stats))
  unfolding bread bget
  bread-miss miss free inside small =
      rw
        (
          miss,
          free,
          ==_self,
          iderw-put s i (recycle dev sector (s.cache.buf i)) refl refl refl inside small,
        )
        refl
