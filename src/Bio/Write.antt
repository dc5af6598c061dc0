-- ===== src/Bio/Write.antt =====
-- The state that `bwrite` of xv6/bio.c leaves, over a coherent cache.
use fscq.Base.{
  ℕ, ◌<◌, ◌≡◌, refl, ◌≢◌, inl, inr, true, false, arith, leb, if◌then◌else◌, Option-cases, some, ◌∷◌,
  contains, fun_ext, ◌+◌, ap, ◌∙◌,
}
use fscq.Params.{rootdev}
use fscq.Machine.{Buf, Sys, DiskOp, ok, upd, put_buf}
use fscq.Ide.{iderw, max_sector}
use fscq.Bio.{find_cached, bwrite}
use fscq.Bio.View.{view, IsCoherent, find_cached-some, find_cached_unique, find_cached-same}

-- The state after buffer `i`, with contents `b`, was written to its sector.
abbrev written : Sys → ℕ → Buf → Sys
written s i b = record s {
  disk = upd s.disk b.sector b.bytes;
  image_blocks = if leb s.image_blocks b.sector then b.sector + 1 else s.image_blocks;
  trace = DiskOp.write b.sector b.bytes ∷ s.trace;
  stats = record (s.stats) { nwrite = s.stats.nwrite + 1 };
  cache = record (s.cache) { buf = upd s.cache.buf i (record b { dirty = false }) };
}

iderw-dirty :
    (s : Sys) (i : ℕ)
    → (s.cache.buf i).busy ≡ true
    → (s.cache.buf i).dirty ≡ true
    → (s.cache.buf i).sector < max_sector
    → iderw i s ≡ ok tt (written s i (s.cache.buf i))
unfolding iderw
iderw-dirty s i busy dirty small = ground arith

bwrite-busy :
    (s : Sys) (i : ℕ)
    → (s.cache.buf i).busy ≡ true
    → bwrite i s ≡ iderw i (put_buf s i (record (s.cache.buf i) { dirty = true }))
unfolding bwrite
bwrite-busy s i busy = ground arith

-- `bwrite` writes the buffer's contents to its sector, and the buffer is clean after it.
bwrite-written :
    (s : Sys) (i : ℕ)
    → (s.cache.buf i).busy ≡ true
    → (s.cache.buf i).sector < max_sector
    → bwrite i s ≡ ok tt (written s i (s.cache.buf i))
bwrite-written s i busy small =
    let b : Buf = record (s.cache.buf i) { dirty = true } in
    let own : upd s.cache.buf i b i ≡ b = ground arith in
    bwrite-busy s i busy
    ∙ iderw-dirty (put_buf s i b) i (ap (λ (x : Buf). x.busy) own ∙ busy)
        (ap (λ (x : Buf). x.dirty) own) (rw own small)
    ∙ ap (λ (x : Buf). ok tt (written (put_buf s i b) i x)) own
    ∙ ap
        (λ (g : ℕ → Buf).
          ok tt (record (written s i (s.cache.buf i)) { cache = record (s.cache) { buf = g } }))
        (fun_ext λ j. ground arith)

-- What a write to the device through `bwrite` does: the disk has the buffer's contents, and the
-- cache stands for the same blocks but for this one.
pub record Writes (s : Sys) (i : ℕ) (t : Sys) : Type 0 where
  pub disk : t.disk ≡ upd s.disk (s.cache.buf i).sector (s.cache.buf i).bytes
  pub trace : t.trace ≡ DiskOp.write (s.cache.buf i).sector (s.cache.buf i).bytes ∷ s.trace
  pub new_view : view t rootdev (s.cache.buf i).sector ≡ (s.cache.buf i).bytes
  pub same_view : (x : ℕ) → x ≢ (s.cache.buf i).sector → view t rootdev x ≡ view s rootdev x
  pub same_log : t.log ≡ s.log
  pub coherent : IsCoherent t
  pub own : t.cache.buf i ≡ record (s.cache.buf i) { dirty = false }
  pub others : (j : ℕ) → j ≢ i → t.cache.buf j ≡ s.cache.buf j
  pub same_order : t.cache.order ≡ s.cache.order
  pub same_image : (s.cache.buf i).sector < s.image_blocks → t.image_blocks ≡ s.image_blocks

module _ (s : Sys) (i : ℕ) (c : IsCoherent s) (busy : (s.cache.buf i).busy ≡ true)
    (valid : (s.cache.buf i).valid ≡ true) (in_list : contains i s.cache.order ≡ true) where
  same_search :
      (x : ℕ)
      → find_cached (written s i (s.cache.buf i)).cache.buf rootdev x s.cache.order
        ≡ find_cached s.cache.buf rootdev x s.cache.order
  same_search x = find_cached-same s.cache.buf _ rootdev x s.cache.order (λ j. ground arith)

  IsCoherent-written : IsCoherent (written s i (s.cache.buf i))
  IsCoherent-written = record {
    unique = λ d t j k hd mj mk hj hk.
        c.unique d t j k hd mj mk (ground (arith, hj)) (ground (arith, hk));
    one_device = λ j h. ground (arith, h, c.one_device j);
    dirty_valid = λ j h. ground (arith, h, c.dirty_valid j);
    clean = λ j m h1 h2 h3. ground (
      arith,
      h1,
      h2,
      h3,
      c.clean j m,
      c.one_device j,
      c.one_device i,
      c.unique rootdev (s.cache.buf i).sector j i (omega arith) m in_list,
    );
  }

  pub found_self : find_cached s.cache.buf rootdev (s.cache.buf i).sector s.cache.order ≡ some i
  found_self =
      find_cached_unique s.cache.buf rootdev (s.cache.buf i).sector s.cache.order i in_list
        (ground (arith, c.one_device i))
        λ j m h.
          c.unique rootdev (s.cache.buf i).sector j i (omega arith) m in_list h
            (ground (arith, c.one_device i))

  view-written :
      view (written s i (s.cache.buf i)) rootdev (s.cache.buf i).sector ≡ (s.cache.buf i).bytes
  unfolding view
  view-written = rw (same_search (s.cache.buf i).sector, found_self) (ground arith)

  view-written_ne :
      (x : ℕ)
      → x ≢ (s.cache.buf i).sector
      → view (written s i (s.cache.buf i)) rootdev x ≡ view s rootdev x
  unfolding view
  view-written_ne x ne =
      rw (same_search x) (elim (Option-cases (find_cached s.cache.buf rootdev x s.cache.order)) [
        | inl miss ↦ rw miss (ground arith)
        | inr (j, hit) ↦
            rw hit (ground (arith, find_cached-some s.cache.buf rootdev x s.cache.order j hit))
      ])

  -- Over a coherent cache, `bwrite` of a valid buffer of the list that is in use and whose
  -- sector is below 524288 returns: the disk has the buffer's bytes at its sector and the trace
  -- one write more, the block reads as these bytes and every other block as before, the log and
  -- the other buffers are the same, and the cache is coherent.
  pub bwrite-Writes :
      (s.cache.buf i).sector < max_sector → (t : Sys) × (bwrite i s ≡ ok tt t) × Writes s i t
  bwrite-Writes small = (
    written s i (s.cache.buf i),
    bwrite-written s i busy small,
    record {
      disk = refl;
      trace = refl;
      new_view = view-written;
      same_view = view-written_ne;
      same_log = refl;
      coherent = IsCoherent-written;
      own = ground arith;
      others = λ j ne. ground arith;
      same_order = refl;
      same_image = λ h. ground arith;
    },
  )
