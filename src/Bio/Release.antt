-- ===== src/Bio/Release.antt =====
-- The state that `brelse` of xv6/bio.c leaves, over a coherent cache.
use fscq.Base.{
  ℕ, ◌≡◌, refl, ◌≢◌, inl, inr, true, false, arith, Option-cases, List, [], ◌∷◌, contains, sym, ◌∙◌,
}
use fscq.Machine.{Sys, ok, upd}
use fscq.Bio.{find_cached, to_front, brelse}
use fscq.Bio.View.{
  no_dev, view, IsCoherent, find_cached-some, find_cached-none, find_cached_unique,
  find_cached-absent,
}

-- The list after a buffer of it went to its front has the same buffers.
contains-to_front :
    (i j : ℕ) (is : List ℕ) → contains i is ≡ true → contains j (to_front i is) ≡ contains j is
contains-to_front i j [] m = cc
contains-to_front i j (k ∷ is) m = ground (arith, contains-to_front i j is)

-- `brelse` on a buffer in use: the result.
brelse-busy :
    (s : Sys) (i : ℕ)
    → (s.cache.buf i).busy ≡ true
    → brelse i s
      ≡ ok tt (record s {
        cache = record {
          buf = upd s.cache.buf i (record (s.cache.buf i) { busy = false });
          order = to_front i s.cache.order;
        };
      })
unfolding brelse
brelse-busy s i busy = rw busy refl

-- What `brelse` does: the buffer is free, and the cache stands for the same blocks.
pub record Releases (s : Sys) (i : ℕ) (t : Sys) : Type 0 where
  pub free : (t.cache.buf i).busy ≡ false
  pub first : t.cache.order ≡ to_front i s.cache.order
  pub same_view : (d x : ℕ) → d ≢ no_dev → view t d x ≡ view s d x
  pub same_disk : t.disk ≡ s.disk
  pub same_log : t.log ≡ s.log
  pub coherent : IsCoherent t
  pub others : (j : ℕ) → j ≢ i → t.cache.buf j ≡ s.cache.buf j
  pub same_list : (j : ℕ) → contains j t.cache.order ≡ contains j s.cache.order
  pub same_trace : t.trace ≡ s.trace
  pub same_image : t.image_blocks ≡ s.image_blocks
  pub same_inode : t.inode ≡ s.inode
  pub same_file : t.file ≡ s.file

abbrev released : Sys → ℕ → Sys
released s i = record s {
  cache = record {
    buf = upd s.cache.buf i (record (s.cache.buf i) { busy = false });
    order = to_front i s.cache.order;
  };
}

module _ (s : Sys) (i : ℕ) (c : IsCoherent s) (in_list : contains i s.cache.order ≡ true) where
  released_search :
      (d x : ℕ)
      → d ≢ no_dev
      → find_cached (released s i).cache.buf d x (to_front i s.cache.order)
        ≡ find_cached s.cache.buf d x s.cache.order
  released_search d x hd = elim (Option-cases (find_cached s.cache.buf d x s.cache.order)) [
    | inl miss ↦
        find_cached-absent _ d x _ (λ k m. ground (
          arith,
          contains-to_front i k s.cache.order in_list,
          find_cached-none s.cache.buf d x s.cache.order k miss,
        ))
        ∙ sym miss
    | inr (j, hit) ↦
        let (mj, hj) = find_cached-some s.cache.buf d x s.cache.order j hit in
        find_cached_unique _ d x _ j (contains-to_front i j s.cache.order in_list ∙ mj)
          (ground (arith, hj))
          (λ k m h.
            c.unique d x k j hd (sym (contains-to_front i k s.cache.order in_list) ∙ m) mj
              (ground (arith, h)) hj)
        ∙ sym hit
  ]

  -- Over a coherent cache, `brelse` of a buffer of the list that is in use, and that is dirty
  -- or as the disk has it, returns: the buffer is free and first in the list, every block reads
  -- as before, disk, trace, log and the other buffers are the same, and the cache is coherent.
  pub brelse-Releases :
      (s.cache.buf i).busy ≡ true
      → ((s.cache.buf i).dirty ≡ false → (s.cache.buf i).bytes ≡ s.disk (s.cache.buf i).sector)
      → (t : Sys) × (brelse i s ≡ ok tt t) × Releases s i t
  unfolding view
  brelse-Releases busy settled = (
    released s i,
    brelse-busy s i busy,
    record {
      free = ground arith;
      first = refl;
      same_view = λ d x hd.
          rw (released_search d x hd)
            (elim (Option-cases (find_cached s.cache.buf d x s.cache.order)) [
              | inl miss ↦ rw miss refl
              | inr (j, hit) ↦ rw hit (ground arith)
            ]);
      same_disk = refl;
      same_log = refl;
      others = λ j ne. ground arith;
      same_list = λ j. contains-to_front i j s.cache.order in_list;
      same_trace = refl;
      same_image = refl;
      same_inode = refl;
      same_file = refl;
      coherent = record {
        unique = λ d x j k hd mj mk hj hk.
            c.unique d x j k hd (sym (contains-to_front i j s.cache.order in_list) ∙ mj)
              (sym (contains-to_front i k s.cache.order in_list) ∙ mk) (ground (arith, hj))
              (ground (arith, hk));
        one_device = λ j h. ground (arith, h, c.one_device j);
        dirty_valid = λ j h. ground (arith, h, c.dirty_valid j);
        clean = λ j m h1 h2 h3. ground (
          arith,
          h1,
          h2,
          h3,
          c.clean j (sym (contains-to_front i j s.cache.order in_list) ∙ m),
          settled,
        );
      };
    },
  )
