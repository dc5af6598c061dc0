-- ===== src/Bio/Replace.antt =====
-- A free buffer of the cache of xv6/bio.c that is given another block.
use fscq.Base.{
  ℕ, ◌≡◌, refl, ◌≢◌, ◌⊎◌, inl, inr, true, false, ◌||◌, arith, ◌==◌, if◌then◌else◌, Bool-cases,
  Option-cases, ==_iff, ==_self, none, some, List, [], ◌∷◌, ◌++◌, contains, reverse, ap, sym, ◌∙◌,
}
use mathlib.Core.List.{reverse-cons}
use fscq.Params.{rootdev}
use fscq.Machine.{Buf, Sys, Stats, upd}
use fscq.Bio.{holds, find_cached, is_free}
use fscq.Bio.View.{
  no_dev, view, block_in, IsCoherent, find_cached-some, find_cached-none, find_cached_unique,
  find_cached-absent, find_cached-same,
}
use fscq.Bio.Steps.{with_buf}

contains-append :
    (i : ℕ) (xs ys : List ℕ) → contains i (xs ++ ys) ≡ (contains i xs || contains i ys)
contains-append i [] ys = refl
contains-append i (x ∷ xs) ys = ground (arith, contains-append i xs ys)

pub contains-reverse : (i : ℕ) (xs : List ℕ) → contains i (reverse xs) ≡ contains i xs
contains-reverse i [] = refl
contains-reverse i (x ∷ xs) =
    ap (contains i) (reverse-cons x xs)
    ∙ contains-append i (reverse xs) (x ∷ [])
    ∙ ground (arith, contains-reverse i xs)

-- The cache after a block was found in buffer `i`, whose new contents are `b`.
module _ (s : Sys) (c : IsCoherent s) (i : ℕ) (b : Buf) (st : Stats)
    (same_dev : b.dev ≡ (s.cache.buf i).dev) (same_sector : b.sector ≡ (s.cache.buf i).sector)
    (is_valid : b.valid ≡ true) where
  pub view-found :
      b.bytes
        ≡ (if (s.cache.buf i).valid then (s.cache.buf i).bytes else s.disk (s.cache.buf i).sector)
      → (dev sector : ℕ) → view (with_buf s i b st) dev sector ≡ view s dev sector
  unfolding view
  view-found eb dev sector =
      rw
        (find_cached-same s.cache.buf (upd s.cache.buf i b) dev sector s.cache.order
          (λ j. ground arith))
        (elim (Option-cases (find_cached s.cache.buf dev sector s.cache.order)) [
          | inl miss ↦ rw miss refl
          | inr (j, hit) ↦
              rw hit (ground (arith, find_cached-some s.cache.buf dev sector s.cache.order j hit))
        ])

  pub IsCoherent-found : b.busy ≡ true → b.dev ≡ rootdev → IsCoherent (with_buf s i b st)
  IsCoherent-found busy root = record {
    one_device = λ j h. ground (arith, h, c.one_device j);
    unique = λ d t j k hd mj mk hj hk.
        c.unique d t j k hd mj mk (ground (arith, hj)) (ground (arith, hk));
    dirty_valid = λ j h. ground (arith, h, c.dirty_valid j);
    clean = λ j m h1 h2 h3. ground (arith, h1, h2, h3, c.clean j m);
  }

-- The cache after buffer `i`, which was free, has been given to a block that no buffer held.
module _ (s : Sys) (c : IsCoherent s) (i : ℕ) (b : Buf) (st : Stats)
    (in_list : contains i s.cache.order ≡ true) (free : is_free (s.cache.buf i) ≡ true)
    (miss : find_cached s.cache.buf b.dev b.sector s.cache.order ≡ none) where
  -- Another buffer that holds a block held it before, and it is not the new one.
  held_before :
      (dev sector j : ℕ)
      → contains j s.cache.order ≡ true
      → holds dev sector (upd s.cache.buf i b j) ≡ true
      → ((j ≡ i) × (b.dev ≡ dev) × (b.sector ≡ sector))
        ⊎ ((j ≢ i) × (holds dev sector (s.cache.buf j) ≡ true) × (holds dev sector b ≡ false))
  held_before dev sector j m h =
      ground (arith, find_cached-none s.cache.buf b.dev b.sector s.cache.order j miss m)

  pub IsCoherent-replaced :
      b.dev ≡ rootdev → b.busy ≡ true → b.valid ≡ true → IsCoherent (with_buf s i b st)
  IsCoherent-replaced root busy valid = record {
    one_device = λ j h. ground (arith, h, c.one_device j);
    unique = λ d t j k h mj mk hj hk.
        ground (arith, held_before d t j mj hj, held_before d t k mk hk, c.unique d t j k h mj mk);
    dirty_valid = λ j h. ground (arith, h, c.dirty_valid j);
    clean = λ j m h1 h2 h3. ground (arith, h1, h2, h3, c.clean j m);
  }

  -- Before, the buffer that was given away had what the disk has.
  view-given_away :
      (dev sector : ℕ)
      → holds dev sector (s.cache.buf i) ≡ true
      → block_in s.disk s.cache.buf sector (some i) ≡ s.disk sector
  view-given_away dev sector h = ground (arith, c.clean i in_list)

  -- The searches for another block: it is gone if it was in the buffer that was given away.
  search_gone :
      (dev sector : ℕ)
      → dev ≢ no_dev
      → holds dev sector b ≡ false
      → holds dev sector (s.cache.buf i) ≡ true
      → find_cached (upd s.cache.buf i b) dev sector s.cache.order ≡ none
  search_gone dev sector hd other held =
      find_cached-absent (upd s.cache.buf i b) dev sector s.cache.order λ k m.
        elim (Bool-cases (holds dev sector (upd s.cache.buf i b k))) [
          | inl h ↦
              absurd
                (ground (arith, held_before dev sector k m h, c.unique dev sector k i hd m in_list))
          | inr h ↦ h
        ]

  search_kept :
      (dev sector j : ℕ)
      → dev ≢ no_dev
      → holds dev sector b ≡ false
      → (j == i) ≡ false
      → find_cached s.cache.buf dev sector s.cache.order ≡ some j
      → find_cached (upd s.cache.buf i b) dev sector s.cache.order ≡ some j
  search_kept dev sector j hd other ne hit =
      let (m, h) = find_cached-some s.cache.buf dev sector s.cache.order j hit in
      find_cached_unique (upd s.cache.buf i b) dev sector s.cache.order j m (ground arith)
        λ k mk hk. ground (arith, held_before dev sector k mk hk, c.unique dev sector k j hd mk m)

  search_new :
      (dev sector : ℕ)
      → holds dev sector b ≡ true
      → (find_cached (upd s.cache.buf i b) dev sector s.cache.order ≡ some i)
        × (find_cached s.cache.buf dev sector s.cache.order ≡ none)
  search_new dev sector mine = (
    find_cached_unique (upd s.cache.buf i b) dev sector s.cache.order i in_list (ground arith)
        (λ j m h. ground (arith, held_before dev sector j m h)),
    ground arith,
  )

  search_none :
      (dev sector : ℕ)
      → holds dev sector b ≡ false
      → find_cached s.cache.buf dev sector s.cache.order ≡ none
      → find_cached (upd s.cache.buf i b) dev sector s.cache.order ≡ none
  search_none dev sector other before =
      find_cached-absent (upd s.cache.buf i b) dev sector s.cache.order
        λ j m. ground (arith, find_cached-none s.cache.buf dev sector s.cache.order j before m)

  pub view-replaced :
      b.valid ≡ true
      → b.bytes ≡ s.disk b.sector
      → (dev sector : ℕ) → dev ≢ no_dev
      → view (with_buf s i b st) dev sector ≡ view s dev sector
  unfolding view
  view-replaced valid eb dev sector hd = elim (Bool-cases (holds dev sector b)) [
    | inl mine ↦ let (e, e') = search_new dev sector mine in rw (e, e', ==_self) (ground arith)
    | inr other ↦ elim (Option-cases (find_cached s.cache.buf dev sector s.cache.order)) [
      | inl before ↦ rw (search_none dev sector other before, before) refl
      | inr (j, hit) ↦ elim (Bool-cases (j == i)) [
        | inl e ↦
            let held : holds dev sector (s.cache.buf i) ≡ true =
              ground (arith, find_cached-some s.cache.buf dev sector s.cache.order j hit) in
            rw (search_gone dev sector hd other held, hit, (==_iff j i).0 e)
              (sym (view-given_away dev sector held))
        | inr ne ↦ rw (search_kept dev sector j hd other ne hit, hit, ne) refl
      ]
    ]
  ]
