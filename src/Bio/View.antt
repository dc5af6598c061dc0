-- ===== src/Bio/View.antt =====
-- What the cache of xv6/bio.c stands for: a block of a device is its cached copy, if that is valid,
-- and else what the disk has.
use fscq.Base.{
  ℕ, ◌≡◌, refl, ◌≢◌, inl, inr, true, false, arith, if◌then◌else◌, Option-cases, Option, none, some,
  List, [], ◌∷◌, contains,
}
use fscq.Memory.{Bytes}
use fscq.Params.{rootdev}
use fscq.Machine.{Buf, Sys}
use fscq.Bio.{holds, find_cached, find_free, is_free}

-- The device number that `binit` gives a buffer that holds no block.
abbrev pub no_dev : ℕ
no_dev = 4294967295

abbrev pub block_in : (ℕ → Bytes) → (ℕ → Buf) → ℕ → Option ℕ → Bytes
block_in disk buf sector none = disk sector
block_in disk buf sector (some i) = if (buf i).valid then (buf i).bytes else disk sector

unfoldable pub view : Sys → ℕ → ℕ → Bytes
view s dev sector =
    block_in s.disk s.cache.buf sector (find_cached s.cache.buf dev sector s.cache.order)

-- No two buffers of the list hold the same block, and all blocks are of the root device. A dirty buffer is valid, and a buffer of the list
-- that is in nobody's hands and not dirty is as the disk has it.
pub record IsCoherent (s : Sys) : Type 0 where
  pub unique :
      (dev sector i j : ℕ)
      → dev ≢ no_dev
      → contains i s.cache.order ≡ true
      → contains j s.cache.order ≡ true
      → holds dev sector (s.cache.buf i) ≡ true
      → holds dev sector (s.cache.buf j) ≡ true
      → i ≡ j
  pub one_device : (i : ℕ) → (s.cache.buf i).valid ≡ true → (s.cache.buf i).dev ≡ rootdev
  pub dirty_valid : (i : ℕ) → (s.cache.buf i).dirty ≡ true → (s.cache.buf i).valid ≡ true
  pub clean :
      (i : ℕ)
      → contains i s.cache.order ≡ true
      → (s.cache.buf i).busy ≡ false
      → (s.cache.buf i).dirty ≡ false
      → (s.cache.buf i).valid ≡ true
      → (s.cache.buf i).bytes ≡ s.disk (s.cache.buf i).sector

module _ (buf : ℕ → Buf) (dev sector : ℕ) where
  -- The search stops at a buffer of the list that holds the block, and at none only if none does.
  pub find_cached-some :
      (is : List ℕ) (i : ℕ)
      → find_cached buf dev sector is ≡ some i
      → (contains i is ≡ true) × (holds dev sector (buf i) ≡ true)
  unfolding find_cached
  find_cached-some [] i e = cc
  find_cached-some (j ∷ is) i e = ground (arith, find_cached-some is i)

  pub find_cached-none :
      (is : List ℕ) (i : ℕ)
      → find_cached buf dev sector is ≡ none
      → contains i is ≡ true
      → holds dev sector (buf i) ≡ false
  unfolding find_cached
  find_cached-none [] i e m = cc
  find_cached-none (j ∷ is) i e m = ground (arith, find_cached-none is i)

  -- Where the buffer is the only one of its block, the search finds it.
  pub find_cached_unique :
      (is : List ℕ) (i : ℕ)
      → contains i is ≡ true
      → holds dev sector (buf i) ≡ true
      → ((j : ℕ) → contains j is ≡ true → holds dev sector (buf j) ≡ true → j ≡ i)
      → find_cached buf dev sector is ≡ some i
  find_cached_unique is i m h only = elim (Option-cases (find_cached buf dev sector is)) [
    | inl miss ↦ absurd (ground (arith, find_cached-none is i miss m))
    | inr (j, hit) ↦ ground (arith, find_cached-some is j hit, only j)
  ]

  -- A search in which no buffer holds the block finds none.
  pub find_cached-absent :
      (is : List ℕ)
      → ((j : ℕ) → contains j is ≡ true → holds dev sector (buf j) ≡ false)
      → find_cached buf dev sector is ≡ none
  find_cached-absent is absent = elim (Option-cases (find_cached buf dev sector is)) [
    | inl miss ↦ miss
    | inr (j, hit) ↦ absurd (ground (arith, find_cached-some is j hit, absent j))
  ]

-- Searches agree where the buffers hold the same blocks.
pub find_cached-same :
    (buf buf' : ℕ → Buf) (dev sector : ℕ) (is : List ℕ)
    → ((j : ℕ) → holds dev sector (buf' j) ≡ holds dev sector (buf j))
    → find_cached buf' dev sector is ≡ find_cached buf dev sector is
unfolding find_cached
find_cached-same buf buf' dev sector [] same = refl
find_cached-same buf buf' dev sector (j ∷ is) same =
    ground (arith, same j, find_cached-same buf buf' dev sector is same)

-- A buffer that the other search stops at is free, and stands in the list.
pub find_free-some :
    (buf : ℕ → Buf) (is : List ℕ) (i : ℕ)
    → find_free buf is ≡ some i
    → (contains i is ≡ true) × (is_free (buf i) ≡ true)
unfolding find_free
find_free-some buf [] i e = cc
find_free-some buf (j ∷ is) i e = ground (arith, find_free-some buf is i)
