-- ===== src/Log/Crash/Recovery.antt =====
-- What the recovery of xv6/log.c makes of a disk, by the header that `write_head` has put there.
use fscq.Base.{
  ℕ, zero, suc, ◌+◌, ◌*◌, ◌≤◌, ◌<◌, ◌≡◌, refl, ◌≢◌, ◌⊎◌, inl, inr, arith, ◌==◌, Bool-cases, ==_iff,
  ◌∙◌, sym, subst,
}
use fscq.Memory.{Bytes, get32, put32}
use fscq.Memory.Fields.{get32-put32}
use fscq.Memory.Words.{get32-put_words, get32-put_words_ne}
use fscq.Params.{logsize}
use fscq.Machine.{LogHeader}
use fscq.Log.{header_count, put_header}
use fscq.Log.Header.{IsHeader}
use fscq.Log.Crash.{logged_block, recovered}

header_count-put_header :
    (lh : LogHeader) (b : Bytes) → lh.n ≤ logsize → header_count (put_header lh b) ≡ lh.n
unfolding put_header
header_count-put_header lh b fits =
    ground (arith, get32-put_words_ne lh.sector 4 lh.n (put32 b 0 lh.n) 0, get32-put32 b 0 lh.n)

get32-put_header :
    (lh : LogHeader) (b : Bytes) (i : ℕ)
    → i < lh.n
    → lh.sector i < 4294967296
    → get32 (put_header lh b) (4 + 4 * i) ≡ lh.sector i
unfolding put_header
get32-put_header lh b i h small = get32-put_words lh.sector 4 lh.n (put32 b 0 lh.n) i h small

-- No entry of the header is sector `x`.
abbrev pub IsUnlogged : LogHeader → ℕ → Type 0
IsUnlogged lh x = (i : ℕ) → i < lh.n → lh.sector i ≢ x

-- A header that counts no block leaves the disk as it is.
pub recovered-none :
    (start : ℕ) (d : ℕ → Bytes) (x : ℕ) → header_count (d start) ≡ 0 → recovered start d x ≡ d x
unfolding recovered logged_block
recovered-none start d x e = rw e refl

-- The header block `b` of a disk stands for the header `lh`.
pub record Names (b : Bytes) (lh : LogHeader) : Type 0 where
  pub count : header_count b ≡ lh.n
  pub entries : (i : ℕ) → i < lh.n → get32 b (4 + 4 * i) ≡ lh.sector i

pub put_header-Names : (lh : LogHeader) (b : Bytes) → IsHeader lh → Names (put_header lh b) lh
put_header-Names lh b h = record {
  count = header_count-put_header lh b h.fits;
  entries = λ i p. get32-put_header lh b i p (h.in_range i p);
}

module _ (start : ℕ) (d v : ℕ → Bytes) (lh : LogHeader) (h : Names (d start) lh)
    (copies : (i : ℕ) → i < lh.n → d (start + i + 1) ≡ v (lh.sector i)) where
  logged_block_lem :
      (k x : ℕ)
      → k ≤ lh.n
      → (logged_block start d k x ≡ v x)
        ⊎ ((logged_block start d k x ≡ d x) × ((i : ℕ) → i < k → lh.sector i ≢ x))
  unfolding logged_block
  logged_block_lem zero x le = inr (refl, λ i p. absurd (omega arith))
  logged_block_lem (suc k) x le = elim (Bool-cases (lh.sector k == x)) [
    | inl hit ↦ inl (
        rw (h.entries k (omega arith), hit) (copies k (omega arith) ∙ rw ((==_iff _ x).0 hit) refl))
    | inr miss ↦ elim (logged_block_lem k x (omega arith)) [
      | inl e ↦ inl (rw (h.entries k (omega arith), miss) e)
      | inr (e, none) ↦ inr (
        rw (h.entries k (omega arith), miss) e,
        λ i p. elim (Bool-cases (i == k)) [
          | inl own ↦ ground arith
          | inr other ↦ none i (ground arith)
        ],
      )
    ]
  ]

  -- A header of the disk with its logged copies in place: each block that it names is its
  -- copy, and each other block is as the disk has it.
  pub recovered-logged : (x : ℕ) → (IsUnlogged lh x → d x ≡ v x) → recovered start d x ≡ v x
  unfolding recovered
  recovered-logged x other =
      rw h.count (elim (logged_block_lem lh.n x (omega arith)) [
        | inl e ↦ e
        | inr (e, none) ↦ e ∙ other none
      ])

-- The blocks that a header with distinct sectors gives.
module _ (start : ℕ) (d : ℕ → Bytes) (lh : LogHeader) (h : Names (d start) lh)
    (distinct : (i j : ℕ) → i < lh.n → j < lh.n → lh.sector i ≡ lh.sector j → i ≡ j) where
  logged_block-copy :
      (k i : ℕ) → k ≤ lh.n → i < k → logged_block start d k (lh.sector i) ≡ d (start + i + 1)
  unfolding logged_block
  logged_block-copy zero i le lt = absurd (omega arith)
  logged_block-copy (suc k) i le lt = elim (Bool-cases (lh.sector k == lh.sector i)) [
    | inl hit ↦
        let e : k ≡ i = distinct k i (omega arith) (omega arith) ((==_iff _ _).0 hit) in
        rw (h.entries k (omega arith), hit, e) refl
    | inr miss ↦
        rw (h.entries k (omega arith), miss) (logged_block-copy k i (omega arith) (ground arith))
  ]

  logged_block-other : (k x : ℕ) → k ≤ lh.n → IsUnlogged lh x → logged_block start d k x ≡ d x
  unfolding logged_block
  logged_block-other zero x le none = refl
  logged_block-other (suc k) x le none = elim (Bool-cases (lh.sector k == x)) [
    | inl hit ↦ absurd (none k (omega arith) ((==_iff _ x).0 hit))
    | inr miss ↦ rw (h.entries k (omega arith), miss) (logged_block-other k x (omega arith) none)
  ]

  pub recovered-copy : (i : ℕ) → i < lh.n → recovered start d (lh.sector i) ≡ d (start + i + 1)
  unfolding recovered
  recovered-copy i lt = rw h.count (logged_block-copy lh.n i (omega arith) lt)

  pub recovered-other : (x : ℕ) → IsUnlogged lh x → recovered start d x ≡ d x
  unfolding recovered
  recovered-other x none = rw h.count (logged_block-other lh.n x (omega arith) none)

-- A header block with which a recovery can start: no more entries than `lh.sector` has room for,
-- and than the image has copies of, which name distinct blocks below the log area.
pub record NamesBlocks (start image_blocks : ℕ) (b : Bytes) : Type 0 where
  pub fits : header_count b ≤ logsize
  pub distinct :
      (i j : ℕ)
      → i < header_count b
      → j < header_count b
      → get32 b (4 + 4 * i) ≡ get32 b (4 + 4 * j)
      → i ≡ j
  pub home : (i : ℕ) → i < header_count b → get32 b (4 + 4 * i) < start
  pub inside : start + header_count b < image_blocks

pub Names-NamesBlocks :
    (start image_blocks : ℕ) (b : Bytes) (lh : LogHeader)
    → IsHeader lh
    → Names b lh
    → ((i : ℕ) → i < lh.n → lh.sector i < start)
    → start + lh.n < image_blocks
    → NamesBlocks start image_blocks b
Names-NamesBlocks start image_blocks b lh h names home inside = record {
  fits = rw names.count h.fits;
  distinct = λ i j p q e.
      let p' : i < lh.n = subst (λ n. i < n) names.count p in
      let q' : j < lh.n = subst (λ n. j < n) names.count q in
      h.distinct i j p' q' (sym (names.entries i p') ∙ e ∙ names.entries j q');
  home = λ i p.
      let p' : i < lh.n = subst (λ n. i < n) names.count p in rw (names.entries i p') (home i p');
  inside = rw names.count inside;
}

-- One that counts no block is such a block.
pub NamesBlocks-none :
    (start image_blocks : ℕ) (b : Bytes)
    → header_count b ≡ 0
    → start < image_blocks
    → NamesBlocks start image_blocks b
NamesBlocks-none start image_blocks b e inside = record {
  fits = rw e (omega arith);
  distinct = λ i j p q _. absurd (omega arith);
  home = λ i p. absurd (omega arith);
  inside = rw e (omega arith);
}

-- A header that counts no block, once written.
pub header_count-cleared :
    (lh : LogHeader) (b : Bytes) → lh.n ≡ 0 → header_count (put_header lh b) ≡ 0
header_count-cleared lh b e = header_count-put_header lh b (omega arith) ∙ e
