-- ===== src/Log/Header.antt =====
-- The header of the log of xv6/log.c: its form on the disk, and its change by `log_write`.
use fscq.Base.{
  ℕ, zero, suc, ◌+◌, ◌≤◌, ◌<◌, ◌≡◌, ◌≢◌, ◌⊎◌, inl, inr, arith, ◌==◌, Bool-cases, ==_iff,
}
use fscq.Memory.{Bytes, put32, get_words, put_words}
use fscq.Memory.Fields.{get32-put32}
use fscq.Memory.Words.{get32-put_words, get32-put_words_ne, get_words_lem}
use fscq.Params.{logsize}
use fscq.Machine.{LogHeader}
use fscq.Log.{header_count, put_header, absorb_index, log_sector}

-- At most LOGSIZE sectors, all different, in 32 bits each.
pub record IsHeader (lh : LogHeader) : Type 0 where
  pub fits : lh.n ≤ logsize
  pub distinct : (i j : ℕ) → i < lh.n → j < lh.n → lh.sector i ≡ lh.sector j → i ≡ j
  pub in_range : (i : ℕ) → i < lh.n → lh.sector i < 4294967296

-- Of a header of at most LOGSIZE distinct sectors of 32 bits, which may be none, that
-- `write_head` has put in a block, `read_head` reads the count, and each of the sectors.
pub read-put_header :
    (lh : LogHeader) (b : Bytes) (old : ℕ → ℕ)
    → IsHeader lh
    → (header_count (put_header lh b) ≡ lh.n)
      × ((i : ℕ) → i < lh.n → get_words (put_header lh b) 4 lh.n old i ≡ lh.sector i)
unfolding put_header
read-put_header lh b old h = (
  ground
      (arith, h.fits, get32-put_words_ne lh.sector 4 lh.n (put32 b 0 lh.n) 0, get32-put32 b 0 lh.n),
  λ i hi. ground (
    arith,
    h.in_range i hi,
    get_words_lem (put_words lh.sector 4 lh.n (put32 b 0 lh.n)) 4 lh.n old i,
    get32-put_words lh.sector 4 lh.n (put32 b 0 lh.n) i hi,
  ),
)

-- The search stops at the first index from `i` on that has the sector, or at the end.
abbrev Stops : (ℕ → ℕ) → ℕ → ℕ → ℕ → ℕ → Type 0
Stops sector target i k r =
    (i ≤ r)
    × (r ≤ i + k)
    × (r < i + k → sector r ≡ target)
    × ((j : ℕ) → i ≤ j → j < r → sector j ≢ target)

absorb_index-Stops :
    (sector : ℕ → ℕ) (target k i : ℕ) → Stops sector target i k (absorb_index sector target i k)
unfolding absorb_index
absorb_index-Stops sector target zero i =
    (omega arith, omega arith, λ h. absurd (omega arith), λ j p q. absurd (omega arith))
absorb_index-Stops sector target (suc k) i = elim (Bool-cases (sector i == target)) [
  | inl hit ↦
      rw hit (omega arith, omega arith, λ h. (==_iff _ target).0 hit, λ j p q. absurd (omega arith))
  | inr miss ↦
      let (lo, hi, found, before) = absorb_index-Stops sector target k (i + 1) in
      rw miss (
        omega arith,
        omega arith,
        λ h. found (omega arith),
        λ j p q. elim (Bool-cases (i == j)) [
          | inl e ↦ ground arith
          | inr ne ↦ before j (ground arith) q
        ],
      )
]

-- The header after `log_write` of a sector: the sector is in it, every other entry is as it was,
-- and the count grows by one exactly if the sector was not in it.
pub record Enters (target : ℕ) (lh lh' : LogHeader) : Type 0 where
  pub index : ℕ
  pub index_lt : index < lh'.n
  pub entered : lh'.sector index ≡ target
  pub kept : (i : ℕ) → i < lh.n → lh'.sector i ≡ lh.sector i
  pub grows :
      ((lh'.n ≡ lh.n) × (lh.sector index ≡ target) × (index < lh.n))
      ⊎ ((lh'.n ≡ lh.n + 1) × ((i : ℕ) → i < lh.n → lh.sector i ≢ target))

-- After `log_write` the header has the sector at some index, every entry that it had is as it
-- was, and its count is the same if the sector was there, and one more if it was not.
pub log_sector-Enters : (target : ℕ) (lh : LogHeader) → Enters target lh (log_sector target lh)
unfolding log_sector
log_sector-Enters target lh =
    let (lo, hi, found, before) = absorb_index-Stops lh.sector target lh.n 0 in
    record {
      index = absorb_index lh.sector target 0 lh.n;
      index_lt = ground arith;
      entered = ground arith;
      kept = λ i h. ground (arith, h, found);
      grows = elim (Bool-cases (absorb_index lh.sector target 0 lh.n == lh.n)) [
        | inl last ↦ inr (ground arith, λ i p. before i (omega arith) (ground arith))
        | inr within ↦ inl (ground arith, found (ground arith), ground arith)
      ];
    }

-- A header with room, whose sectors are distinct and 32 bits wide, is again such a header after
-- `log_write` of a sector of 32 bits: absorption never enters a sector twice.
pub log_sector-IsHeader :
    (target : ℕ) (lh : LogHeader)
    → IsHeader lh
    → lh.n < logsize
    → target < 4294967296
    → IsHeader (log_sector target lh)
unfolding log_sector
log_sector-IsHeader target lh h room small =
    let (lo, hi, found, before) = absorb_index-Stops lh.sector target lh.n 0 in
    record {
      fits = ground arith;
      distinct = λ i j hi hj e. ground (
        arith,
        hi,
        hj,
        e,
        found,
        before i (omega arith),
        before j (omega arith),
        h.distinct i j,
        h.distinct (absorb_index lh.sector target 0 lh.n) j,
        h.distinct i (absorb_index lh.sector target 0 lh.n),
      );
      in_range = λ i p. ground (arith, p, h.in_range i);
    }
