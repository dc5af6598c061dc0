-- ===== src/Log/Commit.antt =====
-- `commit` of xv6/log.c: the states it starts from, and what it promises for a crash.
pub mod Again
pub mod Ends
pub mod Clear
pub mod Copies
pub mod Install
pub mod Steps
pub mod Atomic
use fscq.Base.{ℕ, zero, suc, ◌+◌, ◌<◌, ◌≡◌, ◌≢◌, ◌⊎◌, inl, inr, arith, ◌==◌, Bool-cases, ==_iff}
use fscq.Memory.{Bytes}
use fscq.Params.{rootdev}
use fscq.Machine.{Sys, LogHeader}
use fscq.Bio.View.{view}
use fscq.Log.{header_count}
use fscq.Log.Header.{IsHeader}
use fscq.Log.Copy.{IsQuiet}
use fscq.Log.Crash.{recovered}
use fscq.Log.Crash.Recovery.{IsUnlogged, NamesBlocks}

-- The blocks below the log area of the image, as a recovery from disk `d` makes them, are `v`.
unfoldable pub RecoversTo : ℕ → (ℕ → Bytes) → (ℕ → Bytes) → Type 0
RecoversTo start v d = (x : ℕ) → x < start → recovered start d x ≡ v x

-- A recovery can start from the disk, and it finds all changes of the transaction, or none.
unfoldable pub IsAtomic : Sys → (ℕ → Bytes) → Type 0
unfolding RecoversTo
IsAtomic s d =
    NamesBlocks s.log.start s.image_blocks (d s.log.start)
    × (RecoversTo s.log.start s.disk d ⊎ RecoversTo s.log.start (λ x. view s rootdev x) d)

-- A log between transactions: no buffer is in use, the header of the disk counts no block, the
-- blocks that the header in memory names lie below the log area, which the image has room for, and
-- every other block below it is on the disk as the cache has it.
pub record CanCommit (s : Sys) : Type 0 where
  pub quiet : IsQuiet s
  pub on_device : s.log.dev ≡ rootdev
  pub header : IsHeader s.log.lh
  pub home : (i : ℕ) → i < s.log.lh.n → s.log.lh.sector i < s.log.start
  pub inside : s.log.start + s.log.lh.n < s.image_blocks
  pub committed : header_count (s.disk s.log.start) ≡ 0
  pub settled : (x : ℕ) → x < s.log.start → IsUnlogged s.log.lh x → view s rootdev x ≡ s.disk x

-- A sector is in the header or not.
search_header :
    (sector : ℕ → ℕ) (x k : ℕ)
    → ((i : ℕ) × (i < k) × (sector i ≡ x)) ⊎ ((i : ℕ) → i < k → sector i ≢ x)
search_header sector x zero = inr (λ i p. absurd (omega arith))
search_header sector x (suc k) = elim (Bool-cases (sector k == x)) [
  | inl hit ↦ inl (k, omega arith, (==_iff _ x).0 hit)
  | inr miss ↦ elim (search_header sector x k) [
    | inl (i, p, e) ↦ inl (i, omega arith, e)
    | inr none ↦ inr λ i p. elim (Bool-cases (i == k)) [
      | inl own ↦ ground arith
      | inr other ↦ none i (ground arith)
    ]
  ]
]

pub logged-or-not :
    (lh : LogHeader) (x : ℕ) → ((i : ℕ) × (i < lh.n) × (lh.sector i ≡ x)) ⊎ IsUnlogged lh x
logged-or-not lh x = search_header lh.sector x lh.n
