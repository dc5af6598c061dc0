-- ===== src/Log/Update/Header.antt =====
-- The header after `log_write` of a block, for the state that `commit` of xv6/log.c starts from.
use fscq.Base.{ℕ, ◌+◌, ◌≤◌, ◌<◌, ◌≡◌, ◌≢◌, ◌⊎◌, inl, inr, arith, ltb, Bool-cases, sym, ◌∙◌, subst}
use fscq.Machine.{LogHeader}
use fscq.Log.{log_sector}
use fscq.Log.Header.{log_sector-Enters}
use fscq.Log.Crash.Recovery.{IsUnlogged}

module _ (x : ℕ) (lh : LogHeader) where
  abbrev new : LogHeader
  new = log_sector x lh

  pub new_count : new.n ≤ lh.n + 1
  new_count = let e = log_sector-Enters x lh in ground (arith, e.grows)

  -- Each entry is an old one, or the block.
  pub old_or_new :
      (i : ℕ) → i < new.n → (new.sector i ≡ x) ⊎ ((i < lh.n) × (new.sector i ≡ lh.sector i))
  old_or_new i lt =
      let e = log_sector-Enters x lh in
      elim (Bool-cases (ltb i lh.n)) [
        | inl old ↦ inr (ground arith, e.kept i (ground arith))
        | inr last ↦ elim e.grows [
          | inl (same, _, _) ↦ absurd (ground arith)
          | inr (grown, none) ↦ elim (Bool-cases (ltb e.index lh.n)) [
            | inl before ↦
                let lt' : e.index < lh.n = ground arith in
                absurd (none e.index lt' (sym (e.kept e.index lt') ∙ e.entered))
            | inr after ↦
                let own : e.index ≡ i = ground (arith, e.index_lt) in
                inl (subst (λ j. new.sector j ≡ x) own e.entered)
          ]
        ]
      ]

  -- What is not in the new header is not the block, and was not in the old one.
  pub IsUnlogged-ne : (z : ℕ) → IsUnlogged new z → z ≢ x
  IsUnlogged-ne z none q =
      let e = log_sector-Enters x lh in none e.index e.index_lt (e.entered ∙ sym q)

  pub IsUnlogged-before : (z : ℕ) → IsUnlogged new z → IsUnlogged lh z
  IsUnlogged-before z none i lt q =
      let e = log_sector-Enters x lh in none i (ground (arith, e.grows)) (e.kept i lt ∙ q)
