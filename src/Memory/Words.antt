-- ===== src/Memory/Words.antt =====
-- Runs of 32-bit words: a load after the stores.
use fscq.Base.{
  ℕ, zero, suc, ◌+◌, ◌*◌, ◌≤◌, ◌<◌, ◌≡◌, refl, ◌⊎◌, inl, inr, arith, ◌==◌, if◌then◌else◌,
  Bool-cases, subst, ltb, ==_iff,
}
use fscq.Memory.{Bytes, get16, get32, put32, get_words, put_words}
use fscq.Memory.Fields.{get32-put32, get32-put32_ne, get16-put32_ne}

module _ (words : ℕ → ℕ) (at : ℕ) where
  pub get32-put_words_ne :
      (n : ℕ) (p : Bytes) (a : ℕ)
      → (a + 4 ≤ at) ⊎ (at + 4 * n ≤ a)
      → get32 (put_words words at n p) a ≡ get32 p a
  unfolding put_words
  get32-put_words_ne zero p a h = refl
  get32-put_words_ne (suc n) p a h = ground (
    arith,
    get32-put32_ne (put_words words at n p) (at + 4 * n) (words n) a,
    get32-put_words_ne n p a,
  )

  pub get16-put_words_ne :
      (n : ℕ) (p : Bytes) (a : ℕ)
      → (a + 2 ≤ at) ⊎ (at + 4 * n ≤ a)
      → get16 (put_words words at n p) a ≡ get16 p a
  unfolding put_words
  get16-put_words_ne zero p a h = refl
  get16-put_words_ne (suc n) p a h = ground (
    arith,
    get16-put32_ne (put_words words at n p) (at + 4 * n) (words n) a,
    get16-put_words_ne n p a,
  )

  -- The word that was stored last, at an index that is known to be its.
  last_word :
      (p : Bytes) (n i : ℕ)
      → i ≡ n
      → words i < 4294967296
      → get32 (put32 p (at + 4 * n) (words n)) (at + 4 * i) ≡ words i
  last_word p n i e small =
      subst (λ m. get32 (put32 p (at + 4 * m) (words m)) (at + 4 * i) ≡ words i) e
        (get32-put32 p (at + 4 * i) (words i) small)

  pub get32-put_words :
      (n : ℕ) (p : Bytes) (i : ℕ)
      → i < n
      → words i < 4294967296
      → get32 (put_words words at n p) (at + 4 * i) ≡ words i
  unfolding put_words
  get32-put_words zero p i h small = elim h [ ]
  get32-put_words (suc n) p i h small = elim (Bool-cases (i == n)) [
    | inl last ↦ last_word (put_words words at n p) n i ((==_iff i n).0 last) small
    | inr before ↦ ground (
      arith,
      get32-put32_ne (put_words words at n p) (at + 4 * n) (words n) (at + 4 * i),
      get32-put_words n p i,
    )
  ]

-- The words that `get_words` has read are those of the buffer, and the others are the old ones.
pub get_words_lem :
    (p : Bytes) (at n : ℕ) (old : ℕ → ℕ) (i : ℕ)
    → get_words p at n old i ≡ (if ltb i n then get32 p (at + 4 * i) else old i)
unfolding get_words
get_words_lem p at zero old i = ground arith
get_words_lem p at (suc n) old i = elim (Bool-cases (i == n)) [
  | inl e ↦ rw ((==_iff i n).0 e) (ground arith)
  | inr ne ↦ ground (arith, get_words_lem p at n old i)
]
