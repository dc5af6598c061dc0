-- ===== src/Memory/Fields.antt =====
-- Little-endian fields of 16 and 32 bits: a load after a store.
use fscq.Base.{ℕ, ◌+◌, ◌≤◌, ◌<◌, ◌≡◌, ◌⊎◌, arith}
use fscq.Memory.{Bytes, get16, get32, put16, put32}

module _ (p : Bytes) (at v : ℕ) where
  pub get16-put16 : v < 65536 → get16 (put16 p at v) at ≡ v
  unfolding get16 put16
  get16-put16 h = ground arith

  pub get32-put32 : v < 4294967296 → get32 (put32 p at v) at ≡ v
  unfolding get32 put32
  get32-put32 h = ground arith

  pub get16-put16_ne : (a : ℕ) → (a + 2 ≤ at) ⊎ (at + 2 ≤ a) → get16 (put16 p at v) a ≡ get16 p a
  unfolding get16 put16
  get16-put16_ne a h = ground arith

  pub get32-put16_ne : (a : ℕ) → (a + 4 ≤ at) ⊎ (at + 2 ≤ a) → get32 (put16 p at v) a ≡ get32 p a
  unfolding get32 put16
  get32-put16_ne a h = ground arith

  pub get16-put32_ne : (a : ℕ) → (a + 2 ≤ at) ⊎ (at + 4 ≤ a) → get16 (put32 p at v) a ≡ get16 p a
  unfolding get16 put32
  get16-put32_ne a h = ground arith

  pub get32-put32_ne : (a : ℕ) → (a + 4 ≤ at) ⊎ (at + 4 ≤ a) → get32 (put32 p at v) a ≡ get32 p a
  unfolding get32 put32
  get32-put32_ne a h = ground arith
