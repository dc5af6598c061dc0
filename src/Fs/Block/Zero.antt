-- ===== src/Fs/Block/Zero.antt =====
-- `bzero` of xv6/fs.c within a transaction.
use fscq.Base.{ℕ, ◌<◌, ◌≡◌, refl, sym, ap, ◌∙◌, subst, arith}
use fscq.Memory.{Bytes, memset}
use fscq.Params.{bsize, rootdev}
use fscq.Machine.{Sys}
use fscq.Machine.Post.{Post, weaken-Post}
use fscq.Bio.View.{view}
use fscq.Log.Update.{CanLog, Logs}
use fscq.Log.Update.Block.{change_block-Post}
use fscq.Fs.Block.{bzero}

-- Block `x` reads as zeroes, and is logged.
pub record Zeroes (s : Sys) (x : ℕ) (t : Sys) : Type 0 where
  pub logs : Logs s x (view t rootdev x) t
  pub zero_bytes : (j : ℕ) → j < bsize → view t rootdev x j ≡ 0

memset-zero : (b : Bytes) (j : ℕ) → j < bsize → memset b 0 0 bsize j ≡ 0
unfolding memset
memset-zero b j lt = ground arith

Logs-Zeroes :
    (s : Sys) (x : ℕ) (t : Sys) → Logs s x (memset (view s rootdev x) 0 0 bsize) t → Zeroes s x t
Logs-Zeroes s x t h = record {
  logs = subst (λ b. Logs s x b t) (sym h.new_view) h;
  zero_bytes = λ j lt. ap (λ (b : Bytes). b j) h.new_view ∙ memset-zero (view s rootdev x) j lt;
}

-- In a transaction with room for one block more, `bzero` of a block of the root device below the
-- log area returns, or stops with nothing changed for want of a free buffer. When it returns, the
-- block reads as zeroes and is logged, every other block reads as before, nothing has gone to the
-- disk, and the state can commit.
pub bzero-Zeroes :
    (s : Sys) (x : ℕ)
    → CanLog s x
    → x < 4294967296
    → Post (λ _ t. Zeroes s x t) (λ t. t ≡ s) (bzero rootdev x s)
unfolding bzero
bzero-Zeroes s x c small =
    weaken-Post (bzero rootdev x s)
      (change_block-Post s rootdev x (λ b. memset b 0 0 bsize) c small refl)
      (λ _ t h. Logs-Zeroes s x t h) (λ t e. e)
