-- ===== src/Fs/Block/Bitmap.antt =====
-- The bits of a bitmap block, as `balloc` and `bfree` of xv6/fs.c read and change them.
use fscq.Base.{
  ℕ, zero, suc, ◌+◌, ◌/◌, ◌%◌, ◌≤◌, ◌<◌, ◌≡◌, refl, true, false, Option, none, some, arith, ◌==◌,
  if◌then◌else◌, Bool-cases, inl, inr, holds_below, holds_below_lem, iff, iff_lem, subst, ==_iff,
}
use fscq.Memory.{Bytes, set_byte, test_bit, set_bit, clear_bit}
use fscq.Fs.Block.{in_use, mark, unmark, find_bit}

-- The laws of one byte, at every byte and at every pair of its bits.
set_table :
    holds_below 256 (λ x. holds_below 8 (λ k.
      holds_below 8 (λ j. iff (test_bit (set_bit x k) j) (if j == k then true else test_bit x j))))
    ≡ true
unfolding holds_below test_bit set_bit
set_table = refl

clear_table :
    holds_below 256 (λ x. holds_below 8 (λ k.
      holds_below 8
        (λ j. iff (test_bit (clear_bit x k) j) (if j == k then false else test_bit x j))))
    ≡ true
unfolding holds_below test_bit clear_bit
clear_table = refl

undo_table :
    holds_below 256
      (λ x. holds_below 8 (λ k. if test_bit x k then true else clear_bit (set_bit x k) k == x))
    ≡ true
unfolding holds_below test_bit clear_bit set_bit
undo_table = refl

module _ (x k : ℕ) (hx : x < 256) (hk : k < 8) where
  test_bit-set_bit :
      (j : ℕ) → j < 8 → test_bit (set_bit x k) j ≡ (if j == k then true else test_bit x j)
  test_bit-set_bit j hj =
      iff_lem _ _
        (holds_below_lem 8 _ j (holds_below_lem 8 _ k (holds_below_lem 256 _ x set_table hx) hk) hj)

  test_bit-clear_bit :
      (j : ℕ) → j < 8 → test_bit (clear_bit x k) j ≡ (if j == k then false else test_bit x j)
  test_bit-clear_bit j hj =
      iff_lem _ _ (
        holds_below_lem 8 _ j (holds_below_lem 8 _ k (holds_below_lem 256 _ x clear_table hx) hk)
          hj)

  clear_bit-set_bit : test_bit x k ≡ false → clear_bit (set_bit x k) k ≡ x
  clear_bit-set_bit free = ground (
    arith,
    holds_below_lem 8 (λ (k : ℕ). if test_bit x k then true else clear_bit (set_bit x k) k == x) k
        (holds_below_lem 256 _ x undo_table hx) hk,
  )

-- Two bit numbers are one if byte and bit of the byte agree.
same_bit : (bi bj : ℕ) → bi / 8 ≡ bj / 8 → bi % 8 ≡ bj % 8 → bi ≡ bj
same_bit bi bj p q = omega arith

-- The mark of a bit and its removal give the bitmap block back, if the bit was clear.
unmark-mark :
    (b : Bytes) (bi : ℕ)
    → b (bi / 8) < 256
    → in_use b bi ≡ false
    → (i : ℕ) → unmark bi (mark bi b) i ≡ b i
unfolding in_use mark unmark set_byte
unmark-mark b bi byte free i =
    ground (arith, clear_bit-set_bit (b (bi / 8)) (bi % 8) byte (omega arith))

module _ (b : Bytes) (bi : ℕ) (byte : b (bi / 8) < 256) where
  -- In a block of bytes, `mark` sets its bit and leaves every other bit as it is.
  pub in_use-mark : (bj : ℕ) → in_use (mark bi b) bj ≡ (if bj == bi then true else in_use b bj)
  unfolding in_use mark set_byte
  in_use-mark bj = ground (
    arith,
    test_bit-set_bit (b (bi / 8)) (bi % 8) byte (omega arith) (bj % 8) (omega arith),
    same_bit bi bj,
  )

  -- In a block of bytes, `unmark` clears its bit and leaves every other bit as it is.
  pub in_use-unmark : (bj : ℕ) → in_use (unmark bi b) bj ≡ (if bj == bi then false else in_use b bj)
  unfolding in_use unmark set_byte
  in_use-unmark bj = ground (
    arith,
    test_bit-clear_bit (b (bi / 8)) (bi % 8) byte (omega arith) (bj % 8) (omega arith),
    same_bit bi bj,
  )

-- The scan from `bi` for `k` rounds returns a bit that is free, and all before it are in use; or
-- it returns nothing, and all `k` are in use.
abbrev pub FirstFree : Bytes → ℕ → ℕ → Option ℕ → Type 0
FirstFree b bi k none = (j : ℕ) → bi ≤ j → j < bi + k → in_use b j ≡ true
FirstFree b bi k (some r) =
    (bi ≤ r) × (r < bi + k) × (in_use b r ≡ false) × ((j : ℕ) → bi ≤ j → j < r → in_use b j ≡ true)

-- A bit in use before a scan joins the bits that the scan has found in use.
in_use_from :
    (b : Bytes) (bi j : ℕ)
    → in_use b bi ≡ true
    → (bi + 1 ≤ j → in_use b j ≡ true)
    → bi ≤ j
    → in_use b j ≡ true
in_use_from b bi j used rest h = elim (Bool-cases (bi == j)) [
  | inl e ↦ subst (λ i. in_use b i ≡ true) ((==_iff bi j).0 e) used
  | inr ne ↦ rest (ground arith)
]

FirstFree-step :
    (b : Bytes) (bi k : ℕ) (o : Option ℕ)
    → in_use b bi ≡ true
    → FirstFree b (bi + 1) k o
    → FirstFree b bi (suc k) o
FirstFree-step b bi k none used h = λ j p q. in_use_from b bi j used (λ p'. h j p' (omega arith)) p
FirstFree-step b bi k (some r) used (lo, hi, free, before) =
    (omega arith, omega arith, free, λ j p q. in_use_from b bi j used (λ p'. before j p' q) p)

-- The scan of `balloc` over a bitmap block, from bit `bi` for `k` rounds, returns a bit in this
-- range that is free, and all before it are in use; or it returns nothing, and all `k` are in
-- use.
pub find_bit-FirstFree : (b : Bytes) (k bi : ℕ) → FirstFree b bi k (find_bit b bi k)
unfolding find_bit
find_bit-FirstFree b zero bi = λ j p q. absurd (omega arith)
find_bit-FirstFree b (suc k) bi = elim (Bool-cases (in_use b bi)) [
  | inl used ↦ rw used (FirstFree-step b bi k _ used (find_bit-FirstFree b k (bi + 1)))
  | inr free ↦ rw free (omega arith, omega arith, free, λ j p q. absurd (omega arith))
]
