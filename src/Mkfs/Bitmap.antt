-- ===== src/Mkfs/Bitmap.antt =====
-- The bitmap that xv6/mkfs.c writes, read as the bitmap code of xv6/fs.c reads it.
use fscq.Base.{
  ℕ, zero, suc, ◌+◌, ◌-◌, ◌/◌, ◌%◌, ◌≤◌, ◌<◌, ◌≡◌, refl, true, false, arith, ltb, if◌then◌else◌,
  some, ap, ◌∙◌, holds_below, holds_below_lem,
}
use fscq.Memory.{Bytes, zeroes, set_byte, test_bit, set_bit}
use fscq.Params.{bpb, bblock, logsize}
use fscq.Fs.Block.{in_use, mark}
use fscq.Fs.Block.Bitmap.{in_use-mark}
use fscq.Mkfs.{Image, used_bits, balloc, fs_size, ninodes, ninodeblocks, rsect, wsect}

used_bits-zero : used_bits 0 ≡ zeroes
unfolding used_bits
used_bits-zero = refl

-- Each round of `balloc` marks a block as the file system does.
used_bits-suc : (i : ℕ) → used_bits (suc i) ≡ mark i (used_bits i)
unfolding used_bits mark
used_bits-suc i = refl

set_bit_table : holds_below 256 (λ x. holds_below 8 (λ k. ltb (set_bit x k) 256)) ≡ true
unfolding holds_below set_bit
set_bit_table = refl

set_bit-lt : (x k : ℕ) → x < 256 → k < 8 → set_bit x k < 256
set_bit-lt x k hx hk = ground (
  arith,
  holds_below_lem 8 (λ (j : ℕ). ltb (set_bit x j) 256) k (holds_below_lem 256 _ x set_bit_table hx)
      hk,
)

pub used_bits-lt : (n i : ℕ) → used_bits n i < 256
unfolding used_bits set_byte
used_bits-lt zero i = omega arith
used_bits-lt (suc n) i = ground (
  arith,
  used_bits-lt n i,
  set_bit-lt (used_bits n (n / 8)) (n % 8) (used_bits-lt n (n / 8)) (omega arith),
)

zero_table : holds_below 8 (λ k. if test_bit 0 k then false else true) ≡ true
unfolding holds_below test_bit
zero_table = refl

zeroes-free : (b : ℕ) → in_use zeroes b ≡ false
unfolding in_use
zeroes-free b = ground (
  arith,
  holds_below_lem 8 (λ (k : ℕ). if test_bit 0 k then false else true) (b % 8) zero_table
      (omega arith),
)

-- Block `b` is in use exactly if it is below `used`.
pub in_use-used_bits : (used b : ℕ) → in_use (used_bits used) b ≡ ltb b used
in_use-used_bits zero b =
    ground (arith, ap (λ (p : Bytes). in_use p b) used_bits-zero, zeroes-free b)
in_use-used_bits (suc n) b = ground (
  arith,
  ap (λ (p : Bytes). in_use p b) (used_bits-suc n),
  in_use-mark (used_bits n) n (used_bits-lt n (n / 8)) b,
  in_use-used_bits n b,
)

module _ (im : Image) (used b : ℕ) where
  -- After `balloc(used)` of mkfs.c, where `used` is less than the bits of a block, the bitmap
  -- block of block 0 in the file system has the bits below `used` set and all its other bits
  -- clear.
  pub balloc-in_use :
      used < bpb
      → b < bpb
      → (im' : Image) × (balloc used im ≡ some im')
        × (in_use (rsect (bblock b ninodes) im') (b % bpb) ≡ ltb b used)
  unfolding balloc rsect wsect
  balloc-in_use few inside =
      let e : bblock b ninodes ≡ ninodeblocks + 2 = omega arith in
      let e' : b % bpb ≡ b = omega arith in
      (
        wsect (ninodeblocks + 2) (used_bits used) im,
        ground arith,
        rw (e, e') (in_use-used_bits used b),
      )

  -- After `balloc(used)` of mkfs.c, with `used` within the data blocks, each block of the log
  -- area is free in the bitmap.
  pub balloc-log_free :
      used ≤ fs_size - logsize
      → b < fs_size
      → fs_size - logsize ≤ b
      → (im' : Image) × (balloc used im ≡ some im')
        × (in_use (rsect (bblock b ninodes) im') (b % bpb) ≡ false)
  balloc-log_free few inside h =
      let (im', e, bit) = balloc-in_use (omega arith) (omega arith) in (im', e, bit ∙ ground arith)
