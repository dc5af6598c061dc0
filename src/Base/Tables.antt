-- ===== src/Base/Tables.antt =====
-- Facts about small ranges of numbers, by evaluation at every value.
use Prim.Native.Nat.{ℕ, zero, suc, ◌<◌}
use mathlib.Core.Path.{◌≡◌}
use mathlib.Core.Bool.{Bool, true, false, ◌&&◌}
use native.Mathlib.Omega.{arith}
use fscq.Base.Tests.{if◌then◌else◌}

unfoldable pub holds_below : ℕ → (ℕ → Bool) → Bool
holds_below zero p = true
holds_below (suc n) p = p n && holds_below n p

pub holds_below_lem : (n : ℕ) (p : ℕ → Bool) (x : ℕ) → holds_below n p ≡ true → x < n → p x ≡ true
unfolding holds_below
holds_below_lem zero p x h lt = elim lt [ ]
holds_below_lem (suc n) p x h lt = ground (arith, holds_below_lem n p x)

abbrev pub iff : Bool → Bool → Bool
iff true b = b
iff false b = if b then false else true

pub iff_lem : (a b : Bool) → iff a b ≡ true → a ≡ b
iff_lem true b h = ground arith
iff_lem false b h = ground arith
