-- ===== src/Base/Float.antt =====
-- float64, as its 64 bits, with the order that Go's `<` is.
use Prim.Native.Nat.{ℕ, ◌%◌, ◌^◌}
use mathlib.Core.Bool.{Bool, not, ◌&&◌}
use snap.Base.Tests.{ltb, if◌then◌else◌}
use snap.Base.Int.{ℤ, pos, negate, ltb_ℤ}

abbrev pub Float64 : Type 0
Float64 = ℕ

abbrev magnitude : Float64 → ℕ
magnitude x = x % 2 ^ 63

-- The exponent is all ones and the fraction is not zero.
abbrev pub is_nan : Float64 → Bool
is_nan x = ltb 0x7ff0000000000000 (magnitude x)

-- In the order of the floats that are numbers; both zeros are 0.
abbrev rank : Float64 → ℤ
rank x = if ltb x (2 ^ 63) then pos (magnitude x) else negate (magnitude x)

unfoldable pub ltb_float : Float64 → Float64 → Bool
ltb_float x y = not (is_nan x) && (not (is_nan y) && ltb_ℤ (rank x) (rank y))
