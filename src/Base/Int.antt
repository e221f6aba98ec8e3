-- ===== src/Base/Int.antt =====
-- Signed integers over the native numbers, with the orders that Go's `int` comparisons need.
use Prim.Native.Nat.{ℕ, zero, suc, ◌+◌, ◌-◌, ◌*◌, ◌/◌, ◌%◌, ◌^◌, ◌≤◌, ◌<◌, min}
use mathlib.Core.Path.{◌≡◌, ap}
use native.Mathlib.Decide.{ℕ_discrete}
use mathlib.Core.Logic.{◌↔◌}
use mathlib.Core.Bool.{Bool, true}
use native.Mathlib.Omega.{arith}
use snap.Base.Tests.{ltb, leb, if◌then◌else◌}

-- `negsuc n` is -(n + 1).
pub data ℤ : Type 0 where
  pos : ℕ → ℤ
  negsuc : ℕ → ℤ

abbrev pub pos_part : ℤ → ℕ
pos_part (pos n) = n
pos_part (negsuc n) = 0

abbrev pub neg_part : ℤ → ℕ
neg_part (pos n) = 0
neg_part (negsuc n) = suc n

infix 50 ◌≤ℤ◌ ◌<ℤ◌
abbrev pub ◌≤ℤ◌ : ℤ → ℤ → Type 0
a ≤ℤ b = pos_part a + neg_part b ≤ pos_part b + neg_part a

abbrev pub ◌<ℤ◌ : ℤ → ℤ → Type 0
a <ℤ b = pos_part a + neg_part b < pos_part b + neg_part a

abbrev pub ltb_ℤ : ℤ → ℤ → Bool
ltb_ℤ a b = ltb (pos_part a + neg_part b) (pos_part b + neg_part a)

abbrev pub leb_ℤ : ℤ → ℤ → Bool
leb_ℤ a b = leb (pos_part a + neg_part b) (pos_part b + neg_part a)

pub leb_ℤ_iff : (a b : ℤ) → (leb_ℤ a b ≡ true) ↔ (a ≤ℤ b)
leb_ℤ_iff a b = ground arith

pub ltb_ℤ_iff : (a b : ℤ) → (ltb_ℤ a b ≡ true) ↔ (a <ℤ b)
ltb_ℤ_iff a b = ground arith

-- time.Duration is an int64, at which Time.Sub saturates.
unfoldable pub time_sub : ℕ → ℕ → ℤ
time_sub a b =
    if leb b a then pos (min (a - b) (2 ^ 63 - 1)) else negsuc (min (b - a - 1) (2 ^ 63 - 1))

infix 60 ◌-ℤ◌
abbrev pub ◌-ℤ◌ : ℤ → ℤ → ℤ
a -ℤ b =
    if leb (neg_part a + pos_part b) (pos_part a + neg_part b)
    then pos (pos_part a + neg_part b - (neg_part a + pos_part b))
    else negsuc (neg_part a + pos_part b - (pos_part a + neg_part b) - 1)

abbrev pub negate : ℕ → ℤ
negate zero = pos 0
negate (suc n) = negsuc n

-- Go's division rounds towards zero, and the remainder has the sign of the dividend. The divisor
-- is not zero, for which Go panics.
unfoldable pub rem : ℤ → ℤ → ℤ
rem (pos a) b = pos (a % (pos_part b + neg_part b))
rem (negsuc a) b = negate (suc a % (pos_part b + neg_part b))

unfoldable pub quot : ℤ → ℤ → ℤ
quot (pos a) (pos b) = pos (a / b)
quot (pos a) (negsuc b) = negate (a / suc b)
quot (negsuc a) (pos b) = negate (suc a / b)
quot (negsuc a) (negsuc b) = pos (suc a / suc b)

-- The conversions to uint64 and int64.
unfoldable pub uint64 : ℤ → ℕ
uint64 (pos n) = n % 2 ^ 64
uint64 (negsuc n) = 2 ^ 64 - 1 - n % 2 ^ 64

unfoldable pub int64 : ℤ → ℤ
unfolding uint64
int64 a = if ltb (uint64 a) (2 ^ 63) then pos (uint64 a) else negsuc (2 ^ 64 - 1 - uint64 a)

unfoldable pub scale : ℕ → ℤ → ℤ
scale n (pos a) = pos (n * a)
scale n (negsuc a) = negate (n * suc a)

unfoldable pub ℤ_discrete : Discrete ℤ
unfolding ℕ_discrete
ℤ_discrete (pos a) (pos b) = elim (ℕ_discrete a b) [
  | yes p ↦ yes (ap pos p)
  | no p ↦ no (λ e. p (cc))
]
ℤ_discrete (pos a) (negsuc b) = no (λ e. cc)
ℤ_discrete (negsuc a) (pos b) = no (λ e. cc)
ℤ_discrete (negsuc a) (negsuc b) = elim (ℕ_discrete a b) [
  | yes p ↦ yes (ap negsuc p)
  | no p ↦ no (λ e. p (cc))
]
