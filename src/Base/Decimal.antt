-- ===== src/Base/Decimal.antt =====
-- The decimal print of an integer (Go's %v and %d), and that it is read back.
use Prim.Native.Nat.{ℕ, zero, suc, ◌+◌, ◌-◌, ◌*◌, ◌/◌, ◌%◌, ◌^◌, ◌<◌}
use mathlib.Core.Path.{◌≡◌, refl, sym, ap, ◌∙◌}
use mathlib.Core.Logic.{◌⊎◌}
use mathlib.Core.Bool.{false, ◌&&◌}
use mathlib.Core.Option.{Option, none, some}
use mathlib.Core.List.{[], ◌∷◌}
use native.Mathlib.Omega.{arith}
use snap.Base.Tests.{◌==◌, ltb, leb, if◌then◌else◌}
use snap.Base.Lists.{Text, contains}
use snap.Base.Int.{ℤ, pos, negsuc}

unfoldable pub digits : ℕ → ℕ → Text → Text
digits zero n out = out
digits (suc f) n out =
    let rest = digits f (n / 10) ((b'0' + n % 10) ∷ out) in
    if n / 10 == 0 then (b'0' + n % 10) ∷ out else rest

-- A number has no more digits than `suc n`, so the fuel does not run out.
unfoldable pub decimal : ℕ → Text
unfolding digits
decimal n = digits (suc n) n []

unfoldable pub show_int : ℤ → Text
show_int (pos n) = decimal n
show_int (negsuc n) = b'-' ∷ decimal (suc n)

value_from : ℕ → Text → ℕ
value_from n [] = n
value_from n (c ∷ s) = value_from (n * 10 + (c - b'0')) s

value_from-digits :
    (f n : ℕ) (out : Text) → n < f → value_from 0 (digits f n out) ≡ value_from n out
unfolding digits value_from
value_from-digits zero n out h = elim h [ ]
value_from-digits (suc f) n out h =
    grind (arith, value_from-digits f (n / 10) ((b'0' + n % 10) ∷ out))

value-decimal : (n : ℕ) → value_from 0 (decimal n) ≡ n
unfolding decimal value_from
value-decimal n = value_from-digits (suc n) n [] (omega arith)

-- The print of a number shows no character but digits.
contains-digits :
    (c f n : ℕ) (out : Text)
    → (c < b'0') ⊎ (b'9' < c)
    → contains c (digits f n out) ≡ contains c out
unfolding digits contains
contains-digits c zero n out h = refl
contains-digits c (suc f) n out h =
    ground (arith, contains-digits c f (n / 10) ((b'0' + n % 10) ∷ out))

pub contains-show_int : (c : ℕ) (v : ℤ) → (c < b'-') ⊎ (b'9' < c) → contains c (show_int v) ≡ false
unfolding show_int decimal contains
contains-show_int c (pos n) h = contains-digits c (suc n) n [] (omega arith)
contains-show_int c (negsuc n) h = ground (arith, contains-digits c (suc (suc n)) (suc n) [])

read_int : Text → ℤ
read_int [] = pos 0
read_int (c ∷ s) = if c == b'-' then negsuc (value_from 0 s - 1) else pos (value_from 0 (c ∷ s))

read_unsigned : (s : Text) → contains b'-' s ≡ false → read_int s ≡ pos (value_from 0 s)
unfolding read_int contains value_from
read_unsigned [] h = refl
read_unsigned (c ∷ s) h = ground arith

read-show_int : (v : ℤ) → read_int (show_int v) ≡ v
unfolding show_int
read-show_int (pos n) =
    read_unsigned (decimal n)
      (unfold decimal contains in contains-digits b'-' (suc n) n [] (omega arith))
    ∙ ap pos (value-decimal n)
read-show_int (negsuc n) = unfold read_int in ground (arith, value-decimal (suc n))

-- Integers that print alike are one.
pub show_int-injective : (v w : ℤ) → show_int v ≡ show_int w → v ≡ w
show_int-injective v w e = sym (read-show_int v) ∙ ap read_int e ∙ read-show_int w

digits_value : ℕ → Text → Option ℕ
digits_value n [] = some n
digits_value n (c ∷ s) =
    if leb b'0' c && leb c b'9' then digits_value (n * 10 + (c - b'0')) s else none

unsigned : Text → Option ℕ
unfolding digits_value
unsigned [] = none
unsigned (c ∷ s) = digits_value 0 (c ∷ s)

-- strconv.Atoi: an optional sign, digits, and a value that an int64 can hold.
unfoldable pub atoi : Text → Option ℤ
unfolding unsigned
atoi [] = none
atoi (c ∷ s) =
    if c == b'-'
    then elim (unsigned s) [
      | none ↦ none
      | some zero ↦ some (pos zero)
      | some (suc n) ↦ if ltb n (2 ^ 63) then some (negsuc n) else none
    ]
    else elim (unsigned (if c == b'+' then s else c ∷ s)) [
      | none ↦ none
      | some n ↦ if ltb n (2 ^ 63) then some (pos n) else none
    ]
