-- ===== src/Policy/IntRule/Gob.antt =====
-- What a rule is after it was encoded and decoded, as on its way from a plugin.
use snap.Base.{◌≡◌, refl, false, [], Option, none, some}
use snap.Base.Int.{ℤ}
use snap.Policy.IntRule.{
  IntRule, encode_optional, gob_encode, decode_flag, decode_int, decode_maximum, decode_minimum,
  decode_default, gob_decode,
}

abbrev pub zero_rule : IntRule
zero_rule = record { key = []; required = false; default_ = none; minimum = none; maximum = none }

-- A bound that survives next to the default.
abbrev pub kept : (default_ bound : Option ℤ) → Option ℤ
kept none bound = bound
kept (some _) bound = none

decode_all :
    (i : IntRule) (d lo hi : Option ℤ)
    → gob_decode zero_rule (gob_encode (record i { default_ = d; minimum = lo; maximum = hi }))
      ≡ some (record i { default_ = d; minimum = kept d lo; maximum = kept d hi })
unfolding gob_encode gob_decode encode_optional decode_flag decode_int decode_maximum decode_minimum
    decode_default
decode_all i (some n) lo hi = refl
decode_all i none none none = refl
decode_all i none none (some h) = refl
decode_all i none (some l) none = refl
decode_all i none (some l) (some h) = refl

-- A rule comes back from the gob stream as it was if it has no default; with a default it comes
-- back without its minimum and maximum.
pub gob_decode-gob_encode :
    (i : IntRule)
    → gob_decode zero_rule (gob_encode i)
      ≡ some (record i { minimum = kept i.default_ i.minimum; maximum = kept i.default_ i.maximum })
gob_decode-gob_encode i = decode_all i i.default_ i.minimum i.maximum
