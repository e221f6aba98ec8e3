-- ===== src/Policy/IntRule.antt =====
-- control/plugin/cpolicy/integer.go: a rule for an integer value. A gob stream is the list of the
-- values that were encoded, and a Decode takes the next one off; where there is none or it has
-- another type, that is an error and the target stays as it was.
pub mod Gob
pub mod Bounds
use snap.Base.{
  Bool, true, false, List, [], ◌∷◌, ◌++◌, Option, none, some, Text, if◌then◌else◌, ◌||◌,
}
use snap.Base.Int.{ℤ, ltb_ℤ}
use snap.ConfigData.{ConfigValue, config_int, config_float}

pub record IntRule : Type 0 where
  pub key : Text
  pub required : Bool
  pub default_ : Option ℤ
  pub minimum : Option ℤ
  pub maximum : Option ℤ

-- The error of an empty key is `none`. Of the defaults only the first counts.
unfoldable pub new_integer_rule : Text → Bool → List ℤ → Option IntRule
new_integer_rule [] required opts = none
new_integer_rule (c ∷ key) required opts = some (record {
  key = c ∷ key;
  required = required;
  default_ = elim opts [ [] ↦ none | d ∷ _ ↦ some d ];
  minimum = none;
  maximum = none;
})

pub data GobValue : Type 0 where
  text : Text → GobValue
  flag : Bool → GobValue
  int : ℤ → GobValue

unfoldable pub encode_optional : Option ℤ → List GobValue
encode_optional none = flag false ∷ []
encode_optional (some n) = flag true ∷ int n ∷ []

unfoldable pub gob_encode : IntRule → List GobValue
unfolding encode_optional
gob_encode i =
    text i.key
    ∷ flag i.required
    ∷ (encode_optional i.default_ ++ (encode_optional i.minimum ++ encode_optional i.maximum))

-- A Decode of a flag whose error is dropped.
unfoldable pub decode_flag : List GobValue → Bool × List GobValue
decode_flag [] = (false, [])
decode_flag (flag b ∷ s) = (b, s)
decode_flag (_ ∷ s) = (false, s)

unfoldable pub decode_int : List GobValue → Option (ℤ × List GobValue)
decode_int (int n ∷ s) = some (n, s)
decode_int _ = none

unfoldable pub decode_maximum : IntRule → List GobValue → Option IntRule
unfolding decode_flag decode_int
decode_maximum i s =
    let (is_maximum_set, rest) = decode_flag s in
    if is_maximum_set
    then elim (decode_int rest) [ none ↦ none | some r ↦ some (record i { maximum = some r.0 }) ]
    else some i

unfoldable pub decode_minimum : IntRule → List GobValue → Option IntRule
unfolding decode_flag decode_int decode_maximum
decode_minimum i s =
    let (is_minimum_set, rest) = decode_flag s in
    if is_minimum_set
    then elim (decode_int rest) [
      | none ↦ none
      | some r ↦ decode_maximum (record i { minimum = some r.0 }) r.1
    ]
    else decode_maximum i rest

-- Where a default is set, the code returns with it.
unfoldable pub decode_default : IntRule → List GobValue → Option IntRule
unfolding decode_flag decode_int decode_minimum
decode_default i s =
    let (is_default_set, rest) = decode_flag s in
    if is_default_set
    then elim (decode_int rest) [ none ↦ none | some r ↦ some (record i { default_ = some r.0 }) ]
    else decode_minimum i rest

-- `none` is an error.
unfoldable pub gob_decode : IntRule → List GobValue → Option IntRule
unfolding decode_default
gob_decode i (text key ∷ flag required ∷ s) =
    decode_default (record i { key = key; required = required }) s
gob_decode i _ = none

pub data RuleError : Type 0 where
  wrong_type under_minimum over_maximum : RuleError

-- A panic is that of the type assertion on a float.
pub data Validation : Type 0 where
  accepted panics : Validation
  refused : RuleError → Validation

abbrev is_under : ℤ → Option ℤ → Bool
is_under v none = false
is_under v (some m) = ltb_ℤ v m

abbrev is_over : ℤ → Option ℤ → Bool
is_over v none = false
is_over v (some m) = ltb_ℤ m v

abbrev is_set : Option ℤ → Bool
is_set none = false
is_set (some m) = true

unfoldable pub validate : IntRule → ConfigValue → Validation
validate i (config_int v) =
    if is_under v i.minimum
    then refused under_minimum
    else if is_over v i.maximum
    then refused over_maximum
    else accepted
validate i (config_float x) = if is_set i.minimum || is_set i.maximum then panics else accepted
validate i _ = refused wrong_type
