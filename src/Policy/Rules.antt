-- ===== src/Policy/Rules.antt =====
-- control/plugin/cpolicy: rule.go, bool.go, string.go, float.go and integer.go: the four kinds of rule
-- behind one interface.
use snap.Base.{Bool, false, List, [], ◌∷◌, Option, none, some, Text, if◌then◌else◌}
use snap.Base.Float.{Float64, ltb_float}
use snap.ConfigData.{ConfigValue, config_int, config_str, config_float, config_bool}
use snap.Policy.IntRule.{
  IntRule, new_integer_rule, Validation, accepted, panics, refused, wrong_type, under_minimum,
  over_maximum,
}
use snap.Policy.IntRule

pub record BoolRule : Type 0 where
  pub key : Text
  pub required : Bool
  pub default_ : Option Bool

pub record StringRule : Type 0 where
  pub key : Text
  pub required : Bool
  pub default_ : Option Text

pub record FloatRule : Type 0 where
  pub key : Text
  pub required : Bool
  pub default_ : Option Float64
  pub minimum : Option Float64
  pub maximum : Option Float64

pub data Rule : Type 0 where
  bool_rule : BoolRule → Rule
  string_rule : StringRule → Rule
  float_rule : FloatRule → Rule
  int_rule : IntRule → Rule

abbrev first : {A : Type 0} → List A → Option A
first [] = none
first (d ∷ opts) = some d

-- `none` is the error of an empty key.
unfoldable pub new_bool_rule : Text → Bool → List Bool → Option BoolRule
new_bool_rule [] req opts = none
new_bool_rule (c ∷ key) req opts =
    some (record { key = c ∷ key; required = req; default_ = first opts })

unfoldable pub new_string_rule : Text → Bool → List Text → Option StringRule
new_string_rule [] req opts = none
new_string_rule (c ∷ key) req opts =
    some (record { key = c ∷ key; required = req; default_ = first opts })

unfoldable pub new_float_rule : Text → Bool → List Float64 → Option FloatRule
new_float_rule [] req opts = none
new_float_rule (c ∷ key) req opts = some (record {
  key = c ∷ key;
  required = req;
  default_ = first opts;
  minimum = none;
  maximum = none;
})

abbrev pub key_of : Rule → Text
key_of (bool_rule r) = r.key
key_of (string_rule r) = r.key
key_of (float_rule r) = r.key
key_of (int_rule r) = r.key

abbrev pub required_of : Rule → Bool
required_of (bool_rule r) = r.required
required_of (string_rule r) = r.required
required_of (float_rule r) = r.required
required_of (int_rule r) = r.required

abbrev valued : {A : Type 0} → (A → ConfigValue) → Option A → Option ConfigValue
valued f none = none
valued f (some a) = some (f a)

abbrev pub default_of : Rule → Option ConfigValue
default_of (bool_rule r) = valued config_bool r.default_
default_of (string_rule r) = valued config_str r.default_
default_of (float_rule r) = valued config_float r.default_
default_of (int_rule r) = valued config_int r.default_

abbrev is_under : Float64 → Option Float64 → Bool
is_under v none = false
is_under v (some m) = ltb_float v m

abbrev is_over : Float64 → Option Float64 → Bool
is_over v none = false
is_over v (some m) = ltb_float m v

abbrev pub validate_bool : ConfigValue → Validation
validate_bool (config_bool b) = accepted
validate_bool _ = refused wrong_type

abbrev pub validate_string : ConfigValue → Validation
validate_string (config_str s) = accepted
validate_string _ = refused wrong_type

abbrev pub validate_float : FloatRule → ConfigValue → Validation
validate_float f (config_float v) =
    if is_under v f.minimum
    then refused under_minimum
    else if is_over v f.maximum
    then refused over_maximum
    else accepted
validate_float f _ = refused wrong_type

-- The method Validate of the interface.
unfoldable pub validate_rule : Rule → ConfigValue → Validation
unfolding IntRule.validate
validate_rule (bool_rule r) cv = validate_bool cv
validate_rule (string_rule r) cv = validate_string cv
validate_rule (float_rule r) cv = validate_float r cv
validate_rule (int_rule r) cv = IntRule.validate r cv
