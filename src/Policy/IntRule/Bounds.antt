-- ===== src/Policy/IntRule/Bounds.antt =====
-- Which values a rule lets through.
use snap.Base.{◌≡◌, ◌↔◌, Option, none, some, arith}
use snap.Base.Int.{ℤ, ◌≤ℤ◌}
use snap.Policy.IntRule.{IntRule, accepted, panics, validate}
use snap.ConfigData.{ConfigValue, config_int, config_float, config_str, config_bool}

abbrev pub IsAtLeast : ℤ → Option ℤ → Type 0
IsAtLeast v none = Unit
IsAtLeast v (some m) = m ≤ℤ v

abbrev pub IsAtMost : ℤ → Option ℤ → Type 0
IsAtMost v none = Unit
IsAtMost v (some m) = v ≤ℤ m

abbrev pub IsUnset : Option ℤ → Type 0
IsUnset none = Unit
IsUnset (some m) = ⊥

-- An integer within the bounds, or a float where there are no bounds.
abbrev pub Admits : IntRule → ConfigValue → Type 0
Admits i (config_int v) = IsAtLeast v i.minimum × IsAtMost v i.maximum
Admits i (config_float x) = IsUnset i.minimum × IsUnset i.maximum
Admits i _ = ⊥

abbrev pub IsFloat : ConfigValue → Type 0
IsFloat (config_float x) = Unit
IsFloat _ = ⊥

accepts_iff : (i : IntRule) (cv : ConfigValue) → (validate i cv ≡ accepted) ↔ Admits i cv
unfolding validate
accepts_iff i (config_int v) = ground arith
accepts_iff i (config_float x) = ground arith
accepts_iff i (config_str t) = ground arith
accepts_iff i (config_bool b) = ground arith

panics_iff :
    (i : IntRule) (cv : ConfigValue)
    → (validate i cv ≡ panics) ↔ (IsFloat cv × (¬ (IsUnset i.minimum × IsUnset i.maximum)))
unfolding validate
panics_iff i (config_int v) = ground arith
panics_iff i (config_float x) = ground arith
panics_iff i (config_str t) = ground arith
panics_iff i (config_bool b) = ground arith

-- Validate accepts exactly the integers within the bounds and, for a rule without bounds, floats;
-- and it panics exactly on a float for a rule that has a bound.
pub validate_iff :
    (i : IntRule) (cv : ConfigValue)
    → ((validate i cv ≡ accepted) ↔ Admits i cv)
      × ((validate i cv ≡ panics) ↔ (IsFloat cv × (¬ (IsUnset i.minimum × IsUnset i.maximum))))
validate_iff i cv = (accepts_iff i cv, panics_iff i cv)
