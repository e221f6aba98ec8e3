-- ===== src/Policy/Samples.antt =====
-- control/plugin/cpolicy: a rule to try the theorems on.
use mathlib.Core.List.{lookup}
use snap.Base.{text_discrete, refl}
use snap.Base.Map.{Distinct}
use snap.ConfigData.{Table, config_int}
use snap.ConfigData.Merging.{or_else}
use snap.Policy.IntRule
use snap.Policy.Rules.{int_rule, validate_rule}
use snap.Policy.Node.{Rules, process_rule, process}
use snap.Policy.Node.Processing.{AllMet, filled, process_iff, lookup-process}
use snap.Base.{◌≡◌, ◌↔◌, true, [], ◌∷◌, some}
use snap.Base.Int.{pos}
use snap.ConfigData.{ConfigValue, config_float}
use snap.Policy.IntRule.{IntRule, gob_encode, gob_decode, accepted, panics, validate}
use snap.Policy.IntRule.Gob.{zero_rule, kept, gob_decode-gob_encode}
use snap.Policy.IntRule.Bounds.{IsUnset, IsFloat, Admits, validate_iff}

abbrev port : IntRule
port = record {
  key = b'p' ∷ [];
  required = true;
  default_ = some (pos 80);
  minimum = some (pos 1);
  maximum = some (pos 65535);
}

gob_decode-gob_encode_example :
    gob_decode zero_rule (gob_encode port)
    ≡ some (record port {
      minimum = kept port.default_ port.minimum;
      maximum = kept port.default_ port.maximum;
    })
gob_decode-gob_encode_example = gob_decode-gob_encode port

-- The float64 0.5.
abbrev half : ConfigValue
half = config_float 0x3fe0000000000000

validate_iff_example :
    ((validate port half ≡ accepted) ↔ Admits port half)
    × ((validate port half ≡ panics)
        ↔ (IsFloat half × (¬ (IsUnset port.minimum × IsUnset port.maximum))))
validate_iff_example = validate_iff port half

-- A node with the rule, and a configuration that has a value for it.
abbrev rules : Rules
rules = (port.key, int_rule port) ∷ []

abbrev table : Table
table = (port.key, config_int (pos 443)) ∷ []

rules-Distinct : Distinct text_discrete rules
unfolding lookup
rules-Distinct = (refl, tt)

process_iff_example : ((m' : Table) × (process rules table ≡ some (m', []))) ↔ AllMet rules table
process_iff_example = process_iff rules table rules-Distinct

process-table : process rules table ≡ some (table, [])
unfolding process process_rule validate_rule IntRule.validate lookup text_discrete
process-table = refl

lookup-process_example :
    lookup text_discrete port.key table
    ≡ or_else (lookup text_discrete port.key table) (filled (lookup text_discrete port.key rules))
lookup-process_example = lookup-process rules table table [] port.key rules-Distinct process-table
