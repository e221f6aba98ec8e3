-- ===== src/Policy/Node.antt =====
-- control/plugin/cpolicy/node.go: a policy node, a map from keys to rules. The configuration that it
-- processes is changed in place.
pub mod Processing
pub mod Copies
use mathlib.Core.List.{lookup}
use snap.Base.{
  Bool, true, false, List, [], ◌∷◌, ◌++◌, Option, none, some, Text, text_discrete, if◌then◌else◌,
}
use snap.Base.Map.{put}
use snap.ConfigData.{ConfigValue, Table}
use snap.Policy.IntRule.{Validation, accepted, panics, refused, RuleError, new_integer_rule}
use snap.Policy.Rules.{
  Rule, bool_rule, string_rule, float_rule, int_rule, new_bool_rule, new_string_rule,
  new_float_rule, key_of, required_of, default_of, validate_rule,
}

abbrev pub Rules : Type 0
Rules = List (Text × Rule)

unfoldable pub add_rules : List Rule → Rules → Rules
add_rules [] p = p
add_rules (r ∷ rules) p = add_rules rules (put text_discrete (key_of r) r p)

unfoldable pub defaults : Rules → Table
defaults [] = []
defaults ((name, rule) ∷ rules) =
    let rest = defaults rules in
    elim (default_of rule) [ none ↦ rest | some def ↦ (name, def) ∷ rest ]

pub data ProcessingError : Type 0 where
  invalid : Text → RuleError → ProcessingError
  required_missing already_has_default : Text → ProcessingError

abbrev pub add_default : Text → Option ConfigValue → Table → Table
add_default key none m = m
add_default key (some cv) m = put text_discrete key cv m

-- One turn of the loop: the table and the error, if any. `none` is a panic.
unfoldable pub process_rule :
    Text → Rule → Option ConfigValue → Table → Option (Table × Option ProcessingError)
process_rule key rule (some cv) m = elim (validate_rule rule cv) [
  | accepted ↦ some (m, none)
  | panics ↦ none
  | refused e ↦ some (m, some (invalid key e))
]
process_rule key rule none m =
    if required_of rule
    then some (m, some (required_missing key))
    else some (add_default key (default_of rule) m, none)

abbrev pub add_error : Option ProcessingError → List ProcessingError → List ProcessingError
add_error none es = es
add_error (some e) es = e ∷ es

-- Process: the table and the errors. With an error the code returns no table, but its argument has
-- been changed all the same.
unfoldable pub process : Rules → Table → Option (Table × List ProcessingError)
process [] m = some (m, [])
process ((key, rule) ∷ rules) m = elim (process_rule key rule (lookup text_discrete key m) m) [
  | none ↦ none
  | some (m', e) ↦ elim (process rules m') [
    | none ↦ none
    | some (m'', es) ↦ some (m'', add_error e es)
  ]
]

unfoldable pub add_defaults : Rules → Table → Table × List ProcessingError
add_defaults [] m = (m, [])
add_defaults ((key, rule) ∷ rules) m = elim (lookup text_discrete key m) [
  | some _ ↦ let (m', es) = add_defaults rules m in (m', already_has_default key ∷ es)
  | none ↦
      if required_of rule
      then add_defaults rules m
      else add_defaults rules (add_default key (default_of rule) m)
]

abbrev rules_of : Rules → List Rule
rules_of [] = []
rules_of ((k, r) ∷ rules) = r ∷ rules_of rules

unfoldable pub merge_policy : Rules → Rules → Rules
unfolding add_rules
merge_policy c n = add_rules (rules_of n) (add_rules (rules_of c) [])

abbrev pub opts_of : {A : Type 0} → Option A → List A
opts_of none = []
opts_of (some a) = a ∷ []

abbrev pub made_by : {A : Type 0} → (A → Rule) → Option A → Option Rule
made_by f none = none
made_by f (some a) = some (f a)

-- `none` is an error.
unfoldable pub copy_rule : Rule → Option Rule
unfolding new_bool_rule new_string_rule new_float_rule new_integer_rule
copy_rule (bool_rule r) = made_by bool_rule (new_bool_rule r.key r.required (opts_of r.default_))
copy_rule (string_rule r) =
    made_by string_rule (new_string_rule r.key r.required (opts_of r.default_))
copy_rule (float_rule r) = made_by float_rule (new_float_rule r.key r.required (opts_of r.default_))
copy_rule (int_rule r) = made_by int_rule (new_integer_rule r.key r.required (opts_of r.default_))

unfoldable pub copy_rules : Rules → Option (List Rule)
copy_rules [] = some []
copy_rules ((key, rule) ∷ rules) = elim (copy_rule rule) [
  | none ↦ none
  | some r ↦ elim (copy_rules rules) [ none ↦ none | some rs ↦ some (r ∷ rs) ]
]
