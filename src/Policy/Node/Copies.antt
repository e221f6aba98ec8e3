-- ===== src/Policy/Node/Copies.antt =====
-- What CopyRules keeps of the rules.
use snap.Base.{◌≡◌, ◌≢◌, ◌↔◌, refl, ap, Bool, List, [], ◌∷◌, Option, none, some, Text, All, arith}
use snap.ConfigData.{ConfigValue, config_int, config_str, config_float, config_bool}
use snap.Policy.IntRule.{IntRule, accepted, new_integer_rule}
use snap.Policy.IntRule
use snap.Policy.Rules.{
  Rule, bool_rule, string_rule, float_rule, int_rule, new_bool_rule, new_string_rule,
  new_float_rule, key_of, required_of, default_of, validate_rule,
}
use snap.Base.Int.{ℤ}
use snap.Base.Float.{Float64}
use snap.Policy.Node.{opts_of, made_by, Rules, copy_rule, copy_rules}

-- A value of the rule's type; an integer rule also takes floats.
abbrev pub IsOfType : Rule → ConfigValue → Type 0
IsOfType (bool_rule r) (config_bool b) = Unit
IsOfType (string_rule r) (config_str s) = Unit
IsOfType (float_rule r) (config_float x) = Unit
IsOfType (int_rule r) (config_float x) = Unit
IsOfType (int_rule r) (config_int i) = Unit
IsOfType _ _ = ⊥

-- The same key, requirement and default, and every value of the type is accepted.
abbrev pub IsLooseCopy : Rule → Rule → Type 0
IsLooseCopy r c =
    (key_of c ≡ key_of r)
    × (required_of c ≡ required_of r)
    × (default_of c ≡ default_of r)
    × ((cv : ConfigValue) → (validate_rule c cv ≡ accepted) ↔ IsOfType r cv)

abbrev pub AreLooseCopies : Rules → List Rule → Type 0
AreLooseCopies [] [] = Unit
AreLooseCopies ((k, r) ∷ rules) (c ∷ cs) = IsLooseCopy r c × AreLooseCopies rules cs
AreLooseCopies _ _ = ⊥

loose : Rule → Rule
loose (bool_rule r) = bool_rule r
loose (string_rule r) = string_rule r
loose (float_rule r) = float_rule (record r { minimum = none; maximum = none })
loose (int_rule r) = int_rule (record r { minimum = none; maximum = none })

accepts-loose :
    (r : Rule) (cv : ConfigValue) → (validate_rule (loose r) cv ≡ accepted) ↔ IsOfType r cv
unfolding loose validate_rule IntRule.validate
accepts-loose (bool_rule r) (config_int i) = ground arith
accepts-loose (bool_rule r) (config_str s) = ground arith
accepts-loose (bool_rule r) (config_float x) = ground arith
accepts-loose (bool_rule r) (config_bool b) = ground arith
accepts-loose (string_rule r) (config_int i) = ground arith
accepts-loose (string_rule r) (config_str s) = ground arith
accepts-loose (string_rule r) (config_float x) = ground arith
accepts-loose (string_rule r) (config_bool b) = ground arith
accepts-loose (float_rule r) (config_int i) = ground arith
accepts-loose (float_rule r) (config_str s) = ground arith
accepts-loose (float_rule r) (config_float x) = ground arith
accepts-loose (float_rule r) (config_bool b) = ground arith
accepts-loose (int_rule r) (config_int i) = ground arith
accepts-loose (int_rule r) (config_str s) = ground arith
accepts-loose (int_rule r) (config_float x) = ground arith
accepts-loose (int_rule r) (config_bool b) = ground arith

loose-IsLooseCopy : (r : Rule) → IsLooseCopy r (loose r)
unfolding loose
loose-IsLooseCopy (bool_rule r) = (refl, refl, refl, accepts-loose (bool_rule r))
loose-IsLooseCopy (string_rule r) = (refl, refl, refl, accepts-loose (string_rule r))
loose-IsLooseCopy (float_rule r) = (refl, refl, refl, accepts-loose (float_rule r))
loose-IsLooseCopy (int_rule r) = (refl, refl, refl, accepts-loose (int_rule r))

new_bool_rule_opts :
    (key : Text) (req : Bool) (d : Option Bool)
    → key ≢ []
    → new_bool_rule key req (opts_of d) ≡ some (record { key = key; required = req; default_ = d })
unfolding new_bool_rule
new_bool_rule_opts [] req d ne = absurd (ne refl)
new_bool_rule_opts (c ∷ key) req none ne = refl
new_bool_rule_opts (c ∷ key) req (some v) ne = refl

new_string_rule_opts :
    (key : Text) (req : Bool) (d : Option Text)
    → key ≢ []
    → new_string_rule key req (opts_of d)
      ≡ some (record { key = key; required = req; default_ = d })
unfolding new_string_rule
new_string_rule_opts [] req d ne = absurd (ne refl)
new_string_rule_opts (c ∷ key) req none ne = refl
new_string_rule_opts (c ∷ key) req (some v) ne = refl

new_float_rule_opts :
    (key : Text) (req : Bool) (d : Option Float64)
    → key ≢ []
    → new_float_rule key req (opts_of d)
      ≡ some (record { key = key; required = req; default_ = d; minimum = none; maximum = none })
unfolding new_float_rule
new_float_rule_opts [] req d ne = absurd (ne refl)
new_float_rule_opts (c ∷ key) req none ne = refl
new_float_rule_opts (c ∷ key) req (some v) ne = refl

new_integer_rule_opts :
    (key : Text) (req : Bool) (d : Option ℤ)
    → key ≢ []
    → new_integer_rule key req (opts_of d)
      ≡ some (record { key = key; required = req; default_ = d; minimum = none; maximum = none })
unfolding new_integer_rule
new_integer_rule_opts [] req d ne = absurd (ne refl)
new_integer_rule_opts (c ∷ key) req none ne = refl
new_integer_rule_opts (c ∷ key) req (some v) ne = refl

copy_rule-loose : (r : Rule) → key_of r ≢ [] → copy_rule r ≡ some (loose r)
unfolding loose copy_rule
copy_rule-loose (bool_rule r) ne =
    ap (made_by bool_rule) (new_bool_rule_opts r.key r.required r.default_ ne)
copy_rule-loose (string_rule r) ne =
    ap (made_by string_rule) (new_string_rule_opts r.key r.required r.default_ ne)
copy_rule-loose (float_rule r) ne =
    ap (made_by float_rule) (new_float_rule_opts r.key r.required r.default_ ne)
copy_rule-loose (int_rule r) ne =
    ap (made_by int_rule) (new_integer_rule_opts r.key r.required r.default_ ne)

copy_rules-cons :
    (k : Text) (r c : Rule) (rules : Rules) (cs : List Rule)
    → copy_rule r ≡ some c
    → copy_rules rules ≡ some cs
    → copy_rules ((k, r) ∷ rules) ≡ some (c ∷ cs)
unfolding copy_rules
copy_rules-cons k r c rules cs h k' = ground arith

-- CopyRules of rules whose keys are not empty succeeds, and gives a copy of each rule with its key,
-- requirement and default, but without its minimum and maximum: a copy accepts every value of the
-- rule's type.
pub copy_rules-AreLooseCopies :
    (rules : Rules)
    → All (λ e. key_of e.1 ≢ []) rules
    → (cs : List Rule) × (copy_rules rules ≡ some cs) × AreLooseCopies rules cs
unfolding copy_rules
copy_rules-AreLooseCopies [] w = ([], refl, tt)
copy_rules-AreLooseCopies ((k, r) ∷ rules) w =
    let (cs, h, copies) = copy_rules-AreLooseCopies rules w.1 in
    (
      loose r ∷ cs,
      copy_rules-cons k r (loose r) rules cs (copy_rule-loose r w.0) h,
      (loose-IsLooseCopy r, copies),
    )
