-- ===== src/Policy/Node/Processing.antt =====
-- When Process has no error, and what the table holds after it.
use mathlib.Core.List.{lookup}
use mathlib.Core.Path.{ap₂}
use snap.Base.{
  ◌≡◌, ◌≢◌, ◌↔◌, refl, sym, ap, ◌∙◌, false, List, [], ◌∷◌, Option, none, some, Text, text_discrete,
  ite, if_pos, if_neg, All, arith, Bool-cases, Option-cases, inl, inr, if◌then◌else◌, subst,
}
use snap.Base.Map.{lookup-put, Distinct}
use snap.ConfigData.{ConfigValue, Table}
use snap.ConfigData.Merging.{or_else, or_else_assoc, or_else-none}
use snap.Policy.IntRule.{accepted}
use snap.Policy.Rules.{Rule, required_of, default_of, validate_rule}
use snap.Policy.Node.{Rules, ProcessingError, process_rule, add_default, add_error, process}

-- A rule is met by a value that it accepts, and without a value if it is not required.
abbrev pub IsMet : Rule → Option ConfigValue → Type 0
IsMet r (some cv) = validate_rule r cv ≡ accepted
IsMet r none = required_of r ≡ false

abbrev pub AllMet : Rules → Table → Type 0
AllMet rules m = All (λ e. IsMet e.1 (lookup text_discrete e.0 m)) rules

-- The value that a rule adds where there is none.
abbrev pub filled : Option Rule → Option ConfigValue
filled none = none
filled (some r) = if required_of r then none else default_of r

abbrev set_default : Text → Rule → Option ConfigValue → Table → Table
set_default key rule (some cv) m = m
set_default key rule none m = if required_of rule then m else add_default key (default_of rule) m

-- The table after all the rules.
abbrev processed : Rules → Table → Table
processed [] m = m
processed ((key, rule) ∷ rules) m =
    processed rules (set_default key rule (lookup text_discrete key m) m)

process_rule-set_default :
    (key : Text) (rule : Rule) (o : Option ConfigValue) (m m' : Table) (e : Option ProcessingError)
    → process_rule key rule o m ≡ some (m', e)
    → m' ≡ set_default key rule o m
unfolding process_rule
process_rule-set_default key rule none m m' e h = ground arith
process_rule-set_default key rule (some cv) m m' e h = ground arith

process_rule-IsMet :
    (key : Text) (rule : Rule) (o : Option ConfigValue) (m m' : Table)
    → process_rule key rule o m ≡ some (m', none)
    → IsMet rule o
unfolding process_rule
process_rule-IsMet key rule none m m' h = ground arith
process_rule-IsMet key rule (some cv) m m' h = ground arith

IsMet-process_rule :
    (key : Text) (rule : Rule) (o : Option ConfigValue) (m : Table)
    → IsMet rule o
    → process_rule key rule o m ≡ some (set_default key rule o m, none)
unfolding process_rule
IsMet-process_rule key rule none m h = rw (h) refl
IsMet-process_rule key rule (some cv) m h = rw (h, process_rule) refl

fill_known :
    (j key : Text) (o : Option ConfigValue) (cv : ConfigValue) (m : Table)
    → lookup text_discrete key m ≡ some cv
    → lookup text_discrete j m
      ≡ or_else (lookup text_discrete j m) (ite (text_discrete j key) o none)
fill_known j key o cv m h = ground arith

fill_new :
    (j key : Text) (o : Option ConfigValue) (m : Table)
    → lookup text_discrete key m ≡ none
    → lookup text_discrete j (add_default key o m)
      ≡ or_else (lookup text_discrete j m) (ite (text_discrete j key) o none)
fill_new j key none m h = ground arith
fill_new j key (some v) m h = ground (arith, lookup-put text_discrete key j v m)

lookup-set_default :
    (key j : Text) (rule : Rule) (m : Table)
    → lookup text_discrete j (set_default key rule (lookup text_discrete key m) m)
      ≡ or_else (lookup text_discrete j m) (ite (text_discrete j key) (filled (some rule)) none)
lookup-set_default key j rule m = elim (Option-cases (lookup text_discrete key m)) [
  | inl k ↦ elim (Bool-cases (required_of rule)) [
    | inl r ↦ rw (k, set_default, r) (fill_new j key none m k)
    | inr r ↦ rw (k, set_default, r) (fill_new j key (default_of rule) m k)
  ]
  | inr (cv, k) ↦ rw (k, set_default) (fill_known j key (filled (some rule)) cv m k)
]

filled-ite :
    {P : Type 0} (d : Dec P) (rule : Rule) (o : Option Rule)
    → (P → o ≡ none)
    → or_else (ite d (filled (some rule)) none) (filled o) ≡ filled (ite d (some rule) o)
filled-ite (yes e) rule o h =
    ap₂ or_else (if_pos (yes e) e (filled (some rule)) none) (ap filled (h e))
    ∙ or_else-none (filled (some rule))
    ∙ ap filled (sym (if_pos (yes e) e (some rule) o))
filled-ite (no n) rule o h =
    ap (λ x. or_else x (filled o)) (if_neg (no n) n (filled (some rule)) none)
    ∙ ap filled (sym (if_neg (no n) n (some rule) o))

filled_head :
    (j key : Text) (rule : Rule) (rules : Rules)
    → lookup text_discrete key rules ≡ none
    → or_else
        (ite (text_discrete j key) (filled (some rule)) none)
        (filled (lookup text_discrete j rules))
      ≡ filled (lookup text_discrete j ((key, rule) ∷ rules))
unfolding lookup
filled_head j key rule rules h =
    filled-ite (text_discrete j key) rule (lookup text_discrete j rules)
      (λ e. ap (λ k. lookup text_discrete k rules) e ∙ h)

lookup-processed :
    (j : Text) (rules : Rules) (m : Table)
    → Distinct text_discrete rules
    → lookup text_discrete j (processed rules m)
      ≡ or_else (lookup text_discrete j m) (filled (lookup text_discrete j rules))
lookup-processed j [] m d = unfold lookup in sym (or_else-none (lookup text_discrete j m))
lookup-processed j ((key, rule) ∷ rules) m d =
    lookup-processed j rules (set_default key rule (lookup text_discrete key m) m) d.1
    ∙ ap (λ o. or_else o (filled (lookup text_discrete j rules))) (lookup-set_default key j rule m)
    ∙ sym (
        or_else_assoc (lookup text_discrete j m)
          (ite (text_discrete j key) (filled (some rule)) none)
          (filled (lookup text_discrete j rules)))
    ∙ ap (or_else (lookup text_discrete j m)) (filled_head j key rule rules d.0)

lookup-set_default_ne :
    (key j : Text) (rule : Rule) (m : Table)
    → j ≢ key
    → lookup text_discrete j (set_default key rule (lookup text_discrete key m) m)
      ≡ lookup text_discrete j m
lookup-set_default_ne key j rule m ne =
    lookup-set_default key j rule m
    ∙ ap (or_else (lookup text_discrete j m))
        (if_neg (text_discrete j key) ne (filled (some rule)) none)
    ∙ or_else-none (lookup text_discrete j m)

fresh_key :
    (key j : Text) (r : Rule) (rules : Rules)
    → lookup text_discrete key ((j, r) ∷ rules) ≡ none
    → (j ≢ key) × (lookup text_discrete key rules ≡ none)
unfolding lookup
fresh_key key j r rules h = ground arith

AllMet-set_default :
    (key : Text) (rule : Rule) (rules : Rules) (m : Table)
    → lookup text_discrete key rules ≡ none
    → AllMet rules (set_default key rule (lookup text_discrete key m) m) ≡ AllMet rules m
AllMet-set_default key rule [] m h = refl
AllMet-set_default key rule ((j, r) ∷ rules) m h =
    let (ne, h') = fresh_key key j r rules h in
    rw (lookup-set_default_ne key j rule m ne, AllMet-set_default key rule rules m h') refl

process-cons :
    (key : Text) (rule : Rule) (rules : Rules) (m m1 : Table) (e : Option ProcessingError)
    (m2 : Table) (es : List ProcessingError)
    → process_rule key rule (lookup text_discrete key m) m ≡ some (m1, e)
    → process rules m1 ≡ some (m2, es)
    → process ((key, rule) ∷ rules) m ≡ some (m2, add_error e es)
unfolding process
process-cons key rule rules m m1 e m2 es h k = ground arith

AllMet-process :
    (rules : Rules) (m : Table)
    → Distinct text_discrete rules
    → AllMet rules m
    → process rules m ≡ some (processed rules m, [])
unfolding process
AllMet-process [] m d w = refl
AllMet-process ((key, rule) ∷ rules) m d w =
    process-cons key rule rules m _ none _ []
      (IsMet-process_rule key rule (lookup text_discrete key m) m w.0)
      (AllMet-process rules (set_default key rule (lookup text_discrete key m) m) d.1
        (subst (λ T. T) (sym (AllMet-set_default key rule rules m d.0)) w.1))

process-processed :
    (rules : Rules) (m m' : Table) (es : List ProcessingError)
    → process rules m ≡ some (m', es)
    → m' ≡ processed rules m
unfolding process
process-processed [] m m' es h = ground arith
process-processed ((key, rule) ∷ rules) m m' es h =
    elim (Option-cases (process_rule key rule (lookup text_discrete key m) m)) [
      | inl e ↦ absurd (ground arith)
      | inr ((m1, e1), e) ↦ elim (Option-cases (process rules m1)) [
        | inl f ↦ absurd (ground arith)
        | inr ((m2, es2), f) ↦
            let q : m' ≡ m2 = ground arith in
            q
            ∙ process-processed rules m1 m2 es2 f
            ∙ ap (processed rules)
                (process_rule-set_default key rule (lookup text_discrete key m) m m1 e1 e)
      ]
    ]

add_error-nil :
    (e : Option ProcessingError) (es : List ProcessingError)
    → add_error e es ≡ []
    → (e ≡ none) × (es ≡ [])
add_error-nil none es h = (refl, h)
add_error-nil (some e) es h = absurd (ground arith)

process-AllMet :
    (rules : Rules) (m m' : Table)
    → Distinct text_discrete rules
    → process rules m ≡ some (m', [])
    → AllMet rules m
unfolding process
process-AllMet [] m m' d h = tt
process-AllMet ((key, rule) ∷ rules) m m' d h =
    elim (Option-cases (process_rule key rule (lookup text_discrete key m) m)) [
      | inl e ↦ absurd (ground arith)
      | inr ((m1, e1), e) ↦ elim (Option-cases (process rules m1)) [
        | inl f ↦ absurd (ground arith)
        | inr ((m2, es2), f) ↦
            let q : add_error e1 es2 ≡ [] = ground arith in
            let (no_error, no_errors) = add_error-nil e1 es2 q in
            let e' : process_rule key rule (lookup text_discrete key m) m ≡ some (m1, none) = cc in
            let f' : process rules m1 ≡ some (m2, []) = cc in
            let at = process_rule-set_default key rule (lookup text_discrete key m) m m1 none e' in
            (
              process_rule-IsMet key rule (lookup text_discrete key m) m m1 e',
              subst (λ T. T) (ap (AllMet rules) at ∙ AllMet-set_default key rule rules m d.0)
                  (process-AllMet rules m1 m2 d.1 f'),
            )
      ]
    ]

-- For a policy with one rule for each key, Process has no error exactly if each rule is met: its
-- key has a value that the rule accepts, or has none and the rule is not required.
pub process_iff :
    (rules : Rules) (m : Table)
    → Distinct text_discrete rules
    → ((m' : Table) × (process rules m ≡ some (m', []))) ↔ AllMet rules m
process_iff rules m d = (
  (λ (m', h). process-AllMet rules m m' d h),
  (λ w. (processed rules m, AllMet-process rules m d w)),
)

-- After Process, with errors or without, the table that it was given holds for every key the value
-- it had, and where it had none the default of the key's rule, if that has one and is not required.
pub lookup-process :
    (rules : Rules) (m m' : Table) (es : List ProcessingError) (k : Text)
    → Distinct text_discrete rules
    → process rules m ≡ some (m', es)
    → lookup text_discrete k m'
      ≡ or_else (lookup text_discrete k m) (filled (lookup text_discrete k rules))
lookup-process rules m m' es k d h =
    ap (lookup text_discrete k) (process-processed rules m m' es h) ∙ lookup-processed k rules m d
