-- ===== src/ConfigData/Json.antt =====
-- core/cdata/node.go: UnmarshalJSON, from what the JSON decoder made of the text: the members of an
-- object, where a number comes with what its Int64 and Float64 answer.
use mathlib.Core.List.{lookup}
use snap.Base.{
  ◌≡◌, refl, ◌∙◌, Bool, true, false, List, [], ◌∷◌, Option, none, some, Text, text_discrete, arith,
  ◌&&◌, ◌⊎◌, inl, inr, Bool-cases,
}
use snap.Base.Int.{ℤ}
use snap.Base.Float.{Float64}
use snap.Base.Map.{put, lookup-put, Distinct}
use snap.ConfigData.{ConfigValue, config_int, config_str, config_float, config_bool, Table}

pub data Json : Type 0 where
  json_string : Text → Json
  json_bool : Bool → Json
  json_number : Option ℤ → Option Float64 → Json
  json_other : Json

-- A number that is neither an int64 nor a float64 falls out of its case and leaves no item.
abbrev pub item_of : Json → Option ConfigValue
item_of (json_string t) = some (config_str t)
item_of (json_bool b) = some (config_bool b)
item_of (json_number (some i) f) = some (config_int i)
item_of (json_number none (some x)) = some (config_float x)
item_of (json_number none none) = none
item_of json_other = none

abbrev pub is_supported : Json → Bool
is_supported json_other = false
is_supported _ = true

-- The table and whether the mutex was made; an error comes before it is, and so does the table as
-- far as it got.
unfoldable pub unmarshal_items : List (Text × Json) → Table → Table × Bool
unmarshal_items [] t = (t, true)
unmarshal_items ((k, json_other) ∷ members) t = (t, false)
unmarshal_items ((k, json_string s) ∷ members) t =
    unmarshal_items members (put text_discrete k (config_str s) t)
unmarshal_items ((k, json_bool b) ∷ members) t =
    unmarshal_items members (put text_discrete k (config_bool b) t)
unmarshal_items ((k, json_number (some i) f) ∷ members) t =
    unmarshal_items members (put text_discrete k (config_int i) t)
unmarshal_items ((k, json_number none (some x)) ∷ members) t =
    unmarshal_items members (put text_discrete k (config_float x) t)
unmarshal_items ((k, json_number none none) ∷ members) t = unmarshal_items members t

-- `true` is success.
unfoldable pub unmarshal_json : List (Text × Json) → Table × Bool
unmarshal_json members = unmarshal_items members []

abbrev pub all_supported : List (Text × Json) → Bool
all_supported [] = true
all_supported ((k, j) ∷ members) = is_supported j && all_supported members

abbrev after : Option ConfigValue → Option Json → Option ConfigValue
after old none = old
after old (some j) = elim (item_of j) [ none ↦ old | some v ↦ some v ]

unmarshal_items-success :
    (members : List (Text × Json)) (t : Table)
    → (unmarshal_items members t).1 ≡ all_supported members
unfolding unmarshal_items
unmarshal_items-success [] t = refl
unmarshal_items-success ((k, json_other) ∷ members) t = refl
unmarshal_items-success ((k, json_string s) ∷ members) t = unmarshal_items-success members _
unmarshal_items-success ((k, json_bool b) ∷ members) t = unmarshal_items-success members _
unmarshal_items-success ((k, json_number (some i) f) ∷ members) t =
    unmarshal_items-success members _
unmarshal_items-success ((k, json_number none (some x)) ∷ members) t =
    unmarshal_items-success members _
unmarshal_items-success ((k, json_number none none) ∷ members) t = unmarshal_items-success members _

after-put :
    (k j : Text) (v : ConfigValue) (i : Json) (members : List (Text × Json)) (t : Table)
    → lookup text_discrete k members ≡ none
    → item_of i ≡ some v
    → after (lookup text_discrete j (put text_discrete k v t)) (lookup text_discrete j members)
      ≡ after (lookup text_discrete j t) (lookup text_discrete j ((k, i) ∷ members))
unfolding lookup
after-put k j v i members t fresh h = ground (arith, lookup-put text_discrete k j v t)

after_dropped :
    (k j : Text) (members : List (Text × Json)) (old : Option ConfigValue)
    → lookup text_discrete k members ≡ none
    → after old (lookup text_discrete j members)
      ≡ after old (lookup text_discrete j ((k, json_number none none) ∷ members))
unfolding lookup
after_dropped k j members old fresh = ground arith

lookup-unmarshal_items :
    (j : Text) (members : List (Text × Json)) (t : Table)
    → Distinct text_discrete members
    → all_supported members ≡ true
    → lookup text_discrete j (unmarshal_items members t).0
      ≡ after (lookup text_discrete j t) (lookup text_discrete j members)
unfolding unmarshal_items
lookup-unmarshal_items j [] t d h = unfold lookup in refl
lookup-unmarshal_items j ((k, json_other) ∷ members) t d h = absurd (ground arith)
lookup-unmarshal_items j ((k, json_string s) ∷ members) t d h =
    lookup-unmarshal_items j members _ d.1 h ∙ after-put k j _ _ members t d.0 refl
lookup-unmarshal_items j ((k, json_bool b) ∷ members) t d h =
    lookup-unmarshal_items j members _ d.1 h ∙ after-put k j _ _ members t d.0 refl
lookup-unmarshal_items j ((k, json_number (some i) f) ∷ members) t d h =
    lookup-unmarshal_items j members _ d.1 h
    ∙ after-put k j _ (json_number (some i) f) members t d.0 refl
lookup-unmarshal_items j ((k, json_number none (some x)) ∷ members) t d h =
    lookup-unmarshal_items j members _ d.1 h ∙ after-put k j _ _ members t d.0 refl
lookup-unmarshal_items j ((k, json_number none none) ∷ members) t d h =
    lookup-unmarshal_items j members t d.1 h ∙ after_dropped k j members _ d.0

after_nothing :
    (k : Text) (o : Option Json)
    → after (let t : Table = [] in lookup text_discrete k t) o
      ≡ elim o [ none ↦ none | some j ↦ item_of j ]
unfolding lookup
after_nothing k none = refl
after_nothing k (some (json_string s)) = refl
after_nothing k (some (json_bool b)) = refl
after_nothing k (some (json_number (some i) f)) = refl
after_nothing k (some (json_number none (some x))) = refl
after_nothing k (some (json_number none none)) = refl
after_nothing k (some json_other) = refl

-- UnmarshalJSON of an object with distinct members succeeds exactly where no member is null, an
-- array or an object. Where it succeeds, the table holds for a key the value of its member: a
-- string, a Boolean, the int64 of a number or else its float64. A member that is a number of
-- neither kind is left out, without an error.
pub unmarshal_json-lookup :
    (members : List (Text × Json)) (k : Text)
    → Distinct text_discrete members
    → ((unmarshal_json members).1 ≡ all_supported members)
      × ((all_supported members ≡ false)
          ⊎ (lookup text_discrete k (unmarshal_json members).0
              ≡ elim (lookup text_discrete k members) [ none ↦ none | some j ↦ item_of j ]))
unfolding unmarshal_json
unmarshal_json-lookup members k d = (
  unmarshal_items-success members [],
  elim (Bool-cases (all_supported members)) [
    | inl h ↦
        inr (
          lookup-unmarshal_items k members [] d h
          ∙ after_nothing k (lookup text_discrete k members))
    | inr h ↦ inl h
  ],
)
