-- ===== src/Catalog/Tuples.antt =====
-- control/metrics.go: tuples in the elements of a requested namespace, as in (host0;host1), what is
-- refused in a plugin's namespace, and how a dynamic namespace is made an instance.
pub mod Matches
pub mod Accepted
use snap.Base.{
  ℕ, zero, suc, ◌+◌, ◌*◌, ◌%◌, Bool, true, false, not, ◌&&◌, ◌||◌, List, [], ◌∷◌, ◌++◌, map, Option,
  none, some, Text, contains, length, get_elem?, leb, ◌==◌, if◌then◌else◌,
}
use snap.Namespace.{NamespaceElement, Namespace, strings, is_dynamic}

abbrev has_prefix : ℕ → Text → Bool
has_prefix c [] = false
has_prefix c (r ∷ s) = r == c

abbrev pub has_suffix : ℕ → Text → Bool
has_suffix c [] = false
has_suffix c (r ∷ []) = r == c
has_suffix c (r ∷ t ∷ s) = has_suffix c (t ∷ s)

unfoldable pub is_tuple : Text → Bool
unfolding contains
is_tuple element = has_prefix b'(' element && has_suffix b')' element && contains b';' element

abbrev pub trim_prefix : Text → Text
trim_prefix [] = []
trim_prefix (r ∷ s) = s

abbrev pub trim_suffix : Text → Text
trim_suffix [] = []
trim_suffix (r ∷ []) = []
trim_suffix (r ∷ t ∷ s) = r ∷ trim_suffix (t ∷ s)

abbrev pub prepend : ℕ → List Text → List Text
prepend c [] = (c ∷ []) ∷ []
prepend c (s ∷ ss) = (c ∷ s) ∷ ss

-- strings.Split, for a separator of one character.
abbrev pub split : ℕ → Text → List Text
split c [] = [] ∷ []
split c (r ∷ s) = if r == c then [] ∷ split c s else prepend r (split c s)

-- unicode.IsSpace.
abbrev is_space : ℕ → Bool
is_space c =
    (leb 9 c && leb c 13)
    || c == 32
    || c == 0x85
    || c == 0xa0
    || c == 0x1680
    || (leb 0x2000 c && leb c 0x200a)
    || c == 0x2028
    || c == 0x2029
    || c == 0x202f
    || c == 0x205f
    || c == 0x3000

abbrev trim_left : Text → Text
trim_left [] = []
trim_left (r ∷ s) = let rest = trim_left s in if is_space r then rest else r ∷ s

abbrev trim_right : Text → Text
trim_right [] = []
trim_right (r ∷ s) = elim (trim_right s) [
  | [] ↦ if is_space r then [] else r ∷ []
  | t ∷ rest ↦ r ∷ t ∷ rest
]

-- strings.TrimSpace.
abbrev pub trim_space : Text → Text
trim_space s = trim_right (trim_left s)

unfoldable pub contains_tuple : Text → Bool × List Text
unfolding is_tuple contains
contains_tuple ns_element =
    if is_tuple ns_element
    then if contains b'*' ns_element
      then (true, (b'*' ∷ []) ∷ [])
      else (true, map trim_space (split b';' (trim_suffix (trim_prefix ns_element))))
    else (false, [])

-- The items that are stored for an element.
unfoldable pub matched_items : Text → List Text
unfolding contains_tuple
matched_items element =
    let (ok, tuple_items) = contains_tuple element in if ok then tuple_items else element ∷ []

unfoldable pub possible_combinations : Namespace → ℕ
possible_combinations [] = 1
possible_combinations (e ∷ ns) = length (matched_items e.value) * possible_combinations ns

-- The item at `i`, counted around. There is one, as there are items.
unfoldable pub item_at : List Text → ℕ → Text
item_at items i = elim (get_elem? items (i % length items)) [ none ↦ [] | some item ↦ item ]

-- The returned namespace of index `i`.
unfoldable pub set_values : ℕ → Namespace → Namespace
set_values i [] = []
set_values i (e ∷ ns) = record e { value = item_at (matched_items e.value) i } ∷ set_values i ns

abbrev pub returned_from : ℕ → ℕ → Namespace → List Namespace
returned_from i zero ns = []
returned_from i (suc n) ns = set_values i ns ∷ returned_from (suc i) n ns

unfoldable pub find_tuples_matches : Namespace → List Namespace
find_tuples_matches incoming_ns = returned_from 0 (possible_combinations incoming_ns) incoming_ns

-- The errors, in the order of the tests on an element.
pub data NamespaceError : Type 0 where
  static_element_has_name dynamic_element_has_no_name element_has_tuple : NamespaceError
  ends_with_asterisk : NamespaceError

abbrev pub is_empty : Text → Bool
is_empty [] = true
is_empty (c ∷ s) = false

abbrev pub is_asterisk : Text → Bool
is_asterisk (c ∷ []) = c == b'*'
is_asterisk _ = false

-- `value` is the text of the elements so far, and `none` is success.
unfoldable pub validate_from : Text → Namespace → Option NamespaceError
unfolding is_tuple
validate_from value [] = if has_suffix b'*' value then some ends_with_asterisk else none
validate_from value (i ∷ ns) =
    let rest = validate_from (value ++ i.value) ns in
    if not (is_empty i.name) && not (is_asterisk i.value)
    then some static_element_has_name
    else if is_empty i.name && is_asterisk i.value
    then some dynamic_element_has_no_name
    else if is_tuple i.value
    then some element_has_tuple
    else rest

unfoldable pub validate_metric_namespace : Namespace → Option NamespaceError
validate_metric_namespace ns = validate_from [] ns

abbrev set_value : ℕ → Text → Namespace → Namespace
set_value i v [] = []
set_value zero v (e ∷ ns) = record e { value = v } ∷ ns
set_value (suc i) v (e ∷ ns) = e ∷ set_value i v ns

-- Where the request is too short the element stays as it is.
abbrev pub specify_index : ℕ → Option NamespaceElement → Namespace → Namespace
specify_index i none specified = specified
specify_index i (some e) specified = set_value i e.value specified

unfoldable pub specify_indexes : List ℕ → Namespace → Namespace → Namespace
specify_indexes [] specified requested = specified
specify_indexes (i ∷ indexes) specified requested =
    specify_indexes indexes (specify_index i (get_elem? requested i) specified) requested

unfoldable pub specify_instance : Namespace → Namespace → Namespace
unfolding is_dynamic
specify_instance cataloged requested = specify_indexes (is_dynamic cataloged).1 cataloged requested
