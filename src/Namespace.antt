-- ===== src/Namespace.antt =====
-- core/metric.go: namespaces, their elements, and the separator that their print is joined by.
pub mod Separator
pub mod Printing
mod Samples
use snap.Base.{
  ℕ, ◌+◌, Bool, true, false, ◌||◌, List, [], ◌∷◌, ◌++◌, map, Text, contains, if◌then◌else◌,
}

pub record NamespaceElement : Type 0 where
  pub value : Text
  pub description : Text
  pub name : Text

abbrev pub Namespace : Type 0
Namespace = List NamespaceElement

-- An element with a name holds data.
abbrev pub element_is_dynamic : NamespaceElement → Bool
element_is_dynamic e = elim e.name [ [] ↦ false | _ ∷ _ ↦ true ]

-- The indices of the dynamic elements, the first element having index `i`.
abbrev pub dynamic_from : ℕ → Namespace → List ℕ
dynamic_from i [] = []
dynamic_from i (e ∷ n) =
    if element_is_dynamic e then i ∷ dynamic_from (i + 1) n else dynamic_from (i + 1) n

abbrev pub any_dynamic : Namespace → Bool
any_dynamic [] = false
any_dynamic (e ∷ n) = element_is_dynamic e || any_dynamic n

unfoldable pub is_dynamic : Namespace → Bool × List ℕ
is_dynamic n = (any_dynamic n, dynamic_from 0 n)

unfoldable pub strings : Namespace → List Text
strings n = map (λ e. e.value) n

-- "/", "|", "%", ":", "-", ";", "_", "^", ">", "<", "+", "=", "&", and seven letters of other
-- alphabets.
abbrev pub ns_priority_list : List ℕ
ns_priority_list =
    0x2f ∷ 0x7c ∷ 0x25 ∷ 0x3a ∷ 0x2d ∷ 0x3b ∷ 0x5f ∷ 0x5e ∷ 0x3e ∷ 0x3c ∷ 0x2b ∷ 0x3d ∷ 0x26
    ∷ 0x32bd ∷ 0xc4 ∷ 0x5927 ∷ 0x5c0f ∷ 0x1d79 ∷ 0x260d ∷ 0x30d2 ∷ []

abbrev pub separator : ℕ
separator = 0x1f422

-- The entry of the separator map: true once some element shows the character.
unfoldable pub is_used : ℕ → List Text → Bool
is_used c [] = false
is_used c (s ∷ ss) = contains c s || is_used c ss

unfoldable pub first_free : List ℕ → List Text → ℕ
first_free [] ss = separator
first_free (c ∷ cs) ss = if is_used c ss then first_free cs ss else c

unfoldable pub get_separator : Namespace → ℕ
get_separator n = first_free ns_priority_list (strings n)

-- strings.Join, for a separator of one character.
unfoldable pub join : List Text → ℕ → Text
join [] c = []
join (s ∷ []) c = s
join (s ∷ t ∷ ss) c = s ++ (c ∷ join (t ∷ ss) c)

unfoldable pub to_string : Namespace → Text
to_string n = get_separator n ∷ join (strings n) (get_separator n)

unfoldable pub new_namespace : List Text → Namespace
new_namespace ss = map (λ s. record { value = s; description = []; name = [] }) ss

unfoldable pub add_dynamic_element : Namespace → Text → Text → Namespace
add_dynamic_element n name description =
    n ++ record { value = b'*' ∷ []; description = description; name = name } ∷ []

unfoldable pub add_static_element : Namespace → Text → Namespace
add_static_element n value = n ++ record { value = value; description = []; name = [] } ∷ []

unfoldable pub add_static_elements : Namespace → List Text → Namespace
unfolding add_static_element
add_static_elements n [] = n
add_static_elements n (v ∷ vs) = add_static_elements (add_static_element n v) vs
