-- ===== src/Catalog/Tuples/Accepted.antt =====
-- What validateMetricNamespace lets into the catalog, and instances of dynamic namespaces.
use mathlib.Core.Path.{ap₂}
use native.Mathlib.Nat.{mod-one}
use snap.Base.{
  ℕ, suc, ◌+◌, ◌≡◌, ◌⊎◌, refl, ap, ◌∙◌, true, false, List, [], ◌∷◌, ◌++◌, map, not, ◌&&◌, Option,
  none, some, Text, get_elem?, All, arith, Bool-cases, inl, inr, if◌then◌else◌,
}
use snap.Namespace.{
  NamespaceElement, Namespace, strings, is_dynamic, dynamic_from, element_is_dynamic,
}
use snap.Catalog.Tuples.{
  NamespaceError, static_element_has_name, dynamic_element_has_no_name, element_has_tuple, is_empty,
  is_tuple, is_asterisk, contains_tuple, matched_items, item_at, set_values, find_tuples_matches,
  possible_combinations, validate_from, validate_metric_namespace, specify_indexes,
  specify_instance, has_suffix, specify_index,
}

-- A name goes with an asterisk, and there is no tuple.
abbrev pub IsProper : NamespaceElement → Type 0
IsProper e = (element_is_dynamic e ≡ is_asterisk e.value) × (is_tuple e.value ≡ false)

abbrev pub concat : Text → Namespace → Text
concat value [] = value
concat value (e ∷ ns) = concat (value ++ e.value) ns

validate_from_step :
    (e : NamespaceElement) (rest : Option NamespaceError)
    → (if not (is_empty e.name) && not (is_asterisk e.value)
        then some static_element_has_name
        else if is_empty e.name && is_asterisk e.value
        then some dynamic_element_has_no_name
        else if is_tuple e.value
        then some element_has_tuple
        else rest)
      ≡ none
    → IsProper e × (rest ≡ none)
validate_from_step e rest h = ground arith

matched_items_proper : (e : Text) → is_tuple e ≡ false → matched_items e ≡ e ∷ []
unfolding matched_items contains_tuple
matched_items_proper e h = rw (h) refl

item_at_one : (t : Text) (i : ℕ) → item_at (t ∷ []) i ≡ t
unfolding item_at
item_at_one t i = rw (mod-one i, item_at) refl

validate_from-IsProper :
    (ns : Namespace) (value : Text)
    → validate_from value ns ≡ none
    → All IsProper ns × (has_suffix b'*' (concat value ns) ≡ false)
unfolding validate_from
validate_from-IsProper [] value h = ground arith
validate_from-IsProper (e ∷ ns) value h =
    let (proper, rest) = validate_from_step e (validate_from (value ++ e.value) ns) h in
    let (all, last) = validate_from-IsProper ns (value ++ e.value) rest in ((proper, all), last)

set_values_proper : (i : ℕ) (ns : Namespace) → All IsProper ns → set_values i ns ≡ ns
unfolding set_values
set_values_proper i [] w = refl
set_values_proper i (e ∷ ns) w =
    rw (matched_items_proper e.value w.0.1, item_at_one e.value i, set_values_proper i ns w.1) refl

possible_combinations_proper : (ns : Namespace) → All IsProper ns → possible_combinations ns ≡ 1
unfolding possible_combinations
possible_combinations_proper [] w = refl
possible_combinations_proper (e ∷ ns) w =
    rw (matched_items_proper e.value w.0.1, possible_combinations_proper ns w.1) refl

proper-dynamic :
    (ns : Namespace) → All IsProper ns → All (λ e. element_is_dynamic e ≡ is_asterisk e.value) ns
proper-dynamic [] w = tt
proper-dynamic (e ∷ ns) w = (w.0.0, proper-dynamic ns w.1)

-- In a namespace that validateMetricNamespace accepts, an element holds data exactly if its value is
-- an asterisk, and the text of all elements does not end with one; requested as it stands, such a
-- namespace is the only one that findTuplesMatches returns.
pub find_tuples_matches-validate :
    (ns : Namespace)
    → validate_metric_namespace ns ≡ none
    → All (λ e. element_is_dynamic e ≡ is_asterisk e.value) ns
      × (has_suffix b'*' (concat [] ns) ≡ false)
      × (find_tuples_matches ns ≡ ns ∷ [])
unfolding validate_metric_namespace find_tuples_matches
find_tuples_matches-validate ns h =
    let (all, last) = validate_from-IsProper ns [] h in
    (
      proper-dynamic ns all,
      last,
      rw (possible_combinations_proper ns all, set_values_proper 0 ns all) refl,
    )

-- Element by element, as far as the request goes.
abbrev pub instance_of : Namespace → Namespace → Namespace
instance_of [] requested = []
instance_of (e ∷ ns) [] = e ∷ ns
instance_of (e ∷ ns) (d ∷ requested) =
    (if element_is_dynamic e then record e { value = d.value } else e) ∷ instance_of ns requested

dynamic_from-suc : (i : ℕ) (ns : Namespace) → dynamic_from (suc i) ns ≡ map suc (dynamic_from i ns)
dynamic_from-suc i [] = refl
dynamic_from-suc i (e ∷ ns) = ground (arith, dynamic_from-suc (i + 1) ns)

specify_index_below :
    (i : ℕ) (o : Option NamespaceElement) (e : NamespaceElement) (ns : Namespace)
    → specify_index (suc i) o (e ∷ ns) ≡ e ∷ specify_index i o ns
specify_index_below i none e ns = refl
specify_index_below i (some d) e ns = refl

specify_indexes_below :
    (indexes : List ℕ) (e d : NamespaceElement) (ns requested : Namespace)
    → specify_indexes (map suc indexes) (e ∷ ns) (d ∷ requested)
      ≡ e ∷ specify_indexes indexes ns requested
unfolding specify_indexes
specify_indexes_below [] e d ns requested = refl
specify_indexes_below (i ∷ indexes) e d ns requested =
    ap (λ r. specify_indexes (map suc indexes) r (d ∷ requested))
      (specify_index_below i (get_elem? requested i) e ns)
    ∙ specify_indexes_below indexes e d (specify_index i (get_elem? requested i) ns) requested

specify_indexes_nothing : (indexes : List ℕ) (ns : Namespace) → specify_indexes indexes ns [] ≡ ns
unfolding specify_indexes
specify_indexes_nothing [] ns = refl
specify_indexes_nothing (i ∷ indexes) ns = specify_indexes_nothing indexes ns

specify_rest :
    (ns requested : Namespace) (e d : NamespaceElement)
    → specify_indexes (dynamic_from 0 ns) ns requested ≡ instance_of ns requested
    → specify_indexes (dynamic_from 1 ns) (e ∷ ns) (d ∷ requested) ≡ e ∷ instance_of ns requested
specify_rest ns requested e d h =
    ap (λ l. specify_indexes l (e ∷ ns) (d ∷ requested)) (dynamic_from-suc 0 ns)
    ∙ specify_indexes_below (dynamic_from 0 ns) e d ns requested
    ∙ ap (λ r. e ∷ r) h

specify_indexes-instance_of :
    (ns requested : Namespace)
    → specify_indexes (dynamic_from 0 ns) ns requested ≡ instance_of ns requested
unfolding specify_indexes
specify_indexes-instance_of [] requested = refl
specify_indexes-instance_of (e ∷ ns) [] = specify_indexes_nothing (dynamic_from 0 (e ∷ ns)) (e ∷ ns)
specify_indexes-instance_of (e ∷ ns) (d ∷ requested) = elim (Bool-cases (element_is_dynamic e)) [
  | inl h ↦ rw (h) (
      specify_rest ns requested (record e { value = d.value }) d
        (specify_indexes-instance_of ns requested))
  | inr h ↦ rw (h) (specify_rest ns requested e d (specify_indexes-instance_of ns requested))
]

-- The request names an instance: it has as many elements, and the same values where the cataloged
-- namespace holds no data.
abbrev pub Fits : Namespace → Namespace → Type 0
Fits [] [] = Unit
Fits (e ∷ ns) (d ∷ requested) =
    ((element_is_dynamic e ≡ true) ⊎ (e.value ≡ d.value)) × Fits ns requested
Fits _ _ = ⊥

value-instance :
    (e d : NamespaceElement)
    → (element_is_dynamic e ≡ true) ⊎ (e.value ≡ d.value)
    → (if element_is_dynamic e then record e { value = d.value } else e).value ≡ d.value
value-instance e d (inl h) = rw (h) refl
value-instance e d (inr h) = elim (Bool-cases (element_is_dynamic e)) [
  | inl k ↦ rw (k) refl
  | inr k ↦ rw (k) h
]

strings-instance_of :
    (ns requested : Namespace)
    → Fits ns requested
    → strings (instance_of ns requested) ≡ strings requested
unfolding strings
strings-instance_of [] [] w = refl
strings-instance_of [] (d ∷ requested) w = absurd w
strings-instance_of (e ∷ ns) [] w = absurd w
strings-instance_of (e ∷ ns) (d ∷ requested) w =
    ap₂ ◌∷◌ (value-instance e d w.0) (strings-instance_of ns requested w.1)

-- specifyInstanceOfDynamicMetric puts the request's values into the dynamic elements and leaves the
-- names, the descriptions and all other elements; for a request that fits, of the same length and
-- with the same static elements, the instance has just the values of the request.
pub strings-specify_instance :
    (cataloged requested : Namespace)
    → Fits cataloged requested
    → (specify_instance cataloged requested ≡ instance_of cataloged requested)
      × (strings (specify_instance cataloged requested) ≡ strings requested)
unfolding specify_instance is_dynamic
strings-specify_instance cataloged requested w =
    let e = specify_indexes-instance_of cataloged requested in
    (e, ap strings e ∙ strings-instance_of cataloged requested w)
