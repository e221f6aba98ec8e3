-- ===== src/Catalog/Tuples/Matches.antt =====
-- Which namespaces findTuplesMatches returns.
use native.Mathlib.Nat.{mod-lt}
use snap.Base.{
  ℕ, zero, suc, ◌%◌, ◌<◌, ◌≤◌, ◌≡◌, refl, sym, ap, ◌∙◌, List, [], ◌∷◌, map, Option, none, some,
  Text, contains, length, get_elem?, All, arith, Bool-cases, inl, inr,
}
use snap.Namespace.{NamespaceElement, Namespace, strings}
use snap.Catalog.Tuples.{
  trim_prefix, trim_suffix, is_tuple, prepend, split, trim_space, contains_tuple, matched_items,
  item_at, set_values, returned_from, find_tuples_matches, possible_combinations,
}

get_elem?-lt :
    {A : Type 0} (xs : List A) (i : ℕ) → i < length xs → (x : A) × (get_elem? xs i ≡ some x)
get_elem?-lt [] i h = absurd (omega arith)
get_elem?-lt (x ∷ xs) zero h = (x, refl)
get_elem?-lt (x ∷ xs) (suc i) h = get_elem?-lt xs i (omega arith)

length-prepend : (c : ℕ) (ss : List Text) → 1 ≤ length (prepend c ss)
length-prepend c [] = omega arith
length-prepend c (s ∷ ss) = omega arith

length-split : (c : ℕ) (s : Text) → 1 ≤ length (split c s)
length-split c [] = omega arith
length-split c (r ∷ s) = ground (arith, length-prepend r (split c s))

length-map : {A B : Type 0} (f : A → B) (xs : List A) → length (map f xs) ≡ length xs
length-map f [] = refl
length-map f (x ∷ xs) = ap suc (length-map f xs)

matched_items-length : (element : Text) → 1 ≤ length (matched_items element)
unfolding matched_items contains_tuple
matched_items-length element = elim (Bool-cases (is_tuple element)) [
  | inl t ↦ elim (Bool-cases (contains b'*' element)) [
    | inl a ↦ rw (t, a) (omega arith)
    | inr a ↦
        rw (t, a, length-map trim_space (split b';' (trim_suffix (trim_prefix element))))
          (length-split b';' (trim_suffix (trim_prefix element)))
  ]
  | inr t ↦ rw (t) (omega arith)
]

abbrev or_empty : Option Text → Text
or_empty none = []
or_empty (some item) = item

item_at-get :
    (items : List Text) (i : ℕ)
    → 1 ≤ length items
    → get_elem? items (i % length items) ≡ some (item_at items i)
unfolding item_at
item_at-get items i h =
    let (x, e) = get_elem?-lt items (i % length items) (mod-lt i h) in
    e ∙ sym (ap (λ o. some (or_empty o)) e)

get_elem?-set_values :
    (i : ℕ) (ns : Namespace) (p : ℕ) (e : NamespaceElement)
    → get_elem? ns p ≡ some e
    → get_elem? (strings (set_values i ns)) p ≡ some (item_at (matched_items e.value) i)
unfolding strings set_values
get_elem?-set_values i [] p e h = absurd (ground arith)
get_elem?-set_values i (d ∷ ns) zero e h = cc
get_elem?-set_values i (d ∷ ns) (suc p) e h = get_elem?-set_values i ns p e h

-- The elements at `p` and `q` have the values of one index.
abbrev pub InStep : ℕ → ℕ → List Text → List Text → Namespace → Type 0
InStep p q items others r =
    (j : ℕ) × (get_elem? (strings r) p ≡ get_elem? items j)
    × (get_elem? (strings r) q ≡ get_elem? others j)

InStep-set_values :
    (ns : Namespace) (i p q : ℕ) (e f : NamespaceElement)
    → get_elem? ns p ≡ some e
    → get_elem? ns q ≡ some f
    → length (matched_items e.value) ≡ length (matched_items f.value)
    → InStep p q (matched_items e.value) (matched_items f.value) (set_values i ns)
InStep-set_values ns i p q e f hp hq same = (
  i % length (matched_items e.value),
  get_elem?-set_values i ns p e hp
      ∙ sym (item_at-get (matched_items e.value) i (matched_items-length e.value)),
  get_elem?-set_values i ns q f hq
      ∙ sym (item_at-get (matched_items f.value) i (matched_items-length f.value))
      ∙ ap (λ n. get_elem? (matched_items f.value) (i % n)) (sym same),
)

All-returned_from :
    (P : Namespace → Type 0) (ns : Namespace)
    → ((i : ℕ) → P (set_values i ns))
    → (i n : ℕ) → All P (returned_from i n ns)
All-returned_from P ns h i zero = tt
All-returned_from P ns h i (suc n) = (h i, All-returned_from P ns h (suc i) n)

-- Two elements whose tuples have the same number of items are filled in step: every namespace that
-- findTuplesMatches returns has the items of one index in both, and none mixes two indices.
pub find_tuples_matches-InStep :
    (ns : Namespace) (p q : ℕ) (e f : NamespaceElement)
    → get_elem? ns p ≡ some e
    → get_elem? ns q ≡ some f
    → length (matched_items e.value) ≡ length (matched_items f.value)
    → All (InStep p q (matched_items e.value) (matched_items f.value)) (find_tuples_matches ns)
unfolding find_tuples_matches
find_tuples_matches-InStep ns p q e f hp hq same =
    All-returned_from (InStep p q (matched_items e.value) (matched_items f.value)) ns
      (λ i. InStep-set_values ns i p q e f hp hq same) 0 (possible_combinations ns)

-- A choice of one item for each element, which keeps the elements' names and descriptions.
abbrev pub IsChoice : Namespace → Namespace → Type 0
IsChoice [] [] = Unit
IsChoice (e ∷ ns) (d ∷ r) =
    ((j : ℕ) × (get_elem? (matched_items e.value) j ≡ some d.value))
    × (record e { value = d.value } ≡ d)
    × IsChoice ns r
IsChoice _ _ = ⊥

set_values-IsChoice : (i : ℕ) (ns : Namespace) → IsChoice ns (set_values i ns)
unfolding set_values
set_values-IsChoice i [] = tt
set_values-IsChoice i (e ∷ ns) = (
  (
    i % length (matched_items e.value),
    item_at-get (matched_items e.value) i (matched_items-length e.value),
  ),
  refl,
  set_values-IsChoice i ns,
)

length-returned_from : (i n : ℕ) (ns : Namespace) → length (returned_from i n ns) ≡ n
length-returned_from i zero ns = refl
length-returned_from i (suc n) ns = ap suc (length-returned_from (suc i) n ns)

-- findTuplesMatches returns as many namespaces as there are combinations, and each is a choice of
-- one item for each element. An element without a tuple has itself as its only item.
pub find_tuples_matches-IsChoice :
    (ns : Namespace)
    → (length (find_tuples_matches ns) ≡ possible_combinations ns)
      × All (IsChoice ns) (find_tuples_matches ns)
unfolding find_tuples_matches
find_tuples_matches-IsChoice ns = (
  length-returned_from 0 (possible_combinations ns) ns,
  All-returned_from (IsChoice ns) ns (λ i. set_values-IsChoice i ns) 0 (possible_combinations ns),
)
