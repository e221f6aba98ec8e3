-- ===== src/ConfigData/Filling.antt =====
-- What a node's table holds after ReverseMerge, ReverseMergeInPlace and ApplyDefaults.
use mathlib.Core.List.{lookup}
use snap.Base.{
  ◌<◌, ◌≡◌, ◌≢◌, refl, sym, ap, ◌∙◌, [], ◌∷◌, none, some, Text, text_discrete, arith, ite,
  Option-cases, inl, inr,
}
use snap.Base.Map.{put, lookup-put}
use snap.ConfigData.{
  ConfigValue, Table, Store, ConfigDataNode, table_of, from_table, new_node, put_all,
  reverse_merge_in_place, reverse_merge, add_missing, apply_defaults,
}
use snap.ConfigData.Merging.{
  value, or_else, table_of-set_table_self, table_of-set_table_ne, table_of-from_table_self,
  table_of-from_table_ne, or_else_assoc, or_else-none,
}

lookup-put_all :
    (k : Text) (u t : Table)
    → lookup text_discrete k (put_all u t)
      ≡ or_else (lookup text_discrete k u) (lookup text_discrete k t)
unfolding put_all lookup
lookup-put_all k [] t = refl
lookup-put_all k ((j, v) ∷ u) t =
    lookup-put text_discrete j k v (put_all u t) ∙ ground (arith, lookup-put_all k u t)

add_missing_one : Text → ConfigValue → Table → Table
add_missing_one j v t = elim (lookup text_discrete j t) [
  | none ↦ put text_discrete j v t
  | some _ ↦ t
]

add_missing_one-none :
    (j : Text) (v : ConfigValue) (t : Table)
    → lookup text_discrete j t ≡ none
    → add_missing_one j v t ≡ put text_discrete j v t
unfolding add_missing_one
add_missing_one-none j v t h = rw (h, add_missing_one) refl

add_missing_one-some :
    (j : Text) (v w : ConfigValue) (t : Table)
    → lookup text_discrete j t ≡ some w
    → add_missing_one j v t ≡ t
unfolding add_missing_one
add_missing_one-some j v w t h = rw (h, add_missing_one) refl

or_else_last :
    (k j : Text) (v : ConfigValue) (t : Table)
    → lookup text_discrete j t ≡ none
    → ite (text_discrete j k) (some v) (lookup text_discrete k t)
      ≡ or_else (lookup text_discrete k t) (ite (text_discrete k j) (some v) none)
or_else_last k j v t h = ground arith

or_else_known :
    (k j : Text) (v w : ConfigValue) (t : Table)
    → lookup text_discrete j t ≡ some w
    → lookup text_discrete k t
      ≡ or_else (lookup text_discrete k t) (ite (text_discrete k j) (some v) none)
or_else_known k j v w t h = ground arith

lookup-add_missing_one :
    (k j : Text) (v : ConfigValue) (t : Table)
    → lookup text_discrete k (add_missing_one j v t)
      ≡ or_else (lookup text_discrete k t) (ite (text_discrete k j) (some v) none)
lookup-add_missing_one k j v t = elim (Option-cases (lookup text_discrete j t)) [
  | inl e ↦
      rw (add_missing_one-none j v t e, lookup-put text_discrete j k v t) (or_else_last k j v t e)
  | inr (w, e) ↦ rw (add_missing_one-some j v w t e) (or_else_known k j v w t e)
]

lookup-add_missing :
    (k : Text) (d t : Table)
    → lookup text_discrete k (add_missing d t)
      ≡ or_else (lookup text_discrete k t) (lookup text_discrete k d)
unfolding add_missing lookup add_missing_one
lookup-add_missing k [] t = sym (or_else-none (lookup text_discrete k t))
lookup-add_missing k ((j, v) ∷ d) t =
    lookup-add_missing k d (add_missing_one j v t)
    ∙ ap (λ o. or_else o (lookup text_discrete k d)) (lookup-add_missing_one k j v t)
    ∙ sym (
        or_else_assoc (lookup text_discrete k t) (ite (text_discrete k j) (some v) none)
          (lookup text_discrete k d))
    ∙ ap (or_else (lookup text_discrete k t)) (ground arith)

value-put_all :
    (s : Store) (c n : ConfigDataNode) (k : Text)
    → lookup text_discrete k (put_all (table_of s c) (put_all (table_of s n) []))
      ≡ or_else (value s c k) (value s n k)
unfolding lookup
value-put_all s c n k =
    lookup-put_all k (table_of s c) (put_all (table_of s n) [])
    ∙ ap (or_else (value s c k)) (lookup-put_all k (table_of s n) [] ∙ or_else-none (value s n k))

from_table-fresh :
    (s : Store) (d : ConfigDataNode) (t : Table)
    → d.table < s.next
    → (from_table s t).1.table ≢ d.table
unfolding from_table
from_table-fresh s d t old = λ e. omega arith

-- ReverseMerge, ReverseMergeInPlace and ApplyDefaults with the other node's table give a node with
-- the same value for every key: the receiver's, and where it has none the other node's. ReverseMerge
-- and ReverseMergeInPlace write to no table that was there before.
pub reverse_merge-fills :
    (s : Store) (c n d : ConfigDataNode) (k : Text)
    → d.table < s.next
    → (let (s1, copy) = reverse_merge s c n in
        let (s2, c2) = reverse_merge_in_place s c n in
        let s3 = apply_defaults s c (table_of s n) in
        (value s1 copy k ≡ or_else (value s c k) (value s n k))
        × (value s2 c2 k ≡ or_else (value s c k) (value s n k))
        × (value s3 c k ≡ or_else (value s c k) (value s n k))
        × (table_of s1 d ≡ table_of s d)
        × (table_of s2 d ≡ table_of s d))
unfolding reverse_merge reverse_merge_in_place apply_defaults new_node
reverse_merge-fills s c n d k old =
    let t = put_all (table_of s c) (put_all (table_of s n) []) in
    let (s', copy) = from_table s [] in
    (
      ap (lookup text_discrete k) (table_of-set_table_self s' copy t) ∙ value-put_all s c n k,
      ap (lookup text_discrete k) (table_of-from_table_self s t) ∙ value-put_all s c n k,
      ap (lookup text_discrete k)
            (table_of-set_table_self s c (add_missing (table_of s n) (table_of s c)))
          ∙ lookup-add_missing k (table_of s n) (table_of s c),
      table_of-set_table_ne s' copy d t (from_table-fresh s d [] old)
          ∙ table_of-from_table_ne s d [] (λ e. omega arith),
      table_of-from_table_ne s d t (λ e. omega arith),
    )
