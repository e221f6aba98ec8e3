-- ===== src/ConfigData/Merging.antt =====
-- What a node's table holds after Merge, and after Get of the tree.
use mathlib.Core.List.{lookup}
use snap.Base.{
  ◌≡◌, ◌≢◌, refl, sym, ap, ◌∙◌, List, [], ◌∷◌, Option, none, some, Text, text_discrete, ℕ_discrete,
  All, arith, if_pos, if_neg, ite,
}
use snap.Base.Map.{put, lookup-put}
use snap.ConfigTree.{ConfigTree, nodes_on, merge_all, merge_nodes, get}
use snap.ConfigData.{
  ConfigValue, Table, Store, ConfigDataNode, table_of, set_table, from_table, add_item, add_items,
  merge, get_config,
}

abbrev pub value : Store → ConfigDataNode → Text → Option ConfigValue
value s c k = lookup text_discrete k (table_of s c)

-- The first, and where there is none the second.
abbrev pub or_else : Option ConfigValue → Option ConfigValue → Option ConfigValue
or_else (some v) o = some v
or_else none o = o

-- The value of the last of the nodes that has one.
abbrev pub last_value : Store → List ConfigDataNode → Text → Option ConfigValue
last_value s [] k = none
last_value s (n ∷ ns) k = or_else (last_value s ns k) (value s n k)

table_of-set_table :
    (s : Store) (c d : ConfigDataNode) (t : Table)
    → table_of (set_table s c t) d ≡ ite (ℕ_discrete c.table d.table) t (table_of s d)
unfolding table_of set_table
table_of-set_table s c d t = ground (arith, lookup-put ℕ_discrete c.table d.table t s.tables)

pub table_of-set_table_self :
    (s : Store) (c : ConfigDataNode) (t : Table) → table_of (set_table s c t) c ≡ t
table_of-set_table_self s c t =
    table_of-set_table s c c t ∙ if_pos (ℕ_discrete c.table c.table) refl t (table_of s c)

pub table_of-set_table_ne :
    (s : Store) (c d : ConfigDataNode) (t : Table)
    → c.table ≢ d.table
    → table_of (set_table s c t) d ≡ table_of s d
table_of-set_table_ne s c d t ne =
    table_of-set_table s c d t ∙ if_neg (ℕ_discrete c.table d.table) ne t (table_of s d)

pub table_of-from_table_self :
    (s : Store) (t : Table) → table_of (from_table s t).0 (from_table s t).1 ≡ t
unfolding from_table table_of
table_of-from_table_self s t = ground (arith, lookup-put ℕ_discrete s.next s.next t s.tables)

pub table_of-from_table_ne :
    (s : Store) (d : ConfigDataNode) (t : Table)
    → s.next ≢ d.table
    → table_of (from_table s t).0 d ≡ table_of s d
unfolding from_table table_of
table_of-from_table_ne s d t ne = ground (arith, lookup-put ℕ_discrete s.next d.table t s.tables)

value-add_item :
    (s : Store) (c : ConfigDataNode) (j k : Text) (v : ConfigValue)
    → k ≢ []
    → value (add_item s c j v) c k ≡ ite (text_discrete j k) (some v) (value s c k)
unfolding add_item
value-add_item s c [] k v ne =
    sym (if_neg (text_discrete [] k) (λ e. ne (sym e)) (some v) (value s c k))
value-add_item s c (r ∷ j) k v ne =
    ap (lookup text_discrete k)
      (table_of-set_table_self s c (put text_discrete (r ∷ j) v (table_of s c)))
    ∙ lookup-put text_discrete (r ∷ j) k v (table_of s c)

value-add_items :
    (s : Store) (c : ConfigDataNode) (k : Text) (t : Table)
    → k ≢ []
    → value (add_items s c t) c k ≡ or_else (lookup text_discrete k t) (value s c k)
unfolding add_items lookup
value-add_items s c k [] ne = refl
value-add_items s c k ((j, v) ∷ t) ne =
    value-add_item (add_items s c t) c j k v ne ∙ ground (arith, value-add_items s c k t ne)

table_of-add_items_ne :
    (s : Store) (c d : ConfigDataNode) (t : Table)
    → c.table ≢ d.table
    → table_of (add_items s c t) d ≡ table_of s d
unfolding add_items add_item
table_of-add_items_ne s c d [] ne = refl
table_of-add_items_ne s c d (([], v) ∷ t) ne = table_of-add_items_ne s c d t ne
table_of-add_items_ne s c d ((r ∷ k, v) ∷ t) ne =
    table_of-set_table_ne (add_items s c t) c d _ ne ∙ table_of-add_items_ne s c d t ne

-- No other node has the table of the first one.
abbrev pub Unshared : ConfigDataNode → List ConfigDataNode → Type 0
Unshared n ns = All (λ m. n.table ≢ m.table) ns

last_value-merge :
    (s : Store) (n : ConfigDataNode) (t : Table) (ns : List ConfigDataNode) (k : Text)
    → Unshared n ns
    → last_value (add_items s n t) ns k ≡ last_value s ns k
last_value-merge s n t [] k u = refl
last_value-merge s n t (m ∷ ns) k u =
    rw (last_value-merge s n t ns k u.1, table_of-add_items_ne s n m t u.0) refl

merge_all-node :
    (s : Store) (n : ConfigDataNode) (ns : List ConfigDataNode) → (merge_all merge s n ns).1 ≡ n
unfolding merge_all merge
merge_all-node s n [] = refl
merge_all-node s n (m ∷ ns) = merge_all-node (add_items s n (table_of s m)) n ns

pub or_else_assoc : (a b c : Option ConfigValue) → or_else a (or_else b c) ≡ or_else (or_else a b) c
or_else_assoc none b c = refl
or_else_assoc (some v) b c = refl

pub or_else-none : (a : Option ConfigValue) → or_else a none ≡ a
or_else-none none = refl
or_else-none (some v) = refl

value-merge_all :
    (s : Store) (n : ConfigDataNode) (ns : List ConfigDataNode) (k : Text)
    → Unshared n ns
    → k ≢ []
    → value (merge_all merge s n ns).0 n k ≡ or_else (last_value s ns k) (value s n k)
unfolding merge_all merge
value-merge_all s n [] k u ne = refl
value-merge_all s n (m ∷ ns) k u ne =
    value-merge_all (add_items s n (table_of s m)) n ns k u.1 ne
    ∙ ap (λ o. or_else o (value (add_items s n (table_of s m)) n k))
        (last_value-merge s n (table_of s m) ns k u.1)
    ∙ ap (or_else (last_value s ns k)) (value-add_items s n k (table_of s m) ne)
    ∙ or_else_assoc (last_value s ns k) (value s m k) (value s n k)

get_config-nodes :
    (s : Store) (ns : List Text) (c : ConfigTree ConfigDataNode) (n : ConfigDataNode)
    (rest : List ConfigDataNode)
    → nodes_on ns c ≡ n ∷ rest
    → get_config s ns c ≡ ((merge_all merge s n rest).0, some n)
unfolding get_config get merge_nodes
get_config-nodes s ns c n rest h = rw (h, merge_all-node s n rest) refl

get_config_one :
    (s : Store) (ns : List Text) (c : ConfigTree ConfigDataNode) (n : ConfigDataNode)
    → nodes_on ns c ≡ n ∷ []
    → get_config s ns c ≡ (s, some n)
unfolding merge_all
get_config_one s ns c n h = get_config-nodes s ns c n [] h

-- Where Get merges the node n and further nodes that do not share its table, it returns n itself,
-- and n then holds for each key but the empty one the value of the last of these nodes that has
-- one. The values stay in n: a Get of a namespace for which n is the only node returned n with its
-- own values before, and from then on returns it with the merged ones.
pub get_config-overwrites :
    (s : Store) (ns shallow : List Text) (c : ConfigTree ConfigDataNode) (n : ConfigDataNode)
    (rest : List ConfigDataNode) (k : Text)
    → nodes_on ns c ≡ n ∷ rest
    → nodes_on shallow c ≡ n ∷ []
    → Unshared n rest
    → k ≢ []
    → (let s' = (get_config s ns c).0 in
        ((get_config s ns c).1 ≡ some n)
        × (value s' n k ≡ last_value s (n ∷ rest) k)
        × (get_config s shallow c ≡ (s, some n))
        × (get_config s' shallow c ≡ (s', some n)))
get_config-overwrites s ns shallow c n rest k h hs u ne = (
  ap (λ p. p.1) (get_config-nodes s ns c n rest h),
  ap (λ p. value p.0 n k) (get_config-nodes s ns c n rest h) ∙ value-merge_all s n rest k u ne,
  get_config_one s shallow c n hs,
  get_config_one (get_config s ns c).0 shallow c n hs,
)
