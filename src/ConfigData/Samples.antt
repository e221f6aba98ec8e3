-- ===== src/ConfigData/Samples.antt =====
-- core/cdata: two nodes of a tree, at a namespace and below it, and a JSON object.
use snap.Base.{◌≡◌, refl, [], ◌∷◌, some, Text, text_discrete, arith}
use snap.Base.Int.{pos}
use snap.ConfigTree.{ConfigTree, root, node, nil, cons, nodes_on, get_node}
use snap.ConfigData.{ConfigDataNode, Store, config_int, get_config}
use snap.ConfigData.Merging.{value, last_value, get_config-overwrites}

abbrev k1 : Text
k1 = b'k' ∷ []

abbrev upper : ConfigDataNode
upper = record { table = 0 }

abbrev lower : ConfigDataNode
lower = record { table = 1 }

abbrev store : Store
store = record {
  next = 2;
  tables = (0, (k1, config_int (pos 1)) ∷ []) ∷ (1, (k1, config_int (pos 2)) ∷ []) ∷ [];
}

abbrev tree : ConfigTree ConfigDataNode
tree = root (node k1 (some upper) (cons (node k1 (some lower) nil) nil))

nodes_on_deep : nodes_on (k1 ∷ k1 ∷ []) tree ≡ upper ∷ lower ∷ []
unfolding nodes_on get_node text_discrete
nodes_on_deep = refl

nodes_on_shallow : nodes_on (k1 ∷ []) tree ≡ upper ∷ []
unfolding nodes_on get_node text_discrete
nodes_on_shallow = refl

get_config-overwrites_example :
    let s' = (get_config store (k1 ∷ k1 ∷ []) tree).0 in
    ((get_config store (k1 ∷ k1 ∷ []) tree).1 ≡ some upper)
    × (value s' upper k1 ≡ last_value store (upper ∷ lower ∷ []) k1)
    × (get_config store (k1 ∷ []) tree ≡ (store, some upper))
    × (get_config s' (k1 ∷ []) tree ≡ (s', some upper))
get_config-overwrites_example =
    get_config-overwrites store (k1 ∷ k1 ∷ []) (k1 ∷ []) tree upper (lower ∷ []) k1 nodes_on_deep
      nodes_on_shallow ((λ e. omega arith), tt) (λ e. cc)
