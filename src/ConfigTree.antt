-- ===== src/ConfigTree.antt =====
-- pkg/ctree/tree.go: a tree of nodes by namespace, which gives back the nodes on the way to a
-- namespace, merged. A node below the root has one key, since setKeys is called with one key and
-- compact is not called.
pub mod Along
pub mod Refinement
pub mod Keys
mod Samples
use snap.Base.{Bool, true, false, List, [], ◌∷◌, ◌++◌, Option, none, some, Text, text_discrete, ite}

mutual
  pub data Tree (N : Type 0) : Type 0 where
    node : (key : Text) → Option N → Forest N → Tree N

  pub data Forest (N : Type 0) : Type 0 where
    nil : Forest N
    cons : Tree N → Forest N → Forest N

-- A tree has no root before the first Add. `empty_root` is the node without keys that GobEncode
-- gives to a tree without a root.
pub data ConfigTree (N : Type 0) : Type 0 where
  no_root empty_root : ConfigTree N
  root : Tree N → ConfigTree N

module _ {N : Type 0} where
  abbrev pub key_of : Tree N → Text
  key_of (node k o kids) = k

  -- Where a child has the key it is replaced, and otherwise a new one is appended.
  unfoldable pub add_child : Text → (Tree N → Tree N) → Forest N → Forest N
  add_child f add_below nil = cons (add_below (node f none nil)) nil
  add_child f add_below (cons t kids) =
      ite (text_discrete f (key_of t)) (cons (add_below t) kids)
        (cons t (add_child f add_below kids))

  -- The method `add` of a node.
  unfoldable pub add_node : List Text → N → Tree N → Tree N
  add_node [] v (node k o kids) = node k (some v) kids
  add_node (f ∷ remain) v (node k o kids) = node k o (add_child f (add_node remain v) kids)

  -- `none` is a panic.
  unfoldable pub add_root : Text → List Text → N → ConfigTree N → Option (ConfigTree N)
  add_root f remain v no_root = some (root (add_node remain v (node f none nil)))
  add_root f remain v empty_root = none
  add_root f remain v (root t) =
      ite (text_discrete f (key_of t)) (some (root (add_node remain v t))) none

  unfoldable pub add : List Text → N → ConfigTree N → Option (ConfigTree N)
  unfolding add_root
  add [] v c = some c
  add (f ∷ remain) v c = add_root f remain v c

  abbrev pub present : Option N → List N
  present none = []
  present (some v) = v ∷ []

  abbrev pub gather : (Tree N → List N) → Forest N → List N
  gather get_below nil = []
  gather get_below (cons t kids) = get_below t ++ gather get_below kids

  -- The method `get` of a node.
  unfoldable pub get_node : List Text → Tree N → List N
  get_node [] t = []
  get_node (f ∷ remain) (node k o kids) =
      ite (text_discrete f k) (present o ++ gather (get_node remain) kids) []

  -- The nodes that Get merges.
  unfoldable pub nodes_on : List Text → ConfigTree N → List N
  nodes_on ns no_root = []
  nodes_on ns empty_root = []
  nodes_on ns (root t) = get_node ns t

-- Merge may change what its receiver shares with the tree, so it passes a store on.
module _ {N S : Type 0} (merge : S → N → N → S × N) where
  unfoldable pub merge_all : S → N → List N → S × N
  merge_all s rn [] = (s, rn)
  merge_all s rn (n ∷ ns) = let (s', rn') = merge s rn n in merge_all s' rn' ns

  unfoldable pub merge_nodes : S → List N → S × Option N
  merge_nodes s [] = (s, none)
  merge_nodes s (n ∷ ns) = let (s', rn) = merge_all s n ns in (s', some rn)

  unfoldable pub get : S → List Text → ConfigTree N → S × Option N
  unfolding merge_nodes nodes_on
  get s ns c = merge_nodes s (nodes_on ns c)
