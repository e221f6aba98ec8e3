-- ===== src/ConfigTree/Samples.antt =====
-- pkg/ctree/tree.go: trees built by calls of Add, with numbers for nodes.
use mathlib.Core.List.{lookup}
use snap.Base.{ℕ, ◌≡◌, refl, List, [], ◌∷◌, some, Text, text_discrete}
use snap.ConfigTree.{
  node, nil, cons, ConfigTree, root, add_child, add_node, add_root, add, nodes_on,
}
use snap.ConfigTree.Along.{along, path_discrete}
use snap.ConfigTree.Refinement.{build, nodes_on-build}

abbrev a : Text
a = 97 ∷ []

abbrev b : Text
b = 98 ∷ []

abbrev c : Text
c = 99 ∷ []

abbrev d : Text
d = 100 ∷ []

abbrev calls : List (List Text × ℕ)
calls = (a ∷ b ∷ [], 3) ∷ (a ∷ c ∷ [], 2) ∷ (a ∷ b ∷ [], 1) ∷ (a ∷ [], 0) ∷ []

abbrev built : ConfigTree ℕ
built = root (node a (some 0) (cons (node b (some 3) nil) (cons (node c (some 2) nil) nil)))

build-calls : build calls ≡ some built
unfolding build add add_root add_node add_child text_discrete
build-calls = refl

nodes_on-build_example :
    nodes_on (a ∷ b ∷ d ∷ []) built ≡ along (λ p. lookup path_discrete (a ∷ p) calls) (b ∷ d ∷ [])
nodes_on-build_example = nodes_on-build calls built a (b ∷ d ∷ []) build-calls
