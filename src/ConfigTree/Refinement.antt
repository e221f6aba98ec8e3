-- ===== src/ConfigTree/Refinement.antt =====
-- A tree that was built by calls of Add against the list of these calls.
use mathlib.Core.List.{lookup}
use snap.Base.{
  ◌≡◌, refl, sym, ap, ◌∙◌, subst, List, [], ◌∷◌, Option, none, some, Text, text_discrete, ite,
  if_pos, if_neg, arith, Option-cases, inl, inr,
}
use snap.ConfigTree.{
  Tree, node, nil, ConfigTree, no_root, empty_root, root, key_of, add_node, add_root, add, get_node,
  nodes_on,
}
use snap.ConfigTree.Along.{
  path_discrete, node_at, node_at-fresh, key_of-add_node, node_at-add_node, along, along-none,
  along-ext, get_node-along, get_node-ne, IsTree, add_node-IsTree,
}

ite-cons_swap :
    {A : Type 0} (f g k : Text) (p q : List Text) (a b c : A)
    → f ≡ k
    → ite (text_discrete g k) (ite (path_discrete p q) a b) c
      ≡ ite (path_discrete (f ∷ p) (g ∷ q)) a (ite (text_discrete g k) b c)
ite-cons_swap f g k p q a b c e = ground arith

ite_swap :
    {A : Type 0} (p q : List Text) (a b : A)
    → ite (path_discrete p q) a b ≡ ite (path_discrete q p) a b
ite_swap p q a b = ground arith

module _ {N : Type 0} where
  -- The tree after the given calls of Add on a new one, the last call first.
  unfoldable pub build : List (List Text × N) → Option (ConfigTree N)
  build [] = some no_root
  build ((p, v) ∷ calls) = elim (build calls) [ none ↦ none | some c ↦ add p v c ]

  abbrev IsConfig : ConfigTree N → Type 0
  IsConfig no_root = Unit
  IsConfig empty_root = ⊥
  IsConfig (root t) = IsTree t

  abbrev config_at : ConfigTree N → Text → List Text → Option N
  config_at no_root f q = none
  config_at empty_root f q = none
  config_at (root t) f q = ite (text_discrete f (key_of t)) (node_at q t) none

  -- What Add puts at a path, and leaves at the others.
  abbrev Adds : Text → List Text → N → ConfigTree N → ConfigTree N → Type 0
  Adds f p v c c' =
      (g : Text) (q : List Text)
      → config_at c' g q ≡ ite (path_discrete (f ∷ p) (g ∷ q)) (some v) (config_at c g q)

  add_below :
      (f : Text) (p : List Text) (v : N) (t : Tree N)
      → f ≡ key_of t
      → Adds f p v (root t) (root (add_node p v t))
  add_below f p v t e g q =
      rw (key_of-add_node p v t, node_at-add_node p q v t)
        (ite-cons_swap f g (key_of t) p q (some v) (node_at q t) none e)

  fresh_root : (f g : Text) (q : List Text) → config_at (root (node f none nil)) g q ≡ none
  fresh_root f g q = elim (text_discrete g f) [
    | yes e ↦ if_pos (text_discrete g f) e (node_at q t) none ∙ node_at-fresh q f
    | no n ↦ if_neg (text_discrete g f) n (node_at q t) none
  ]
    where
      t : Tree N
      t = node f none nil

  add_root-Adds :
      (f : Text) (p : List Text) (v : N) (c c' : ConfigTree N)
      → IsConfig c
      → add_root f p v c ≡ some c'
      → IsConfig c' × Adds f p v c c'
  unfolding add_root
  add_root-Adds f p v no_root c' w h =
      let t : Tree N = node f none nil in
      let e : root (add_node p v t) ≡ c' = cc in
      subst (λ x. IsConfig x × Adds f p v no_root x) e
        (
          add_node-IsTree p v t (unfold IsTree in tt),
          λ g q.
              add_below f p v t refl g q
              ∙ ap (ite (path_discrete (f ∷ p) (g ∷ q)) (some v)) (fresh_root f g q),
        )
  add_root-Adds f p v empty_root c' w h = absurd w
  add_root-Adds f p v (root t) c' w h = elim (text_discrete f (key_of t)) [
    | yes k ↦
        let e : root (add_node p v t) ≡ c' =
          cc (if_pos (text_discrete f (key_of t)) k (some (root (add_node p v t))) none) in
        subst (λ x. IsConfig x × Adds f p v (root t) x) e
          (add_node-IsTree p v t w, add_below f p v t k)
    | no n ↦ cc (if_neg (text_discrete f (key_of t)) n (some (root (add_node p v t))) none)
  ]

  nodes_on-config_at :
      (c : ConfigTree N) (f : Text) (r : List Text)
      → IsConfig c
      → nodes_on (f ∷ r) c ≡ along (config_at c f) r
  unfolding nodes_on
  nodes_on-config_at no_root f r w = sym (along-none r)
  nodes_on-config_at empty_root f r w = absurd w
  nodes_on-config_at (root t) f r w = elim (text_discrete f (key_of t)) [
    | yes e ↦
        ap (λ g. get_node (g ∷ r) t) e
        ∙ get_node-along r t w
        ∙ along-ext r (λ q. sym (if_pos (text_discrete f (key_of t)) e (node_at q t) none))
    | no n ↦
        get_node-ne f r t n
        ∙ sym (
            along-ext r (λ q. if_neg (text_discrete f (key_of t)) n (node_at q t) none)
            ∙ along-none r)
  ]

  abbrev Holds : List (List Text × N) → ConfigTree N → Type 0
  Holds calls c =
      IsConfig c
      × ((g : Text) (q : List Text) → config_at c g q ≡ lookup path_discrete (g ∷ q) calls)

  add-Holds :
      (p : List Text) (v : N) (calls : List (List Text × N)) (b c : ConfigTree N)
      → Holds calls b
      → add p v b ≡ some c
      → Holds ((p, v) ∷ calls) c
  unfolding add lookup
  add-Holds [] v calls b c (w, at) h =
      let e : b ≡ c = cc in
      subst (Holds (([], v) ∷ calls)) e (
        w,
        λ g q.
            at g q
            ∙ sym (
                if_neg (path_discrete (g ∷ q) []) (λ e. cc) (some v)
                  (lookup path_discrete (g ∷ q) calls)),
      )
  add-Holds (f ∷ p) v calls b c (w, at) h =
      let (w', put) = add_root-Adds f p v b c w h in
      (
        w',
        λ g q.
            put g q
            ∙ ite_swap (f ∷ p) (g ∷ q) (some v) (config_at b g q)
            ∙ ap (ite (path_discrete (g ∷ q) (f ∷ p)) (some v)) (at g q),
      )

  new-Holds : (c : ConfigTree N) → no_root ≡ c → Holds [] c
  unfolding lookup
  new-Holds c e = subst (Holds []) e (tt, λ g q. refl)

  build-Holds :
      (calls : List (List Text × N)) (c : ConfigTree N) → build calls ≡ some c → Holds calls c
  unfolding build
  build-Holds [] c h = new-Holds c (cc)
  build-Holds ((p, v) ∷ calls) c h = elim (Option-cases (build calls)) [
    | inl e ↦ absurd (ground arith)
    | inr (b, e) ↦ add-Holds p v calls b c (build-Holds calls b e) (ground arith)
  ]

  -- The nodes that Get merges for a namespace, in a tree that was built by calls of Add: for each
  -- prefix of the namespace, the shortest first, the node of the last Add at that prefix, if any.
  pub nodes_on-build :
      (calls : List (List Text × N)) (c : ConfigTree N) (f : Text) (r : List Text)
      → build calls ≡ some c
      → nodes_on (f ∷ r) c ≡ along (λ p. lookup path_discrete (f ∷ p) calls) r
  nodes_on-build calls c f r h =
      let (w, at) = build-Holds calls c h in nodes_on-config_at c f r w ∙ along-ext r (at f)
