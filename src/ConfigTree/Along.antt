-- ===== src/ConfigTree/Along.antt =====
-- Get and Add against a tree that is a table from namespaces to nodes.
use mathlib.Core.List.{List-discrete}
use mathlib.Core.Path.{fun_ext}
use snap.Base.{
  ◌≡◌, ◌≢◌, refl, sym, ap, ◌∙◌, subst, List, [], ◌∷◌, ◌++◌, Option, none, some, Text, text_discrete,
  ite, if_pos, if_neg, append-nil, arith,
}
use snap.ConfigTree.{
  Tree, node, Forest, nil, cons, key_of, add_child, add_node, present, gather, get_node,
}

abbrev pub path_discrete : Discrete (List Text)
path_discrete = List-discrete text_discrete

module _ {A : Type 0} (f g : Text) (p q : List Text) (a b : A) where
  pub ite-cons_self : ite (path_discrete (f ∷ p) (f ∷ q)) a b ≡ ite (path_discrete p q) a b
  ite-cons_self = ground arith

  pub ite-cons_ne : f ≢ g → ite (path_discrete (f ∷ p) (g ∷ q)) a b ≡ b
  ite-cons_ne ne = ground arith

module _ {N : Type 0} where
  abbrev child_at : Text → (Tree N → Option N) → Forest N → Option N
  child_at f at_below nil = none
  child_at f at_below (cons t kids) =
      ite (text_discrete f (key_of t)) (at_below t) (child_at f at_below kids)

  -- The node at a path below `t`.
  pub node_at : List Text → Tree N → Option N
  node_at [] (node k o kids) = o
  node_at (f ∷ remain) (node k o kids) = child_at f (node_at remain) kids

  pub node_at-fresh :
      (q : List Text) (f : Text) → node_at q (node f none nil) ≡ (let o : Option N = none in o)
  unfolding node_at
  node_at-fresh [] f = refl
  node_at-fresh (g ∷ q) f = refl

  pub key_of-add_node : (p : List Text) (v : N) (t : Tree N) → key_of (add_node p v t) ≡ key_of t
  unfolding add_node
  key_of-add_node [] v (node k o kids) = refl
  key_of-add_node (f ∷ p) v (node k o kids) = refl

  child_at-add_child_ne :
      (f g : Text) (at_below : Tree N → Option N) (p : List Text) (v : N) (kids : Forest N)
      → f ≢ g
      → child_at g at_below (add_child f (add_node p v) kids) ≡ child_at g at_below kids
  unfolding add_child
  child_at-add_child_ne f g at_below p v nil ne =
      ground (arith, key_of-add_node p v (node f none nil))
  child_at-add_child_ne f g at_below p v (cons t kids) ne =
      ground (arith, key_of-add_node p v t, child_at-add_child_ne f g at_below p v kids)

  module _ (p q : List Text) (v : N)
      (ih : (t : Tree N)
        → node_at q (add_node p v t) ≡ ite (path_discrete p q) (some v) (node_at q t)) where
    child_at-add_child_self :
        (f : Text) (kids : Forest N)
        → child_at f (node_at q) (add_child f (add_node p v) kids)
          ≡ ite (path_discrete p q) (some v) (child_at f (node_at q) kids)
    unfolding add_child
    child_at-add_child_self f nil =
        ground
          (arith, key_of-add_node p v (node f none nil), ih (node f none nil), node_at-fresh q f)
    child_at-add_child_self f (cons t kids) =
        ground (arith, key_of-add_node p v t, ih t, child_at-add_child_self f kids)

  pub node_at-add_node :
      (p q : List Text) (v : N) (t : Tree N)
      → node_at q (add_node p v t) ≡ ite (path_discrete p q) (some v) (node_at q t)
  unfolding node_at add_node
  node_at-add_node [] [] v (node k o kids) = ground arith
  node_at-add_node [] (g ∷ q) v (node k o kids) = ground arith
  node_at-add_node (f ∷ p) [] v (node k o kids) = ground arith
  node_at-add_node (f ∷ p) (g ∷ q) v (node k o kids) = elim (text_discrete f g) [
    | yes e ↦
        subst
          (λ g.
            child_at g (node_at q) (add_child f (add_node p v) kids)
            ≡ ite (path_discrete (f ∷ p) (g ∷ q)) (some v) (child_at g (node_at q) kids))
          e
          (child_at-add_child_self p q v (node_at-add_node p q v) f kids
            ∙ sym (ite-cons_self f f p q (some v) (child_at f (node_at q) kids)))
    | no ne ↦
        child_at-add_child_ne f g (node_at q) p v kids ne
        ∙ sym (ite-cons_ne f g p q (some v) (child_at g (node_at q) kids) ne)
  ]

  abbrev Apart : Text → Forest N → Type 0
  Apart f nil = Unit
  Apart f (cons t kids) = (f ≢ key_of t) × Apart f kids

  -- The values of a table from paths at the path's own prefixes, the shortest first.
  abbrev pub along : (List Text → Option N) → List Text → List N
  along at [] = present (at [])
  along at (f ∷ remain) = present (at []) ++ along (λ p. at (f ∷ p)) remain

  pub along-none : (r : List Text) → along (λ p. none) r ≡ []
  along-none [] = refl
  along-none (f ∷ r) = along-none r

  pub along-ext :
      {at at' : List Text → Option N} (r : List Text)
      → ((p : List Text) → at p ≡ at' p)
      → along at r ≡ along at' r
  along-ext r h = ap (λ a. along a r) (fun_ext h)

  gather-nil : (kids : Forest N) → gather (get_node []) kids ≡ []
  unfolding get_node
  gather-nil nil = refl
  gather-nil (cons t kids) = gather-nil kids

  pub get_node-ne : (f : Text) (r : List Text) (t : Tree N) → f ≢ key_of t → get_node (f ∷ r) t ≡ []
  unfolding get_node
  get_node-ne f r (node k o kids) ne = ground arith

  gather-Apart :
      (f : Text) (r : List Text) (kids : Forest N)
      → Apart f kids
      → gather (get_node (f ∷ r)) kids ≡ []
  gather-Apart f r nil a = refl
  gather-Apart f r (cons t kids) a = rw (get_node-ne f r t a.0) (gather-Apart f r kids a.1)

  -- The children of a node have different keys, all the way down.
  unfoldable mutual
    pub IsTree : Tree N → Type 0
    IsTree (node k o kids) = IsForest kids

    pub IsForest : Forest N → Type 0
    IsForest nil = Unit
    IsForest (cons t kids) = IsTree t × Apart (key_of t) kids × IsForest kids

  gather-along :
      (f : Text) (r : List Text) (kids : Forest N)
      → ((t : Tree N) → IsTree t → get_node (key_of t ∷ r) t ≡ along (λ p. node_at p t) r)
      → IsForest kids
      → gather (get_node (f ∷ r)) kids ≡ along (λ p. child_at f (node_at p) kids) r
  unfolding IsTree
  gather-along f r nil ih w = sym (along-none r)
  gather-along f r (cons t kids) ih w = elim (text_discrete f (key_of t)) [
    | yes e ↦
        ap (λ l. get_node (f ∷ r) t ++ l)
          (gather-Apart f r kids (subst (λ g. Apart g kids) (sym e) (w.1)))
        ∙ append-nil (get_node (f ∷ r) t)
        ∙ ap (λ g. get_node (g ∷ r) t) e
        ∙ ih t w.0
        ∙ along-ext r (λ p.
          sym (if_pos (text_discrete f (key_of t)) e (node_at p t) (child_at f (node_at p) kids)))
    | no ne ↦
        ap (λ l. l ++ gather (get_node (f ∷ r)) kids) (get_node-ne f r t ne)
        ∙ gather-along f r kids ih w.2
        ∙ along-ext r (λ p.
          sym (if_neg (text_discrete f (key_of t)) ne (node_at p t) (child_at f (node_at p) kids)))
  ]

  pub get_node-along :
      (r : List Text) (t : Tree N)
      → IsTree t
      → get_node (key_of t ∷ r) t ≡ along (λ p. node_at p t) r
  unfolding get_node node_at IsTree
  get_node-along [] (node k o kids) w =
      if_pos (text_discrete k k) refl (present o ++ gather (get_node []) kids) []
      ∙ ap (λ l. present o ++ l) (gather-nil kids)
      ∙ append-nil (present o)
  get_node-along (f ∷ r) (node k o kids) w =
      if_pos (text_discrete k k) refl (present o ++ gather (get_node (f ∷ r)) kids) []
      ∙ ap (λ l. present o ++ l) (gather-along f r kids (get_node-along r) w)

  Apart-add_child :
      (k f : Text) (p : List Text) (v : N) (kids : Forest N)
      → k ≢ f
      → Apart k kids
      → Apart k (add_child f (add_node p v) kids)
  unfolding add_child
  Apart-add_child k f p v nil ne a = (rw (key_of-add_node p v (node f none nil)) ne, tt)
  Apart-add_child k f p v (cons t kids) ne a = elim (text_discrete f (key_of t)) [
    | yes e ↦
        rw (if_pos (text_discrete f (key_of t)) e (cons (add_node p v t) kids) _)
          (rw (key_of-add_node p v t) (a.0), a.1)
    | no d ↦
        rw (if_neg (text_discrete f (key_of t)) d (cons (add_node p v t) kids) _)
          (a.0, Apart-add_child k f p v kids ne (a.1))
  ]

  add_child-IsForest :
      (f : Text) (p : List Text) (v : N) (kids : Forest N)
      → ((t : Tree N) → IsTree t → IsTree (add_node p v t))
      → IsForest kids
      → IsForest (add_child f (add_node p v) kids)
  unfolding add_child IsTree
  add_child-IsForest f p v nil ih w = (ih (node f none nil) tt, tt, tt)
  add_child-IsForest f p v (cons t kids) ih w = elim (text_discrete f (key_of t)) [
    | yes e ↦
        rw (if_pos (text_discrete f (key_of t)) e (cons (add_node p v t) kids) _)
          (ih t w.0, rw (key_of-add_node p v t) (w.1), w.2)
    | no d ↦ rw (if_neg (text_discrete f (key_of t)) d (cons (add_node p v t) kids) _) (
      w.0,
      Apart-add_child (key_of t) f p v kids (λ e. d (sym e)) w.1,
      add_child-IsForest f p v kids ih w.2,
    )
  ]

  pub add_node-IsTree : (p : List Text) (v : N) (t : Tree N) → IsTree t → IsTree (add_node p v t)
  unfolding add_node IsTree
  add_node-IsTree [] v (node k o kids) w = w
  add_node-IsTree (f ∷ p) v (node k o kids) w =
      add_child-IsForest f p v kids (add_node-IsTree p v) w
