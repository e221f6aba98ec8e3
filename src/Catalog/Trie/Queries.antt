-- ===== src/Catalog/Trie/Queries.antt =====
-- What the queries find after an addition.
use mathlib.Core.List.{lookup}
use snap.Base.{
  ◌≡◌, ◌≢◌, refl, ap, ◌∙◌, true, false, List, [], ◌∷◌, Option, none, some, Text, All, arith,
  append-nil,
}
use snap.Base.Int.{ℤ, pos, ltb_ℤ, ℤ_discrete}
use snap.Base.Map.{put, lookup-put_self}
use snap.Namespace.{strings}
use snap.Catalog.Trie.{
  MetricType, MetricTypes, version_of, Node, mtt_node, Children, no_child, child, children_of,
  is_made, mts_of, all_of, empty_node, child_of, put_child, add_at, add_metric, is_star,
  present_node, child_or_star, gather_children, search, get_version, found, failed,
  metric_not_found, or_not_found, versions_in, get_metrics, one_metric, get_metric,
}

abbrev or_new : Option Node → Node
or_new none = empty_node
or_new (some t) = t

child_of-put_child_self :
    (n : Text) (change : Node → Node) (kids : Children)
    → child_of n (put_child n change kids) ≡ some (change (or_new (child_of n kids)))
unfolding child_of put_child
child_of-put_child_self n change no_child = ground arith
child_of-put_child_self n change (child k t kids) =
    ground (arith, child_of-put_child_self n change kids)

child_of-put_child_ne :
    (n k : Text) (change : Node → Node) (kids : Children)
    → n ≢ k
    → child_of k (put_child n change kids) ≡ child_of k kids
unfolding child_of put_child
child_of-put_child_ne n k change no_child ne = ground arith
child_of-put_child_ne n k change (child j t kids) ne =
    ground (arith, child_of-put_child_ne n k change kids ne)

-- The node at a path, empty where there is none.
abbrev reach : List Text → Node → Node
reach [] t = t
reach (n ∷ ns) t = reach ns (or_new (child_of n (children_of t)))

abbrev pub IsLiteral : Text → Type 0
IsLiteral n = is_star n ≡ false

child_or_star-some :
    (n : Text) (kids : Children) (d : Node)
    → child_of n kids ≡ some d
    → child_or_star n kids ≡ some d
child_or_star-some n kids d h = rw (h, child_or_star) refl

gather_children-literal :
    (n : Text) (t d : Node)
    → IsLiteral n
    → child_of n (children_of t) ≡ some d
    → gather_children n t ≡ d ∷ []
unfolding gather_children
gather_children-literal n t d lit h = rw (lit, child_or_star-some n (children_of t) d h) refl

gather_children-add_at :
    (n : Text) (ns : List Text) (m : MetricType) (t : Node)
    → IsLiteral n
    → gather_children n (add_at (n ∷ ns) m t)
      ≡ add_at ns m (or_new (child_of n (children_of t))) ∷ []
unfolding add_at
gather_children-add_at n ns m (mtt_node made kids mts) lit =
    gather_children-literal n _ _ lit (child_of-put_child_self n (add_at ns m) kids)

is_made-add_at :
    (n : Text) (ns : List Text) (m : MetricType) (t : Node) → is_made (add_at (n ∷ ns) m t) ≡ true
unfolding add_at
is_made-add_at n ns m (mtt_node made kids mts) = refl

search-add_at :
    (n : Text) (ns : List Text) (m : MetricType) (t : Node)
    → IsLiteral n
    → All IsLiteral ns
    → search (n ∷ ns) (add_at (n ∷ ns) m t) ≡ add_at [] m (reach (n ∷ ns) t) ∷ []
unfolding search
search-add_at n [] m t lit lits =
    rw (is_made-add_at n [] m t, lit) (gather_children-add_at n [] m t lit)
search-add_at n (k ∷ ns) m t lit lits =
    rw (is_made-add_at n (k ∷ ns) m t, gather_children-add_at n (k ∷ ns) m t lit)
      (append-nil (search (k ∷ ns) (add_at (k ∷ ns) m (or_new (child_of n (children_of t)))))
        ∙ search-add_at k ns m (or_new (child_of n (children_of t))) lits.0 lits.1)

get_version-lookup :
    (mts : MetricTypes) (v : ℤ) (m : MetricType)
    → ltb_ℤ (pos 0) v ≡ true
    → lookup ℤ_discrete v mts ≡ some m
    → get_version mts v ≡ some m
unfolding get_version
get_version-lookup [] v m h k = absurd (unfold lookup in ground arith)
get_version-lookup (e ∷ mts) v m h k = rw (h) k

get_version-put :
    (m : MetricType) (t : Node)
    → ltb_ℤ (pos 0) (version_of m) ≡ true
    → get_version (all_of (mts_of (add_at [] m t))) (version_of m) ≡ some m
unfolding add_at
get_version-put m (mtt_node made kids mts) h =
    get_version-lookup (put ℤ_discrete (version_of m) m (all_of mts)) (version_of m) m h
      (lookup-put_self ℤ_discrete (version_of m) m (all_of mts))

versions_in_one :
    (v : ℤ) (t : Node) (m : MetricType)
    → get_version (all_of (mts_of t)) v ≡ some m
    → versions_in v (t ∷ []) ≡ m ∷ []
versions_in_one v t m h = rw (h, versions_in) refl

pub get_metrics-add_metric :
    (m : MetricType) (t : Node) (n : Text) (ns : List Text)
    → strings m.namespace ≡ n ∷ ns
    → All IsLiteral (n ∷ ns)
    → ltb_ℤ (pos 0) (version_of m) ≡ true
    → get_metrics (strings m.namespace) (version_of m) (add_metric m t) ≡ found (m ∷ [])
unfolding get_metrics add_metric
get_metrics-add_metric m t n ns h lits positive =
    rw
      (
        h,
        search-add_at n ns m t lits.0 lits.1,
        versions_in_one (version_of m) (add_at [] m (reach (n ∷ ns) t)) m
            (get_version-put m (reach (n ∷ ns) t) positive),
      )
      refl

-- A metric with a positive version that is added under a nonempty namespace without wildcards is
-- what GetMetric then returns for this namespace and version, whatever was in the trie.
pub get_metric-add_metric :
    (m : MetricType) (t : Node) (n : Text) (ns : List Text)
    → strings m.namespace ≡ n ∷ ns
    → All IsLiteral (n ∷ ns)
    → ltb_ℤ (pos 0) (version_of m) ≡ true
    → get_metric (strings m.namespace) (version_of m) (add_metric m t) ≡ found m
unfolding get_metric
get_metric-add_metric m t n ns h lits positive =
    ap one_metric (get_metrics-add_metric m t n ns h lits positive)

abbrev star : Text
star = b'*' ∷ []

IsLiteral-ne : (n : Text) → IsLiteral n → star ≢ n
IsLiteral-ne n h e = cc

child_or_star_fallback :
    (n : Text) (kids : Children)
    → child_of n kids ≡ none
    → child_or_star n kids ≡ child_of star kids
child_or_star_fallback n kids h = rw (h, child_or_star) refl

gather_children_fallback :
    (n : Text) (t : Node) (o : Option Node)
    → IsLiteral n
    → child_of n (children_of t) ≡ none
    → child_of star (children_of t) ≡ o
    → gather_children n t ≡ present_node o
unfolding gather_children
gather_children_fallback n t o lit h k =
    rw (lit, child_or_star_fallback n (children_of t) h, k) refl

child_of_only : (k n : Text) (t : Node) → k ≢ n → child_of k (child n t no_child) ≡ none
unfolding child_of
child_of_only k n t ne = ground arith

put_child_only :
    (n : Text) (change : Node → Node)
    → put_child n change no_child ≡ child n (change empty_node) no_child
unfolding put_child
put_child_only n change = refl

search_two :
    (n c : Text) (t d : Node)
    → is_made t ≡ true
    → is_made d ≡ true
    → IsLiteral c
    → gather_children n t ≡ d ∷ []
    → search (n ∷ c ∷ []) t ≡ gather_children c d
unfolding search
search_two n c t d made made' lit h = rw (made, h, made', lit) (append-nil (gather_children c d))

gather_children_new :
    (c o : Text) (m : MetricType)
    → IsLiteral c
    → IsLiteral o
    → c ≢ o
    → gather_children c (add_at (o ∷ []) m empty_node) ≡ []
unfolding add_at put_child
gather_children_new c o m lit lit' ne =
    gather_children_fallback c _ none lit (child_of_only c o _ ne)
      (child_of_only star o _ (IsLiteral-ne o lit'))

-- A request for an instance of a dynamic metric, /n/c for /*/c, finds that metric as long as the
-- trie has no child n. Once another metric /n/o is added, the same request finds nothing: the search
-- goes to the child n alone and does not come back to the asterisk.
pub get_metrics-shadowed :
    (t d leaf : Node) (n c o : Text) (m : MetricType) (ver : ℤ)
    → (is_made t ≡ true) × (is_made d ≡ true)
    → IsLiteral n × IsLiteral c × IsLiteral o
    → c ≢ o
    → child_of n (children_of t) ≡ none
    → child_of star (children_of t) ≡ some d
    → child_of c (children_of d) ≡ some leaf
    → (get_metrics (n ∷ c ∷ []) ver t ≡ or_not_found (versions_in ver (leaf ∷ [])))
      × (get_metrics (n ∷ c ∷ []) ver (add_at (n ∷ o ∷ []) m t) ≡ failed metric_not_found)
unfolding get_metrics
get_metrics-shadowed t d leaf n c o m ver (made, made') (lit_n, lit_c, lit_o) ne absent at_star
      at_c =
    (
      ap (λ l. or_not_found (versions_in ver l))
          (search_two n c t d made made' lit_c
              (gather_children_fallback n t (some d) lit_n absent at_star)
            ∙ gather_children-literal c d leaf lit_c at_c),
      ap (λ l. or_not_found (versions_in ver l))
          (search_two n c (add_at (n ∷ o ∷ []) m t) (add_at (o ∷ []) m empty_node)
              (is_made-add_at n (o ∷ []) m t) (is_made-add_at o [] m empty_node) lit_c
              (gather_children-add_at n (o ∷ []) m t lit_n
                ∙ ap (λ x. add_at (o ∷ []) m (or_new x) ∷ []) absent)
            ∙ gather_children_new c o m lit_c lit_o ne),
    )
