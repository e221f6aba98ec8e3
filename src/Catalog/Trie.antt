-- ===== src/Catalog/Trie.antt =====
-- control/mttrie.go: the trie of the metric types by namespace. The children of a node and its
-- metric types are Go maps, either of which may be nil; `made` says that the children's map is not.
pub mod Queries
pub mod Removal
use mathlib.Core.List.{lookup}
use snap.Base.{
  ℕ, ◌+◌, Bool, true, false, not, ◌&&◌, List, [], ◌∷◌, ◌++◌, map, Option, none, some, Text,
  text_discrete, ite, length, ◌==◌, if◌then◌else◌,
}
use snap.Base.Int.{ℤ, pos, negsuc, ltb_ℤ, ℤ_discrete}
use snap.Base.Decimal.{show_int}
use snap.Base.Map.{put, delete}
use snap.Namespace.{Namespace, strings, separator}

pub record CatalogedPlugin : Type 0 where
  pub type_name : Text
  pub name : Text
  pub plugin_version : ℤ

pub record MetricType : Type 0 where
  pub plugin : Option CatalogedPlugin
  pub namespace : Namespace
  pub version : ℤ

unfoldable pub version_of : MetricType → ℤ
version_of m =
    if ltb_ℤ (pos 0) m.version
    then m.version
    else elim m.plugin [ none ↦ negsuc 0 | some p ↦ p.plugin_version ]

abbrev pub MetricTypes : Type 0
MetricTypes = List (ℤ × MetricType)

mutual
  pub data Node : Type 0 where
    mtt_node : (made : Bool) → Children → Option MetricTypes → Node

  pub data Children : Type 0 where
    no_child : Children
    child : Text → Node → Children → Children

abbrev pub children_of : Node → Children
children_of (mtt_node made kids mts) = kids

abbrev pub is_made : Node → Bool
is_made (mtt_node made kids mts) = made

abbrev pub mts_of : Node → Option MetricTypes
mts_of (mtt_node made kids mts) = mts

abbrev pub all_of : Option MetricTypes → MetricTypes
all_of none = []
all_of (some mts) = mts

abbrev pub empty_node : Node
empty_node = mtt_node false no_child none

abbrev pub new_trie : Node
new_trie = mtt_node true no_child none

unfoldable pub child_of : Text → Children → Option Node
child_of n no_child = none
child_of n (child k t kids) = ite (text_discrete n k) (some t) (child_of n kids)

-- The child of a name is changed, or an empty node is.
unfoldable pub put_child : Text → (Node → Node) → Children → Children
put_child n change no_child = child n (change empty_node) no_child
put_child n change (child k t kids) =
    ite (text_discrete n k) (child k (change t) kids) (child k t (put_child n change kids))

unfoldable pub delete_child : Text → Children → Children
delete_child n no_child = no_child
delete_child n (child k t kids) =
    let rest = delete_child n kids in ite (text_discrete n k) rest (child k t rest)

unfoldable pub add_at : List Text → MetricType → Node → Node
unfolding version_of
add_at [] m (mtt_node made kids mts) =
    mtt_node made kids (some (put ℤ_discrete (version_of m) m (all_of mts)))
add_at (n ∷ ns) m (mtt_node made kids mts) = mtt_node true (put_child n (add_at ns m) kids) mts

unfoldable pub add_metric : MetricType → Node → Node
unfolding strings
add_metric m t = add_at (strings m.namespace) m t

unfoldable pub walk : List Text → Node → ℕ → Node × ℕ
walk [] parent i = (parent, i)
walk (n ∷ ns) parent i = elim (child_of n (children_of parent)) [
  | none ↦ (parent, i)
  | some t ↦ walk ns t (i + 1)
]

unfoldable pub find : List Text → Node → Option Node
find ns t = let (node, index) = walk ns t 0 in if index == length ns then some node else none

abbrev pub own : Node → List Node
own (mtt_node made kids none) = []
own (mtt_node made kids (some mts)) = mtt_node made kids (some mts) ∷ []

unfoldable mutual
  pub gather_descendants : Node → List Node
  gather_descendants (mtt_node made kids mts) = descendants_in kids

  pub descendants_in : Children → List Node
  descendants_in no_child = []
  descendants_in (child k t kids) = own t ++ (gather_descendants t ++ descendants_in kids)

abbrev pub types_of : List Node → List MetricType
types_of [] = []
types_of (t ∷ ts) = map (λ e. e.1) (all_of (mts_of t)) ++ types_of ts

unfoldable pub below_children : Children → List Node
below_children no_child = []
below_children (child k t kids) = gather_descendants t ++ below_children kids

unfoldable pub gather_metric_types : Node → List MetricType
unfolding below_children
gather_metric_types t = types_of (below_children (children_of t))

unfoldable pub fetch_nodes : List Text → Node → List Node
fetch_nodes ns t = elim (find ns t) [ none ↦ [] | some node ↦ own node ++ gather_descendants node ]

abbrev pub is_star : Text → Bool
is_star (c ∷ []) = c == b'*'
is_star _ = false

abbrev all_children : Children → List Node
all_children no_child = []
all_children (child k t kids) = t ∷ all_children kids

abbrev pub present_node : Option Node → List Node
present_node none = []
present_node (some t) = t ∷ []

-- The child named, or else the one named with an asterisk.
abbrev pub child_or_star : Text → Children → Option Node
child_or_star name kids = elim (child_of name kids) [
  | none ↦ child_of (b'*' ∷ []) kids
  | some t ↦ some t
]

unfoldable pub gather_children : Text → Node → List Node
gather_children name t =
    if is_star name
    then all_children (children_of t)
    else present_node (child_or_star name (children_of t))

abbrev pub search_all : (Node → List Node) → List Node → List Node
search_all search_below [] = []
search_all search_below (t ∷ ts) = search_below t ++ search_all search_below ts

-- The callers refuse an empty namespace, for which the code panics.
unfoldable pub search : List Text → Node → List Node
search [] t = []
search (n ∷ []) t =
    if not (is_made t) then [] else if is_star n then fetch_nodes [] t else gather_children n t
search (n ∷ m ∷ ns) t =
    if not (is_made t) then [] else search_all (search (m ∷ ns)) (gather_children n t)

abbrev latest_from : ℤ × MetricType → MetricTypes → MetricType
latest_from best [] = best.1
latest_from best (e ∷ mts) = latest_from (if ltb_ℤ best.0 e.0 then e else best) mts

-- The last of the sorted versions is the greatest.
unfoldable pub get_latest : ℤ × MetricType → MetricTypes → MetricType
get_latest e mts = latest_from e mts

unfoldable pub get_version : MetricTypes → ℤ → Option MetricType
unfolding get_latest
get_version [] ver = none
get_version (e ∷ mts) ver =
    if ltb_ℤ (pos 0) ver then lookup ℤ_discrete ver (e ∷ mts) else some (get_latest e mts)

pub data CatalogError : Type 0 where
  empty_namespace metric_not_found too_ambiguous : CatalogError

pub data Answer (A : Type 0) : Type 0 where
  found : A → Answer A
  failed : CatalogError → Answer A

abbrev pub versions_in : ℤ → List Node → List MetricType
versions_in ver [] = []
versions_in ver (t ∷ ts) = elim (get_version (all_of (mts_of t)) ver) [
  | none ↦ versions_in ver ts
  | some m ↦ m ∷ versions_in ver ts
]

abbrev pub or_not_found : List MetricType → Answer (List MetricType)
or_not_found [] = failed metric_not_found
or_not_found (m ∷ ms) = found (m ∷ ms)

unfoldable pub get_metrics : List Text → ℤ → Node → Answer (List MetricType)
unfolding search get_version
get_metrics [] ver t = failed empty_namespace
get_metrics (n ∷ ns) ver t = or_not_found (versions_in ver (search (n ∷ ns) t))

abbrev pub one_metric : Answer (List MetricType) → Answer MetricType
one_metric (failed e) = failed e
one_metric (found []) = failed metric_not_found
one_metric (found (m ∷ [])) = found m
one_metric (found (m ∷ n ∷ ms)) = failed too_ambiguous

unfoldable pub get_metric : List Text → ℤ → Node → Answer MetricType
unfolding get_metrics
get_metric ns ver t = one_metric (get_metrics ns ver t)

unfoldable pub get_versions : List Text → Node → Answer (List MetricType)
unfolding search
get_versions [] t = failed empty_namespace
get_versions (n ∷ ns) t = or_not_found (types_of (search (n ∷ ns) t))

-- Nothing below the empty namespace is no error.
unfoldable pub fetch : List Text → Node → Answer (List MetricType)
unfolding fetch_nodes
fetch [] t = found (types_of (fetch_nodes [] t))
fetch (n ∷ ns) t = or_not_found (types_of (fetch_nodes (n ∷ ns) t))
