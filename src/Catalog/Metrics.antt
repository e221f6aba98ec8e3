-- ===== src/Catalog/Metrics.antt =====
-- control/metrics.go: the metric catalog over the trie. Of a metric type, the fields are modelled that
-- the trie is about.
pub mod Offered
use snap.Base.{
  Bool, true, false, List, [], ◌∷◌, ◌++◌, Option, none, some, Text, text_discrete, ite,
  if◌then◌else◌,
}
use snap.Base.Int.{ℤ}
use snap.Namespace.{Namespace, strings, to_string, is_dynamic}
use snap.Catalog.Tuples.{find_tuples_matches, specify_instance}
use snap.Catalog.Trie.{
  MetricType, CatalogedPlugin, version_of, Node, new_trie, add_metric, gather_metric_types, Answer,
  found, failed,
}
use snap.Catalog.Trie
use snap.Catalog.Trie.Removal.{delete_by_plugin}

pub record MetricCatalog : Type 0 where
  pub tree : Node
  pub keys : List Text

unfoldable pub new_metric_catalog : MetricCatalog
new_metric_catalog = record { tree = new_trie; keys = [] }

unfoldable pub append_if_missing : List Text → Text → List Text
append_if_missing [] ns = ns ∷ []
append_if_missing (key ∷ keys) ns =
    let rest = append_if_missing keys ns in ite (text_discrete ns key) (key ∷ keys) (key ∷ rest)

unfoldable pub add_to_catalog : MetricType → MetricCatalog → MetricCatalog
unfolding append_if_missing
add_to_catalog m mc = record {
  tree = add_metric m mc.tree;
  keys = append_if_missing mc.keys (to_string m.namespace);
}

abbrev keys_from : List MetricType → List Text
keys_from [] = []
keys_from (m ∷ mts) = to_string m.namespace ∷ keys_from mts

unfoldable pub rm_unloaded_plugin_metrics : CatalogedPlugin → MetricCatalog → MetricCatalog
rm_unloaded_plugin_metrics lp mc =
    let tree = delete_by_plugin lp mc.tree in
    record { tree = tree; keys = keys_from (gather_metric_types tree) }

-- The namespace that a query gives back for a cataloged metric.
unfoldable pub returned_namespace : Namespace → MetricType → Namespace
unfolding is_dynamic
returned_namespace requested m =
    if (is_dynamic m.namespace).0
    then ite (text_discrete (to_string m.namespace) (to_string requested)) m.namespace
        (specify_instance m.namespace requested)
    else m.namespace

-- The metric type that a query gives back for a cataloged one. `none` is a panic: the policy is read
-- from the plugin, which is a nil pointer when it could not be made.
unfoldable pub returned : Namespace → MetricType → Option MetricType
returned requested m = elim m.plugin [
  | none ↦ none
  | some _ ↦ some (record m { namespace = returned_namespace requested m; version = version_of m })
]

abbrev answer : {A B : Type 0} → (A → B) → Answer A → Answer B
answer f (found a) = found (f a)
answer f (failed e) = failed e

unfoldable pub get_cataloged : Namespace → ℤ → MetricCatalog → Option (Answer MetricType)
get_cataloged requested version mc = elim (Trie.get_metric (strings requested) version mc.tree) [
  | failed e ↦ some (failed e)
  | found m ↦ elim (returned requested m) [ none ↦ none | some mt ↦ some (found mt) ]
]

unfoldable pub all_returned : Namespace → List MetricType → Option (List MetricType)
all_returned rns [] = some []
all_returned rns (m ∷ mts) = elim (returned rns m) [
  | none ↦ none
  | some mt ↦ elim (all_returned rns mts) [ none ↦ none | some rest ↦ some (mt ∷ rest) ]
]

-- The first error ends the query.
unfoldable pub get_matches : List Namespace → ℤ → MetricCatalog → Option (Answer (List MetricType))
get_matches [] version mc = some (found [])
get_matches (rns ∷ nss) version mc = elim (Trie.get_metrics (strings rns) version mc.tree) [
  | failed e ↦ some (failed e)
  | found mts ↦ elim (all_returned rns mts) [
    | none ↦ none
    | some first ↦ elim (get_matches nss version mc) [
      | none ↦ none
      | some rest ↦ some (answer (λ more. first ++ more) rest)
    ]
  ]
]

unfoldable pub get_all_cataloged : Namespace → ℤ → MetricCatalog → Option (Answer (List MetricType))
unfolding get_matches
get_all_cataloged requested version mc = get_matches (find_tuples_matches requested) version mc
