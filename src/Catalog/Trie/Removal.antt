-- ===== src/Catalog/Trie/Removal.antt =====
-- control/mttrie.go: Remove, RemoveMetric and DeleteByPlugin. The last goes over what
-- gatherMetricTypes lists.
use snap.Base.{List, [], ◌∷◌, ◌++◌, Option, none, some, Text, text_discrete, ite}
use snap.Base.Int.{ℤ, ℤ_discrete}
use snap.Base.Decimal.{show_int}
use snap.Namespace.{strings, separator}
use snap.Catalog.Trie.{
  CatalogedPlugin, MetricType, MetricTypes, version_of, Node, mtt_node, put_child, delete_child,
  find, gather_metric_types,
}

-- The node at the path is there.
unfoldable pub remove_at : List Text → Node → Node
remove_at [] t = t
remove_at (n ∷ []) (mtt_node made kids mts) = mtt_node made (delete_child n kids) mts
remove_at (n ∷ k ∷ ns) (mtt_node made kids mts) =
    mtt_node made (put_child n (remove_at (k ∷ ns)) kids) mts

-- `none` is an error; for the empty namespace the code panics.
unfoldable pub remove : List Text → Node → Option Node
unfolding remove_at
remove [] t = none
remove (n ∷ ns) t = elim (find (n ∷ ns) t) [ none ↦ none | some _ ↦ some (remove_at (n ∷ ns) t) ]

unfoldable pub drop_version : ℤ → MetricTypes → MetricTypes
unfolding version_of
drop_version v [] = []
drop_version v ((k, x) ∷ mts) =
    let rest = drop_version v mts in ite (ℤ_discrete v (version_of x)) rest ((k, x) ∷ rest)

abbrev without : ℤ → Node → Node
without v (mtt_node made kids none) = mtt_node made kids none
without v (mtt_node made kids (some mts)) = mtt_node made kids (some (drop_version v mts))

unfoldable pub change_at : List Text → (Node → Node) → Node → Node
change_at [] change t = change t
change_at (n ∷ ns) change (mtt_node made kids mts) =
    mtt_node made (put_child n (change_at ns change) kids) mts

unfoldable pub remove_metric : MetricType → Node → Node
unfolding change_at
remove_metric mt t = elim (find (strings mt.namespace) t) [
  | none ↦ t
  | some _ ↦ change_at (strings mt.namespace) (without (version_of mt)) t
]

unfoldable pub plugin_key : CatalogedPlugin → Text
plugin_key p = p.type_name ++ (separator ∷ (p.name ++ (separator ∷ show_int p.plugin_version)))

-- For a metric without a plugin the code panics.
unfoldable pub delete_all : CatalogedPlugin → List MetricType → Node → Node
unfolding plugin_key
delete_all cp [] t = t
delete_all cp (mt ∷ mts) t = delete_all cp mts (elim mt.plugin [
  | none ↦ t
  | some p ↦ ite (text_discrete (plugin_key p) (plugin_key cp)) (remove_metric mt t) t
])

unfoldable pub delete_by_plugin : CatalogedPlugin → Node → Node
delete_by_plugin cp t = delete_all cp (gather_metric_types t) t
