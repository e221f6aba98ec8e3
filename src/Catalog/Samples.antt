-- ===== src/Catalog/Samples.antt =====
-- control/metrics.go: a dynamic namespace, a static metric and a catalog to try the theorems on.
use snap.Base.{◌≡◌, refl, false, [], ◌∷◌, none, contains, All, Text}
use snap.Base.{true, some}
use snap.Base.Int.{pos}
use snap.Catalog.Trie.{
  MetricType, CatalogedPlugin, Node, mtt_node, child, no_child, version_of, found,
}
use snap.Catalog.Metrics.{MetricCatalog, add_to_catalog, get_cataloged, get_all_cataloged}
use snap.Catalog.Metrics.Offered.{get_cataloged-add_to_catalog}
use snap.Namespace.{NamespaceElement, Namespace, element_is_dynamic}
use snap.Catalog.Tuples.{
  is_asterisk, is_tuple, find_tuples_matches, has_suffix, validate_from, validate_metric_namespace,
}
use snap.Catalog.Tuples.Accepted.{concat, find_tuples_matches-validate}

abbrev element : Text → NamespaceElement
element v = record { value = v; description = []; name = [] }

-- The namespace host, *, load, where the second element is named.
abbrev cataloged : Namespace
cataloged =
    element (b'h' ∷ [])
    ∷ record { value = b'*' ∷ []; description = []; name = b'n' ∷ [] }
    ∷ element (b'l' ∷ [])
    ∷ []

validate-cataloged : validate_metric_namespace cataloged ≡ none
unfolding validate_metric_namespace validate_from is_tuple contains
validate-cataloged = refl

find_tuples_matches-validate_example :
    All (λ e. element_is_dynamic e ≡ is_asterisk e.value) cataloged
    × (has_suffix b'*' (concat [] cataloged) ≡ false)
    × (find_tuples_matches cataloged ≡ cataloged ∷ [])
find_tuples_matches-validate_example = find_tuples_matches-validate cataloged validate-cataloged

abbrev collector : CatalogedPlugin
collector = record { type_name = b'c' ∷ []; name = b'p' ∷ []; plugin_version = pos 1 }

abbrev load : MetricType
load = record {
  plugin = some collector;
  namespace = element (b'h' ∷ []) ∷ element (b'l' ∷ []) ∷ [];
  version = pos 1;
}

abbrev load_anywhere : Node
load_anywhere =
    mtt_node true
      (child (b'*' ∷ [])
        (mtt_node true
          (child (b'l' ∷ []) (mtt_node false no_child (some ((pos 1, load) ∷ []))) no_child) none)
        no_child)
      none

abbrev catalog : MetricCatalog
catalog = record { tree = load_anywhere; keys = [] }

get_cataloged-add_to_catalog_example :
    (get_cataloged load.namespace (version_of load) (add_to_catalog load catalog)
      ≡ some (found (record load { version = version_of load })))
    × (get_all_cataloged load.namespace (version_of load) (add_to_catalog load catalog)
        ≡ some (found (record load { version = version_of load } ∷ [])))
get_cataloged-add_to_catalog_example =
    get_cataloged-add_to_catalog load catalog collector (element (b'h' ∷ []))
      (element (b'l' ∷ []) ∷ []) refl refl
      (unfold validate_metric_namespace validate_from is_tuple contains in refl) refl
      (unfold version_of in refl)

abbrev short : MetricType
short = record { plugin = some collector; namespace = element (b'h' ∷ []) ∷ []; version = pos 1 }
