-- ===== src/Catalog/Metrics/Offered.antt =====
-- A static metric that the catalog accepts is found again.
use snap.Base.{◌≡◌, refl, ap, ◌∙◌, Bool, true, false, [], ◌∷◌, ◌||◌, none, subst, All, arith}
use snap.Base.Int.{ℤ, pos, ltb_ℤ}
use snap.Namespace.{NamespaceElement, Namespace, strings, any_dynamic, element_is_dynamic}
use snap.Base.{some}
use snap.Catalog.Tuples.{validate_metric_namespace, is_asterisk}
use snap.Catalog.Tuples.Accepted.{find_tuples_matches-validate}
use snap.Catalog.Trie.{MetricType, CatalogedPlugin, version_of, found, get_metric, get_metrics}
use snap.Catalog.Trie.Queries.{IsLiteral, get_metric-add_metric, get_metrics-add_metric}
use snap.Catalog.Metrics.{
  MetricCatalog, add_to_catalog, returned, get_cataloged, get_matches, get_all_cataloged,
  all_returned, returned_namespace,
}

static-IsLiteral :
    (e : NamespaceElement)
    → element_is_dynamic e ≡ is_asterisk e.value
    → element_is_dynamic e ≡ false
    → IsLiteral e.value
static-IsLiteral e h k = ground arith

neither : (a b : Bool) → a || b ≡ false → (a ≡ false) × (b ≡ false)
neither a b h = ground arith

strings-IsLiteral :
    (ns : Namespace)
    → All (λ e. element_is_dynamic e ≡ is_asterisk e.value) ns
    → any_dynamic ns ≡ false
    → All IsLiteral (strings ns)
unfolding strings
strings-IsLiteral [] all h = tt
strings-IsLiteral (e ∷ ns) all h =
    let (first, rest) = neither (element_is_dynamic e) (any_dynamic ns) h in
    (static-IsLiteral e all.0 first, strings-IsLiteral ns all.1 rest)

kept_namespace :
    (requested : Namespace) (m : MetricType)
    → any_dynamic m.namespace ≡ false
    → returned_namespace requested m ≡ m.namespace
unfolding returned_namespace
kept_namespace requested m h = rw (h) refl

returned_static :
    (requested : Namespace) (m : MetricType) (p : CatalogedPlugin)
    → m.plugin ≡ some p
    → any_dynamic m.namespace ≡ false
    → returned requested m ≡ some (record m { version = version_of m })
unfolding returned
returned_static requested m p e h =
    ap
      (elim [
        | none ↦ none
        | some _ ↦
            some (record m { namespace = returned_namespace requested m; version = version_of m })
      ])
      e
    ∙ ap (λ ns. some (record m { namespace = ns; version = version_of m }))
        (kept_namespace requested m h)

get_cataloged_one :
    (ns : Namespace) (v : ℤ) (mc : MetricCatalog) (m mt : MetricType)
    → get_metric (strings ns) v mc.tree ≡ found m
    → returned ns m ≡ some mt
    → get_cataloged ns v mc ≡ some (found mt)
unfolding get_cataloged
get_cataloged_one ns v mc m mt h e = rw (h, get_cataloged, e) refl

get_matches_one :
    (ns : Namespace) (v : ℤ) (mc : MetricCatalog) (m mt : MetricType)
    → get_metrics (strings ns) v mc.tree ≡ found (m ∷ [])
    → returned ns m ≡ some mt
    → get_matches (ns ∷ []) v mc ≡ some (found (mt ∷ []))
unfolding get_matches all_returned
get_matches_one ns v mc m mt h e = rw (h, get_matches, e) refl

-- A metric of a plugin with a positive version and a nonempty namespace without dynamic elements, which
-- validateMetricNamespace accepts, is once it is in the catalog what GetMetric and GetMetrics
-- return for its namespace and version, whatever else was in the catalog.
pub get_cataloged-add_to_catalog :
    (m : MetricType) (mc : MetricCatalog) (p : CatalogedPlugin) (e : NamespaceElement)
    (ns : Namespace)
    → m.plugin ≡ some p
    → m.namespace ≡ e ∷ ns
    → validate_metric_namespace m.namespace ≡ none
    → any_dynamic m.namespace ≡ false
    → ltb_ℤ (pos 0) (version_of m) ≡ true
    → (get_cataloged m.namespace (version_of m) (add_to_catalog m mc)
        ≡ some (found (record m { version = version_of m })))
      × (get_all_cataloged m.namespace (version_of m) (add_to_catalog m mc)
          ≡ some (found (record m { version = version_of m } ∷ [])))
unfolding get_all_cataloged add_to_catalog
get_cataloged-add_to_catalog m mc p e ns made shape valid static positive =
    let (all, last, only) = find_tuples_matches-validate m.namespace valid in
    let lits = strings-IsLiteral m.namespace all static in
    let h : strings m.namespace ≡ e.value ∷ strings ns =
      ap strings shape ∙ (unfold strings in refl) in
    let lits' : All IsLiteral (e.value ∷ strings ns) = subst (All IsLiteral) h lits in
    let same = returned_static m.namespace m p made static in
    (
      get_cataloged_one m.namespace (version_of m) (add_to_catalog m mc) m
          (record m { version = version_of m })
          (get_metric-add_metric m mc.tree e.value (strings ns) h lits' positive) same,
      ap (λ l. get_matches l (version_of m) (add_to_catalog m mc)) only
          ∙ get_matches_one m.namespace (version_of m) (add_to_catalog m mc) m
              (record m { version = version_of m })
              (get_metrics-add_metric m mc.tree e.value (strings ns) h lits' positive) same,
    )
