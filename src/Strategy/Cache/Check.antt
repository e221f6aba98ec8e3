-- ===== src/Strategy/Cache/Check.antt =====
-- checkCache: which metrics are collected anew and which come from the table.
use snap.Base.{
  ℕ, ◌+◌, ◌≡◌, refl, ◌∙◌, false, Option, none, some, List, [], ◌∷◌, ◌++◌, Text, text_discrete,
  arith,
}
use snap.Base.Int.{ℤ}
use snap.Base.Map.{lookup-put_self, lookup-put_ne}
use snap.Namespace.{to_string}
use snap.Strategy.Key.{cache_key}
use snap.Strategy.Cache.{
  Metric, CacheCell, Cache, empty_cell, is_fresh, cell_content, hit, miss, get, cached_list,
  check_from, check_cache,
}
use snap.Strategy.Cache.Lookup.{cell_at, served, after_get, get-served, get-table}

-- The split of the metrics by what the table serves, with the table left alone.
unfoldable pub split_served : (ℕ → ℕ) → ℕ → Cache → List Metric → List Metric × List Metric
unfolding cached_list
split_served clock i c [] = ([], [])
split_served clock i c (mt ∷ mts) =
    let (collect, cached) = split_served clock (i + 1) c mts in
    elim (served (clock i) c.ttl (cell_at c (to_string mt.namespace) mt.version)) [
      | none ↦ (mt ∷ collect, cached)
      | some m ↦ (collect, cached_list m ++ cached)
    ]

served-after_get :
    (now t : ℕ) (ttl : ℤ) (o : Option CacheCell)
    → is_fresh now ttl empty_cell ≡ false
    → served now ttl (some (after_get t ttl o)) ≡ served now ttl o
unfolding is_fresh hit miss cell_content
served-after_get now t ttl none h = ground arith
served-after_get now t ttl (some cell) h = ground arith

-- A read does not change what any later read is served.
served-get :
    (now t : ℕ) (c : Cache) (ns ms : Text) (v w : ℤ)
    → is_fresh now c.ttl empty_cell ≡ false
    → served now (get t c ns v).0.ttl (cell_at (get t c ns v).0 ms w)
      ≡ served now c.ttl (cell_at c ms w)
served-get now t c ns ms v w h = elim (text_discrete (cache_key ns v) (cache_key ms w)) [
  | yes e ↦
      rw (get-table t c ns v, e, lookup-put_self text_discrete _ _ c.table)
        (served-after_get now t c.ttl (cell_at c ms w) h)
  | no n ↦ rw (get-table t c ns v, lookup-put_ne text_discrete _ _ _ c.table n)
]

-- `d` serves what `c` serves, whenever the clock is read.
Serves : (ℕ → ℕ) → Cache → Cache → Type 0
Serves clock c d =
    (j : ℕ) (ns : Text) (v : ℤ)
    → served (clock j) d.ttl (cell_at d ns v) ≡ served (clock j) c.ttl (cell_at c ns v)

module _ (clock : ℕ → ℕ) (c : Cache) where
  check_from-split :
      (mts : List Metric) (i : ℕ) (d : Cache)
      → ((j : ℕ) → is_fresh (clock j) d.ttl empty_cell ≡ false)
      → Serves clock c d
      → ((check_from clock i d mts).1 ≡ (split_served clock i c mts).0)
        × ((check_from clock i d mts).2 ≡ (split_served clock i c mts).1)
  unfolding check_from split_served Serves
  check_from-split [] i d h same = (refl, refl)
  check_from-split (mt ∷ mts) i d h same =
      let ns = to_string mt.namespace in
      let d' = (get (clock i) d ns mt.version).0 in
      let (collects, caches) =
        check_from-split mts (i + 1) d' (λ j. rw (get-table (clock i) d ns mt.version) (h j))
          (λ j ms w. served-get (clock j) (clock i) d ns ms mt.version w (h j) ∙ same j ms w) in
      let first = get-served (clock i) d ns mt.version ∙ same i ns mt.version in
      ground (arith, collects, caches, first)

  -- While the clock reads later than the zero time by the time to live or more, checkCache splits
  -- the metrics by what the table served before the call: those served nothing are collected, in
  -- order, and the others are answered by what they are served. Misses that it books on the way
  -- serve nothing.
  pub check_cache-split :
      (mts : List Metric)
      → ((j : ℕ) → is_fresh (clock j) c.ttl empty_cell ≡ false)
      → ((check_cache clock c mts).1 ≡ (split_served clock 0 c mts).0)
        × ((check_cache clock c mts).2 ≡ (split_served clock 0 c mts).1)
  unfolding check_cache Serves
  check_cache-split mts h = check_from-split mts 0 c h (λ j ns v. refl)
