-- ===== src/Strategy/Cache/Update.antt =====
-- updateCache on static metrics, and the checkCache that follows it.
use snap.Base.{
  ℕ, ◌+◌, ◌≡◌, ◌≢◌, refl, ap, ◌∙◌, true, false, some, List, [], ◌∷◌, Text, text_discrete, All,
}
use snap.Base.Int.{ltb_ℤ}
use snap.Base.Map.{lookup-put_ne}
use snap.Namespace.{any_dynamic, is_dynamic, to_string}
use snap.Strategy.Key.{cache_key}
use snap.Strategy.Cache.{
  Metric, one, CacheCell, Cache, empty_cell, is_fresh, time_sub, cell_content, cell_put, put_cached,
  update_from, put_groups, update_cache, check_cache,
}
use snap.Strategy.Cache.Lookup.{cell_at, served, put_cached-table, cell_at-put_cached_self}
use snap.Strategy.Cache.Check.{split_served, check_cache-split}

abbrev pub metric_key : Metric → Text
metric_key mt = cache_key (to_string mt.namespace) mt.version

-- No two metrics of the list have one key.
abbrev pub DistinctKeys : List Metric → Type 0
DistinctKeys [] = Unit
DistinctKeys (mt ∷ mts) = All (λ n. metric_key n ≢ metric_key mt) mts × DistinctKeys mts

abbrev pub IsStatic : Metric → Type 0
IsStatic mt = any_dynamic mt.namespace ≡ false

-- The stores that updateCache makes for static metrics.
store_all : (ℕ → ℕ) → ℕ → Cache → List Metric → Cache
store_all clock i c [] = c
store_all clock i c (mt ∷ mts) =
    store_all clock (i + 1) (put_cached (clock i) c (to_string mt.namespace) mt.version (one mt))
      mts

update_from-static :
    (clock : ℕ → ℕ) (i : ℕ) (c : Cache) (mts : List Metric)
    → All IsStatic mts
    → ((update_from clock i c [] mts).1 ≡ store_all clock i c mts)
      × ((update_from clock i c [] mts).2 ≡ [])
unfolding update_from store_all is_dynamic
update_from-static clock i c [] h = (refl, refl)
update_from-static clock i c (mt ∷ mts) h =
    let d = put_cached (clock i) c (to_string mt.namespace) mt.version (one mt) in
    let (p, q) = update_from-static clock (i + 1) d mts h.1 in rw (h.0) (p, q)

module _ (write : ℕ → ℕ) where
  -- The table serves `mt` from a store made at some reading of the clock.
  record Holds (c : Cache) (mt : Metric) : Type 0 where
    pub cell : CacheCell
    pub round : ℕ
    pub found : cell_at c (to_string mt.namespace) mt.version ≡ some cell
    pub stored_at : cell.time ≡ write round
    pub content : cell.metric ≡ some mt

  put_cached-Holds_self :
      (i : ℕ) (c : Cache) (mt : Metric)
      → Holds (put_cached (write i) c (to_string mt.namespace) mt.version (one mt)) mt
  unfolding cell_put
  put_cached-Holds_self i c mt = record {
    cell = _;
    round = i;
    found = cell_at-put_cached_self (write i) c (to_string mt.namespace) mt.version (one mt);
    stored_at = refl;
    content = refl;
  }

  put_cached-Holds_ne :
      (i : ℕ) (c : Cache) (mt n : Metric)
      → metric_key mt ≢ metric_key n
      → Holds c n
      → Holds (put_cached (write i) c (to_string mt.namespace) mt.version (one mt)) n
  put_cached-Holds_ne i c mt n ne h = record {
    cell = h.cell;
    round = h.round;
    found =
        rw (put_cached-table (write i) c (to_string mt.namespace) mt.version (one mt))
          (lookup-put_ne text_discrete _ _ _ c.table ne ∙ h.found);
    stored_at = h.stored_at;
    content = h.content;
  }

  store_all-Holds :
      (i : ℕ) (c : Cache) (n : Metric) (mts : List Metric)
      → All (λ m. metric_key m ≢ metric_key n) mts
      → Holds c n
      → Holds (store_all write i c mts) n
  unfolding store_all
  store_all-Holds i c n [] ne h = h
  store_all-Holds i c n (m ∷ mts) ne h =
      store_all-Holds (i + 1) _ n mts ne.1 (put_cached-Holds_ne i c m n ne.0 h)

  -- After the stores the table serves every metric of the list.
  All-Holds :
      (i : ℕ) (c : Cache) (mts : List Metric)
      → DistinctKeys mts
      → All (Holds (store_all write i c mts)) mts
  unfolding store_all
  All-Holds i c [] d = tt
  All-Holds i c (mt ∷ mts) d = (
    store_all-Holds (i + 1) _ mt mts d.0 (put_cached-Holds_self i c mt),
    All-Holds (i + 1) _ mts d.1,
  )

  store_all-ttl : (i : ℕ) (c : Cache) (mts : List Metric) → (store_all write i c mts).ttl ≡ c.ttl
  unfolding store_all
  store_all-ttl i c [] = refl
  store_all-ttl i c (mt ∷ mts) =
      store_all-ttl (i + 1) _ mts
      ∙ ap (λ (d : Cache). d.ttl)
          (put_cached-table (write i) c (to_string mt.namespace) mt.version (one mt))

  split_served-Holds :
      (read : ℕ → ℕ) (j : ℕ) (c : Cache) (mts : List Metric)
      → ((i k : ℕ) → ltb_ℤ (time_sub (read k) (write i)) c.ttl ≡ true)
      → All (Holds c) mts
      → ((split_served read j c mts).0 ≡ []) × ((split_served read j c mts).1 ≡ mts)
  unfolding split_served
  split_served-Holds read j c [] young h = (refl, refl)
  split_served-Holds read j c (mt ∷ mts) young h =
      let (p, q) = split_served-Holds read (j + 1) c mts young h.1 in
      let e : served (read j) c.ttl (cell_at c (to_string mt.namespace) mt.version)
          ≡ some (one mt) =
        served-Holds in
      (rw (e, split_served) p, rw (e, split_served) (ap (◌∷◌ mt) q))
    where
      open (h.0) use {cell, round, found, stored_at, content}

      served-Holds :
          served (read j) c.ttl (cell_at c (to_string mt.namespace) mt.version) ≡ some (one mt)
      served-Holds =
          rw (found) (unfold is_fresh cell_content in rw (stored_at, content, young round j))

update_cache-static :
    (write : ℕ → ℕ) (c : Cache) (mts : List Metric)
    → All IsStatic mts
    → update_cache write c mts ≡ store_all write 0 c mts
unfolding update_cache put_groups
update_cache-static write c mts h =
    let (stored, none_grouped) = update_from-static write 0 c mts h in
    rw (none_grouped, put_groups) stored

-- Static metrics with distinct keys that updateCache stored are all answered from the table by a
-- checkCache whose readings of the clock are younger than the time to live at each of the stores
-- (and older than it at the zero time): nothing is collected, and the metrics come back in order.
pub check-update :
    (write read : ℕ → ℕ) (c : Cache) (mts : List Metric)
    → All IsStatic mts
    → DistinctKeys mts
    → ((i k : ℕ) → ltb_ℤ (time_sub (read k) (write i)) c.ttl ≡ true)
    → ((k : ℕ) → is_fresh (read k) c.ttl empty_cell ≡ false)
    → ((check_cache read (update_cache write c mts) mts).1 ≡ [])
      × ((check_cache read (update_cache write c mts) mts).2 ≡ mts)
check-update write read c mts statics distinct young old =
    let d = store_all write 0 c mts in
    let same = store_all-ttl write 0 c mts in
    let (collects, caches) = check_cache-split read d mts (λ k. rw same (old k)) in
    let (p, q) =
      split_served-Holds write read 0 d mts (λ i k. rw same (young i k))
        (All-Holds write 0 c mts distinct) in
    rw (update_cache-static write c mts statics) (collects ∙ p, caches ∙ q)
