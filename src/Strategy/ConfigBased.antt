-- ===== src/Strategy/ConfigBased.antt =====
-- control/strategy/config_based.go: tasks of one configuration share a plugin. The id is the print
-- of the configuration.
pub mod AsSticky
use mathlib.Core.List.{lookup}
use snap.Base.{
  ℕ, ◌+◌, ◌%◌, ◌^◌, Bool, true, false, ◌||◌, List, [], ◌∷◌, Option, none, some, Text, text_discrete,
  ◌==◌, if◌then◌else◌,
}
use snap.Base.Int.{ℤ}
use snap.Base.Map.{put, delete}
use snap.Strategy.Cache
use snap.Strategy.Cache.{
  Metric, Cache, Result, ok, err, could_not_select, cache_does_not_exist, new_cache,
}
use snap.Strategy.Plugin.{Handle}

pub record ConfigBased : Type 0 where
  pub plugins : List (Text × Handle)
  pub metric_cache : List (Text × Cache)
  pub cache_ttl : ℤ

unfoldable pub new_config_based : ℤ → ConfigBased
new_config_based cache_ttl = record { plugins = []; metric_cache = []; cache_ttl = cache_ttl }

-- Some id has the plugin.
unfoldable pub is_busy : Handle → List (Text × Handle) → Bool
is_busy ap [] = false
is_busy ap ((id, busy) ∷ m) = ap == busy || is_busy ap m

unfoldable pub first_available : List Handle → List (Text × Handle) → Option Handle
first_available [] m = none
first_available (ap ∷ aps) m = if is_busy ap m then first_available aps m else some ap

unfoldable pub add_first : ConfigBased → List Handle → Text → ConfigBased × Result Handle
add_first cb aps id = elim (first_available aps cb.plugins) [
  | some ap ↦ (record cb { plugins = put text_discrete id ap cb.plugins }, ok ap)
  | none ↦ (cb, err could_not_select)
]

unfoldable pub select : ConfigBased → List Handle → Text → ConfigBased × Result Handle
select cb aps id = elim (lookup text_discrete id cb.plugins) [
  | some ap ↦ (cb, ok ap)
  | none ↦ add_first cb aps id
]

unfoldable pub release : ConfigBased → Text → ConfigBased
release cb id = record cb {
  metric_cache = delete text_discrete id cb.metric_cache;
  plugins = delete text_discrete id cb.plugins;
}

unfoldable pub finish_remove : Text → ConfigBased → Result Handle → ConfigBased × Result Handle
unfolding release
finish_remove id cb (ok ap) = (release cb id, ok ap)
finish_remove id cb (err e) = (cb, err e)

-- Selects as `select` does and forgets the id, unless the selection fails.
unfoldable pub remove : ConfigBased → List Handle → Text → ConfigBased × Result Handle
remove cb aps id = let (cb', r) = select cb aps id in finish_remove id cb' r

-- The cache of an id, made when it is first asked for.
unfoldable pub id_cache : ConfigBased → Text → Cache
id_cache cb id = elim (lookup text_discrete id cb.metric_cache) [
  | some c ↦ c
  | none ↦ new_cache cb.cache_ttl
]

unfoldable pub check_cache :
    (ℕ → ℕ) → ConfigBased → List Metric → Text → ConfigBased × List Metric × List Metric
check_cache clock cb mts id =
    let (c, collect, cached) = Cache.check_cache clock (id_cache cb id) mts in
    (record cb { metric_cache = put text_discrete id c cb.metric_cache }, collect, cached)

unfoldable pub update_cache : (ℕ → ℕ) → ConfigBased → List Metric → Text → ConfigBased
update_cache clock cb mts id = record cb {
  metric_cache =
      put text_discrete id (Cache.update_cache clock (id_cache cb id) mts) cb.metric_cache;
}

-- Sums over the ids' caches in uint64.
unfoldable pub sum_caches : (Cache → ℕ) → ℕ → List (Text × Cache) → ℕ
sum_caches f total [] = total
sum_caches f total ((id, c) ∷ m) = sum_caches f ((total + f c) % 2 ^ 64) m

unfoldable pub all_cache_hits : ConfigBased → ℕ
all_cache_hits cb = sum_caches Cache.all_cache_hits 0 cb.metric_cache

unfoldable pub all_cache_misses : ConfigBased → ℕ
all_cache_misses cb = sum_caches Cache.all_cache_misses 0 cb.metric_cache

unfoldable pub cache_hits : ConfigBased → Text → ℤ → Text → Result ℕ
cache_hits cb ns version id = elim (lookup text_discrete id cb.metric_cache) [
  | some c ↦ Cache.cache_hits c ns version
  | none ↦ err cache_does_not_exist
]

unfoldable pub cache_misses : ConfigBased → Text → ℤ → Text → Result ℕ
cache_misses cb ns version id = elim (lookup text_discrete id cb.metric_cache) [
  | some c ↦ Cache.cache_misses c ns version
  | none ↦ err cache_does_not_exist
]
