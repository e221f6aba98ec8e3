-- ===== src/Strategy/Sticky.antt =====
-- control/strategy/sticky.go: a task keeps the plugin that it was first given.
pub mod Assignment
pub mod Keeping
use mathlib.Core.List.{lookup}
use snap.Base.{
  ℕ, ◌+◌, ◌%◌, ◌^◌, Bool, true, false, ◌||◌, List, [], ◌∷◌, Option, none, some, Text, text_discrete,
  ◌==◌, if◌then◌else◌,
}
use snap.Base.Int.{ℤ}
use snap.Base.Map.{put, delete}
use snap.Strategy.Cache
use snap.Strategy.Cache.{
  Metric, Cache, Result, ok, err, could_not_select, cache_does_not_exist, new_cache,
}
use snap.Strategy.Plugin.{Handle}

pub record Sticky : Type 0 where
  pub plugins : List (Text × Handle)
  pub metric_cache : List (Text × Cache)
  pub cache_ttl : ℤ

unfoldable pub new_sticky : ℤ → Sticky
new_sticky cache_ttl = record { plugins = []; metric_cache = []; cache_ttl = cache_ttl }

-- Some task has the plugin.
unfoldable pub is_busy : Handle → List (Text × Handle) → Bool
is_busy ap [] = false
is_busy ap ((task, busy) ∷ m) = ap == busy || is_busy ap m

unfoldable pub first_available : List Handle → List (Text × Handle) → Option Handle
first_available [] m = none
first_available (ap ∷ aps) m = if is_busy ap m then first_available aps m else some ap

unfoldable pub select_plugin : Sticky → List Handle → Text → Sticky × Result Handle
select_plugin s aps task = elim (first_available aps s.plugins) [
  | some ap ↦ (record s { plugins = put text_discrete task ap s.plugins }, ok ap)
  | none ↦ (s, err could_not_select)
]

unfoldable pub select : Sticky → List Handle → Text → Sticky × Result Handle
select s aps task = elim (lookup text_discrete task s.plugins) [
  | some ap ↦ (s, ok ap)
  | none ↦ select_plugin s aps task
]

unfoldable pub release : Sticky → Text → Sticky
release s task = record s {
  metric_cache = delete text_discrete task s.metric_cache;
  plugins = delete text_discrete task s.plugins;
}

unfoldable pub finish_remove : Text → Sticky → Result Handle → Sticky × Result Handle
unfolding release
finish_remove task s (ok ap) = (release s task, ok ap)
finish_remove task s (err e) = (s, err e)

-- Selects as `select` does and forgets the task, unless the selection fails.
unfoldable pub remove : Sticky → List Handle → Text → Sticky × Result Handle
remove s aps task = let (s', r) = select s aps task in finish_remove task s' r

-- The cache of a task, made when it is first asked for.
unfoldable pub task_cache : Sticky → Text → Cache
task_cache s task = elim (lookup text_discrete task s.metric_cache) [
  | some c ↦ c
  | none ↦ new_cache s.cache_ttl
]

unfoldable pub check_cache :
    (ℕ → ℕ) → Sticky → List Metric → Text → Sticky × List Metric × List Metric
check_cache clock s mts task =
    let (c, collect, cached) = Cache.check_cache clock (task_cache s task) mts in
    (record s { metric_cache = put text_discrete task c s.metric_cache }, collect, cached)

unfoldable pub update_cache : (ℕ → ℕ) → Sticky → List Metric → Text → Sticky
update_cache clock s mts task = record s {
  metric_cache =
      put text_discrete task (Cache.update_cache clock (task_cache s task) mts) s.metric_cache;
}

-- Sums over the tasks' caches in uint64.
unfoldable pub sum_caches : (Cache → ℕ) → ℕ → List (Text × Cache) → ℕ
sum_caches f total [] = total
sum_caches f total ((task, c) ∷ m) = sum_caches f ((total + f c) % 2 ^ 64) m

unfoldable pub all_cache_hits : Sticky → ℕ
all_cache_hits s = sum_caches Cache.all_cache_hits 0 s.metric_cache

unfoldable pub all_cache_misses : Sticky → ℕ
all_cache_misses s = sum_caches Cache.all_cache_misses 0 s.metric_cache

unfoldable pub cache_hits : Sticky → Text → ℤ → Text → Result ℕ
cache_hits s ns version task = elim (lookup text_discrete task s.metric_cache) [
  | some c ↦ Cache.cache_hits c ns version
  | none ↦ err cache_does_not_exist
]

unfoldable pub cache_misses : Sticky → Text → ℤ → Text → Result ℕ
cache_misses s ns version task = elim (lookup text_discrete task s.metric_cache) [
  | some c ↦ Cache.cache_misses c ns version
  | none ↦ err cache_does_not_exist
]
