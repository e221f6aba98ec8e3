-- ===== src/Strategy/Samples.antt =====
-- control/strategy: plugins, metrics and pools to try the theorems on.
use mathlib.Core.List.{lookup}
use snap.Base.{
  ℕ, ◌+◌, ◌*◌, ◌≤◌, ◌<◌, ◌≡◌, ◌≢◌, refl, false, List, [], ◌∷◌, some, Text, text_discrete, length,
  ◌==◌, if◌then◌else◌, arith,
}
use snap.Base.Int.{◌<ℤ◌, int64, uint64, pos}
use snap.Namespace.{new_namespace, to_string}
use snap.Strategy.Key.{cache_key, cache_key-injective}
use snap.Strategy.Cache.{
  Metric, one, Cache, ok, new_cache, is_fresh, time_sub, put_cached, check_cache, update_cache,
}
use snap.Strategy.Cache.Check.{split_served, check_cache-split}
use snap.Strategy.Cache.Update.{check-update}
use snap.Base.Map.{put, delete}
use snap.Strategy.Plugin.{Heap, collector, sticky_routing}
use snap.Strategy.Sticky
use snap.Strategy.Sticky.{
  Sticky, new_sticky, is_busy, first_available, select_plugin, release, finish_remove,
}
use snap.Strategy.Sticky.Assignment.{Call, selects, removes, checks, step, run, run_exclusive}
use snap.Strategy.Sticky.Keeping.{select-run-select}
use snap.Strategy.ConfigBased
use snap.Strategy.ConfigBased.{ConfigBased}
use snap.Strategy.ConfigBased.AsSticky.{as_sticky, both, calls-as_sticky}
use snap.Strategy.Pool
use snap.Strategy.Pool.{Limits, Pool, count, insert, eligible, kill, kill_all}
use snap.Strategy.Pool.Growth.{eligible-insert}
use snap.Strategy.Pool.Identity.{IsValid, Absent, insert-IsValid}

abbrev web : Text
web = b'w' ∷ []

abbrev load : Metric
unfolding new_namespace
load = record { namespace = new_namespace (web ∷ []); version = pos 2; payload = 1 }

abbrev free : Metric
unfolding new_namespace
free = record { namespace = new_namespace ((b'f' ∷ []) ∷ web ∷ []); version = pos 3; payload = 4 }

abbrev cache : Cache
unfolding new_cache
cache = new_cache (pos 100)

-- The key has held a single metric.
abbrev used_cache : Cache
used_cache = put_cached 40 cache web (pos 2) (one load)

abbrev reading : ℕ → ℕ
reading i = 180

check_cache-split_example :
    ((check_cache reading used_cache (load ∷ free ∷ [])).1
      ≡ (split_served reading 0 used_cache (load ∷ free ∷ [])).0)
    × ((check_cache reading used_cache (load ∷ free ∷ [])).2
        ≡ (split_served reading 0 used_cache (load ∷ free ∷ [])).1)
unfolding is_fresh time_sub cache new_cache put_cached lookup
check_cache-split_example = check_cache-split reading used_cache (load ∷ free ∷ []) (λ j. refl)

apart :
    cache_key (to_string free.namespace) free.version
    ≢ cache_key (to_string load.namespace) load.version
unfolding free load
apart e = cc (
    (cache_key-injective (to_string free.namespace) (to_string load.namespace) (pos 3) (pos 2) e).1)

check-update_example :
    ((check_cache reading (update_cache (λ i. 120) cache (load ∷ free ∷ [])) (load ∷ free ∷ [])).1
      ≡ [])
    × ((check_cache reading (update_cache (λ i. 120) cache (load ∷ free ∷ [])) (load ∷ free ∷ [])).2
        ≡ load ∷ free ∷ [])
unfolding load free cache new_cache new_namespace is_fresh time_sub
check-update_example =
    check-update (λ i. 120) reading cache (load ∷ free ∷ []) (refl, (refl, tt))
      ((apart, tt), (tt, tt)) (λ i k. refl) (λ k. refl)

abbrev sticky : Sticky
unfolding new_sticky
sticky = new_sticky (pos 100)

abbrev calls : List (Text × Call)
calls =
    (b'1' ∷ [], selects (5 ∷ 6 ∷ []))
    ∷ (b'2' ∷ [], selects (5 ∷ 6 ∷ []))
    ∷ (b'1' ∷ [], checks reading (load ∷ []))
    ∷ (b'2' ∷ [], removes (5 ∷ 6 ∷ []))
    ∷ (b'3' ∷ [], selects (5 ∷ 6 ∷ []))
    ∷ []

abbrev third : Text
third = b'3' ∷ []

run_exclusive_example : third ≡ third
unfolding new_sticky run step Sticky.select lookup select_plugin first_available is_busy put
    text_discrete Sticky.remove finish_remove release delete Sticky.check_cache
run_exclusive_example = run_exclusive (pos 100) calls third third 6 refl refl

select-run-select_example :
    (Sticky.select (run (Sticky.select sticky (5 ∷ []) web).0 calls) [] web).1 ≡ ok 5
unfolding sticky new_sticky Sticky.select select_plugin first_available is_busy lookup
select-run-select_example =
    select-run-select sticky (5 ∷ []) [] web 5 calls refl (tt, (tt, (tt, ((λ e. cc), (tt, tt)))))

abbrev heap : Heap
heap a = record {
  id = if a == 5 then 1 else 0;
  type = collector;
  exclusive = false;
  cache_ttl = pos 0;
  concurrency_count = 2;
  routing_strategy = sticky_routing;
  last_hit = 10 + a;
}

abbrev config_based : ConfigBased
config_based = record { plugins = (web, 5) ∷ []; metric_cache = []; cache_ttl = pos 100 }

calls-as_sticky_example :
    (both (ConfigBased.select config_based (5 ∷ 6 ∷ []) (b'2' ∷ []))
      ≡ Sticky.select (as_sticky config_based) (5 ∷ 6 ∷ []) (b'2' ∷ []))
    × (both (ConfigBased.remove config_based (5 ∷ 6 ∷ []) (b'2' ∷ []))
        ≡ Sticky.remove (as_sticky config_based) (5 ∷ 6 ∷ []) (b'2' ∷ []))
    × ((let (cb, collect, cached) =
            ConfigBased.check_cache reading config_based (load ∷ []) (b'2' ∷ []) in
          (as_sticky cb, collect, cached))
        ≡ Sticky.check_cache reading (as_sticky config_based) (load ∷ []) (b'2' ∷ []))
    × (as_sticky (ConfigBased.update_cache reading config_based (load ∷ []) (b'2' ∷ []))
        ≡ Sticky.update_cache reading (as_sticky config_based) (load ∷ []) (b'2' ∷ []))
calls-as_sticky_example = calls-as_sticky config_based (5 ∷ 6 ∷ []) (b'2' ∷ []) reading (load ∷ [])

abbrev limits : Limits
limits = record { maximum_running_plugins = 3; global_cache_expiration = pos 100 }

-- One plugin runs for three subscribed tasks, and one of them has it.
abbrev pool : Pool
pool = record {
  version = pos 1;
  key = [];
  subs =
      (web, record { version = pos 1; task_id = web })
      ∷ (b'2' ∷ [], record { version = pos 1; task_id = b'2' ∷ [] })
      ∷ (b'3' ∷ [], record { version = pos 1; task_id = b'3' ∷ [] })
      ∷ [];
  plugins = (1, 5) ∷ [];
  pid_counter = 1;
  max = 3;
  concurrency_count = 2;
  strategy =
      some
        (Pool.sticky (record { plugins = (web, 5) ∷ []; metric_cache = []; cache_ttl = pos 100 }));
  restart_count = 0;
}

eligible-insert_example :
    (count pool < pool.max)
    × (int64 (pos (pool.concurrency_count * count pool)) <ℤ pos (length pool.subs))
    × (count (insert limits heap pool 6).1 ≤ (insert limits heap pool 6).1.max)
unfolding eligible count int64 uint64
eligible-insert_example = eligible-insert limits heap pool 6 refl

pool-IsValid : IsValid heap pool
unfolding lookup
pool-IsValid = record { own_id = λ id a h. ground arith; given = λ id a h. ground arith }

pool-Absent : Absent pool 6
unfolding lookup
pool-Absent id h = ground arith

insert-IsValid_example : IsValid (insert limits heap pool 6).0 (insert limits heap pool 6).1
insert-IsValid_example = insert-IsValid limits heap pool 6 (omega arith) pool-Absent pool-IsValid
