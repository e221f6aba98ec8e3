-- ===== src/Control/Samples.antt =====
-- Two loaded plugins, and a task whose group changes from one of them to both.
use mathlib.Core.List.{lookup}
use mathlib.Core.List.{Memᴰ}
use snap.Base.Int.{int64, uint64}
use snap.Base.{
  ◌+◌, ◌-◌, ◌≡◌, ◌≢◌, ◌⊎◌, refl, subst, true, false, List, [], ◌∷◌, none, some, Text, text_discrete,
  ℕ_discrete, arith,
}
use snap.Base.Int.{pos}
use snap.Base.Map.{put}
use snap.Base.Decimal.{show_int, decimal, digits}
use snap.Strategy.Plugin.{AvailablePlugin, collector, default_routing}
use snap.Strategy.Pool.{Pool, subscribe, eligible, count}
use snap.Control.{
  SubscribedPlugin, LoadedPlugin, subscribed_key, loaded_key, type_name_version, plugin_failed,
  group_does_not_exist,
}
use snap.Control.Loaded.{Loaded, get_loaded}
use snap.Control.Available.{Pools, get_or_create_pool}
use snap.Control.Groups.{
  Runner, SubscriptionGroup, process_group, add_group, remove_group, get_group, compare_plugins,
  count_in, count_keys, not_counted, resolve_requested, subscribe_plugins, find_all, subscribe_each,
  subscribe_one, join_pool, unsubscribe_plugins,
}
use snap.Control.Comparing.{occurrences, compare_plugins-occurrences}
use snap.Control.Subscribing.{IsSubscribed, KeepsSubscriptions}
use snap.Control.Keys.{AllKeys}
use snap.Control.Finding.{AreLocal}
use snap.Control.Coverage.{process_group-covers}
use snap.Control.Failing.{add_group-branches}
use snap.Control.Unloading.{RequestedMetric}

abbrev psutil : SubscribedPlugin
psutil = record { type_name = 99 ∷ []; name = 112 ∷ []; version = pos 3 }

abbrev file : SubscribedPlugin
file = record { type_name = 117 ∷ 118 ∷ []; name = 102 ∷ []; version = pos 2 }

abbrev loaded_psutil : LoadedPlugin
loaded_psutil = record {
  type_name = 99 ∷ [];
  name = 112 ∷ [];
  version = pos 3;
  has_policy = true;
  is_remote = false;
}

abbrev loaded_file : LoadedPlugin
loaded_file = record {
  type_name = 117 ∷ 118 ∷ [];
  name = 102 ∷ [];
  version = pos 2;
  has_policy = true;
  is_remote = false;
}

abbrev task : Text
task = 116 ∷ []

abbrev instance_of : AvailablePlugin
instance_of = record {
  id = 0;
  type = collector;
  exclusive = false;
  cache_ttl = pos 0;
  concurrency_count = 1;
  routing_strategy = default_routing;
  last_hit = 0;
}

-- Plugins are found good and start at once; nothing runs on another host.
abbrev runner : Runner
runner = record {
  limits = record { maximum_running_plugins = 3; global_cache_expiration = pos 5 };
  heap = λ _. instance_of;
  verify_plugin = λ _. none;
  run_plugin = λ _ pool. (pool, none);
  start_remote = λ _ pool. (pool, none);
  subscription_event = λ _ _. none;
  unsubscription_event = λ _ _. none;
}

runner-KeepsSubscriptions : KeepsSubscriptions runner
runner-KeepsSubscriptions = record { run = λ _ _. refl; remote = λ _ _. refl }

abbrev idle_pool : Pool
idle_pool = record {
  version = pos 2;
  key = subscribed_key file;
  subs = [];
  plugins = [];
  pid_counter = 0;
  max = 3;
  concurrency_count = 1;
  strategy = none;
  restart_count = 0;
}

abbrev used_pool : Pool
used_pool = record idle_pool {
  version = pos 3;
  key = subscribed_key psutil;
  subs = (task, record { version = pos 3; task_id = task }) ∷ [];
}

abbrev pools : Pools
pools = (subscribed_key psutil, used_pool) ∷ (subscribed_key file, idle_pool) ∷ []

abbrev all_loaded : Loaded
all_loaded = (subscribed_key psutil, loaded_psutil) ∷ (subscribed_key file, loaded_file) ∷ []

abbrev group : SubscriptionGroup
group = record { requested_plugins = file ∷ []; plugins = psutil ∷ []; errors = [] }

no_errors : (process_group runner all_loaded (psutil ∷ [], []) task pools group).1.errors ≡ []
unfolding process_group compare_plugins not_counted count_in count_keys subscribed_key loaded_key
    type_name_version show_int decimal digits lookup put text_discrete ℕ_discrete resolve_requested
    get_loaded subscribe_plugins find_all subscribe_each subscribe_one get_or_create_pool join_pool
    subscribe eligible unsubscribe_plugins count int64 uint64
no_errors = refl

are_local : AreLocal all_loaded (psutil ∷ resolve_requested all_loaded (file ∷ []))
unfolding resolve_requested get_loaded lookup text_discrete ℕ_discrete subscribed_key loaded_key
    type_name_version show_int decimal digits
are_local = (
  λ plg e.
      (let same : loaded_psutil ≡ plg = cc e in
        subst (λ q. (loaded_key q ≡ subscribed_key psutil) × (q.is_remote ≡ false)) same
          (refl, refl)),
  (
    λ plg e.
        (let same : loaded_file ≡ plg = cc e in
          subst (λ q. (loaded_key q ≡ subscribed_key file) × (q.is_remote ≡ false)) same
            (refl, refl)),
    tt,
  ),
)

-- Every start of a plugin fails.
abbrev failing : Runner
failing = record runner { run_plugin = λ _ pool. (pool, some plugin_failed) }

compare_plugins-occurrences_example :
    (occurrences
        (subscribed_key file)
        (compare_plugins (psutil ∷ file ∷ []) (psutil ∷ psutil ∷ [])).0
      ≡ occurrences (subscribed_key file) (psutil ∷ file ∷ [])
        - occurrences (subscribed_key file) (psutil ∷ psutil ∷ []))
    × (occurrences
          (subscribed_key file)
          (compare_plugins (psutil ∷ file ∷ []) (psutil ∷ psutil ∷ [])).1
        ≡ occurrences (subscribed_key file) (psutil ∷ psutil ∷ [])
          - occurrences (subscribed_key file) (psutil ∷ file ∷ []))
    × (occurrences (subscribed_key file) (psutil ∷ psutil ∷ [])
          + occurrences
              (subscribed_key file)
              (compare_plugins (psutil ∷ file ∷ []) (psutil ∷ psutil ∷ [])).0
        ≡ occurrences (subscribed_key file) (psutil ∷ file ∷ [])
          + occurrences
              (subscribed_key file)
              (compare_plugins (psutil ∷ file ∷ []) (psutil ∷ psutil ∷ [])).1)
compare_plugins-occurrences_example =
    compare_plugins-occurrences (subscribed_key file) (psutil ∷ file ∷ []) (psutil ∷ psutil ∷ [])

process_group-covers_example :
    let (table1, g1) = process_group runner all_loaded (psutil ∷ [], []) task pools group in
    AllKeys (λ k. IsSubscribed task k table1) g1.plugins
unfolding lookup text_discrete ℕ_discrete subscribed_key type_name_version show_int decimal digits
process_group-covers_example =
    process_group-covers runner all_loaded (psutil ∷ [], []) task pools group
      runner-KeepsSubscriptions are_local (λ k. ground arith)
      ((used_pool, (refl, (record { version = pos 3; task_id = task }, refl))), tt) no_errors

add_group-branches_example :
    let (table1, g) =
      process_group failing all_loaded
        (psutil ∷ [], [])
        task
        pools
        (record { requested_plugins = file ∷ []; plugins = []; errors = [] }) in
    let added = add_group failing all_loaded (psutil ∷ [], []) task (file ∷ []) pools [] in
    ((g.errors ≡ [])
      × (added ≡ (table1, put text_discrete task g [], []))
      × (get_group task (put text_discrete task g []) ≡ some []))
    ⊎ ((g.errors ≢ [])
        × (added ≡ (table1, [], g.errors))
        × (get_group task [] ≡ none)
        × (remove_group failing task table1 [] ≡ (table1, [], group_does_not_exist ∷ [])))
unfolding lookup
add_group-branches_example =
    add_group-branches failing all_loaded (psutil ∷ [], []) task (file ∷ []) pools [] refl

-- Besides another version of the plugin, a second plugin of its version exposes every metric.
abbrev newer_psutil : LoadedPlugin
newer_psutil = record loaded_psutil { version = pos 4 }

abbrev other_psutil : LoadedPlugin
other_psutil = record loaded_psutil { name = 113 ∷ [] }

abbrev cpu : RequestedMetric
cpu = record { namespace = (99 ∷ []) ∷ []; version = pos 3 }

abbrev three_plugins : List Text → List LoadedPlugin
three_plugins _ = loaded_psutil ∷ newer_psutil ∷ other_psutil ∷ []
