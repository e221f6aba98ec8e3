-- ===== src/Control/Groups.antt =====
-- control/subscription_group.go: the plugins that a task needs are subscribed to their pools, and
-- compared again whenever plugins are loaded or unloaded. What the metric catalog gives for the
-- requested metrics is an argument; metrics and configurations are left out.
use mathlib.Core.List.{lookup}
use snap.Base.{
  ℕ, zero, suc, ◌+◌, if◌then◌else◌, List, [], ◌∷◌, ◌++◌, Option, none, some, Text, text_discrete,
  ltb,
}
use snap.Base.Int.{pos, ltb_ℤ}
use snap.Base.Map.{put, delete}
use snap.Strategy.Plugin.{Heap}
use snap.Strategy.Pool.{Limits, Pool, count, subscribe, unsubscribe, eligible}
use snap.Control.{
  SubscribedPlugin, LoadedPlugin, subscribed_key, loaded_key, GroupError, plugin_not_found, bad_key,
  pool_failed, group_already_exists, group_does_not_exist,
}
use snap.Control.Loaded.{Loaded, get_loaded}
use snap.Control.Available.{Pools, bad_key_error, nil, found, get_pool, get_or_create_pool}

unfoldable pub count_in : Text → List (Text × ℕ) → ℕ
count_in k counts = elim (lookup text_discrete k counts) [ none ↦ 0 | some n ↦ n ]

unfoldable pub count_keys : List SubscribedPlugin → List (Text × ℕ)
count_keys [] = []
count_keys (p ∷ ps) =
    let counts = count_keys ps in
    put text_discrete (subscribed_key p) (count_in (subscribed_key p) counts + 1) counts

-- One loop of comparePlugins: those that are not covered by the counts of the other side.
unfoldable pub not_counted : List (Text × ℕ) → List SubscribedPlugin → List SubscribedPlugin
not_counted counts [] = []
not_counted counts (p ∷ ps) = elim (count_in (subscribed_key p) counts) [
  | zero ↦ p ∷ not_counted counts ps
  | suc n ↦ not_counted (put text_discrete (subscribed_key p) n counts) ps
]

-- The plugins to subscribe and those to unsubscribe.
unfoldable pub compare_plugins :
    List SubscribedPlugin → List SubscribedPlugin → List SubscribedPlugin × List SubscribedPlugin
compare_plugins new_plugins old_plugins = (
  not_counted (count_keys old_plugins) new_plugins,
  not_counted (count_keys new_plugins) old_plugins,
)

-- The rest of the control module: the check of a plugin's signature, the start of a plugin's process,
-- which puts a running plugin into the pool, the request to a plugin on another host, and events.
pub record Runner : Type 0 where
  pub limits : Limits
  pub heap : Heap
  pub verify_plugin : LoadedPlugin → Option GroupError
  pub run_plugin : LoadedPlugin → Pool → Pool × Option GroupError
  pub start_remote : LoadedPlugin → Pool → Pool × Option GroupError
  pub subscription_event : Text → LoadedPlugin → Option GroupError
  pub unsubscription_event : Text → SubscribedPlugin → Option GroupError

-- What subscribing does to the pool of a plugin on this host.
unfoldable pub join_pool : Runner → Text → LoadedPlugin → Pool → Pool × Option GroupError
join_pool runner id plg pool =
    let joined = subscribe pool id in
    let started : Pool × Option GroupError = elim (runner.verify_plugin plg) [
      | some e ↦ (joined, some e)
      | none ↦ runner.run_plugin plg joined
    ] in
    if eligible joined then started else (joined, none)

unfoldable pub join_remote : Runner → LoadedPlugin → Pool → Pool × Option GroupError
join_remote runner plg pool =
    let started = runner.start_remote plg pool in
    if ltb (count pool) 1 then started else (pool, none)

unfoldable pub subscribe_one : Runner → Text → Pools → LoadedPlugin → Pools × Option GroupError
subscribe_one runner id table plg =
    elim (get_or_create_pool runner.limits runner.heap table (loaded_key plg)) [
      | none ↦ (table, some pool_failed)
      | some (table1, pool) ↦
          let (pool1, e) =
            if plg.is_remote then join_remote runner plg pool else join_pool runner id plg pool in
          let table2 : Pools = put text_discrete (loaded_key plg) pool1 table1 in
          elim e [
            | some err ↦ (table2, some err)
            | none ↦ (table2, runner.subscription_event id plg)
          ]
    ]

-- The first error ends the loop; what has been done stays.
unfoldable pub subscribe_each : Runner → Text → Pools → List LoadedPlugin → Pools × List GroupError
subscribe_each runner id table [] = (table, [])
subscribe_each runner id table (plg ∷ plgs) =
    let (table1, e) = subscribe_one runner id table plg in
    let rest = subscribe_each runner id table1 plgs in
    elim e [ some err ↦ (table1, err ∷ []) | none ↦ rest ]

unfoldable pub find_all : Loaded → List SubscribedPlugin → Option (List LoadedPlugin)
find_all loaded [] = some []
find_all loaded (p ∷ ps) =
    let rest = find_all loaded ps in
    elim (get_loaded loaded (subscribed_key p)) [
      | none ↦ none
      | some plg ↦ elim rest [ none ↦ none | some plgs ↦ some (plg ∷ plgs) ]
    ]

-- Nothing is subscribed unless all plugins are there.
unfoldable pub subscribe_plugins :
    Runner → Loaded → Text → Pools → List SubscribedPlugin → Pools × List GroupError
subscribe_plugins runner loaded id table plugins = elim (find_all loaded plugins) [
  | none ↦ (table, plugin_not_found ∷ [])
  | some plgs ↦ subscribe_each runner id table plgs
]

-- An error of getPool ends the loop, one of an event does not.
unfoldable pub unsubscribe_plugins :
    Runner → Text → Pools → List SubscribedPlugin → Pools × List GroupError
unsubscribe_plugins runner id table [] = (table, [])
unsubscribe_plugins runner id table (p ∷ ps) =
    let go : Pools → Pools × List GroupError = λ table1.
      (let (table2, errs) = unsubscribe_plugins runner id table1 ps in
        elim (runner.unsubscription_event id p) [
          | some e ↦ (table2, e ∷ errs)
          | none ↦ (table2, errs)
        ]) in
    elim (get_pool table (subscribed_key p)) [
      | bad_key_error ↦ (table, bad_key ∷ [])
      | nil ↦ go table
      | found k pool ↦ go (put text_discrete k (unsubscribe pool id) table)
    ]

pub record SubscriptionGroup : Type 0 where
  pub requested_plugins : List SubscribedPlugin
  pub plugins : List SubscribedPlugin
  pub errors : List GroupError

-- A requested plugin that is not loaded, or that has no policy, is left out without an error.
unfoldable pub resolve_requested : Loaded → List SubscribedPlugin → List SubscribedPlugin
resolve_requested loaded [] = []
resolve_requested loaded (p ∷ ps) =
    let rest = resolve_requested loaded ps in
    elim (get_loaded loaded (subscribed_key p)) [
      | none ↦ rest
      | some lp ↦
          let version = if ltb_ℤ p.version (pos 1) then lp.version else p.version in
          if lp.has_policy then record p { version = version } ∷ rest else rest
    ]

-- What the metric catalog gives: the collectors and the errors.
abbrev pub Gathered : Type 0
Gathered = List SubscribedPlugin × List GroupError

unfoldable pub process_group :
    Runner → Loaded → Gathered → Text → Pools → SubscriptionGroup → Pools × SubscriptionGroup
process_group runner loaded (collectors, errs) id table g =
    let plugins = collectors ++ resolve_requested loaded g.requested_plugins in
    let (subs, unsubs) = compare_plugins plugins g.plugins in
    let (table1, errs1) = subscribe_plugins runner loaded id table subs in
    let (table2, errs2) = unsubscribe_plugins runner id table1 unsubs in
    (table2, record g { plugins = plugins; errors = errs ++ (errs1 ++ errs2) })

abbrev pub Groups : Type 0
Groups = List (Text × SubscriptionGroup)

-- A group whose first processing has an error is not kept.
unfoldable pub add_group :
    Runner
    → Loaded
    → Gathered
    → Text
    → List SubscribedPlugin
    → Pools
    → Groups
    → Pools × Groups × List GroupError
add_group runner loaded gathered id requested table groups = elim (lookup text_discrete id groups) [
  | some _ ↦ (table, groups, group_already_exists ∷ [])
  | none ↦
      let (table1, g) =
        process_group runner loaded gathered id table
          (record { requested_plugins = requested; plugins = []; errors = [] }) in
      elim g.errors [
        | [] ↦ (table1, put text_discrete id g groups, [])
        | e ∷ es ↦ (table1, groups, e ∷ es)
      ]
]

unfoldable pub remove_group : Runner → Text → Pools → Groups → Pools × Groups × List GroupError
remove_group runner id table groups = elim (lookup text_discrete id groups) [
  | none ↦ (table, groups, group_does_not_exist ∷ [])
  | some g ↦
      let (table1, errs) = unsubscribe_plugins runner id table g.plugins in
      (table1, delete text_discrete id groups, errs)
]

unfoldable pub get_group : Text → Groups → Option (List GroupError)
get_group id groups = elim (lookup text_discrete id groups) [ none ↦ none | some g ↦ some g.errors ]

-- `gather` is what the metric catalog gives for the group of each task.
unfoldable pub process_groups :
    Runner → Loaded → (Text → Gathered) → Pools → Groups → Pools × Groups × List GroupError
process_groups runner loaded gather table [] = (table, [], [])
process_groups runner loaded gather table ((id, g) ∷ groups) =
    let (table1, g1) = process_group runner loaded (gather id) id table g in
    let (table2, groups2, errs) = process_groups runner loaded gather table1 groups in
    (table2, (id, g1) ∷ groups2, g1.errors ++ errs)
