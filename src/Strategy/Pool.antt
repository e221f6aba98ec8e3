-- ===== src/Strategy/Pool.antt =====
-- control/strategy/pool.go: the running instances of one plugin, the tasks subscribed to it and the
-- strategy that routes them. Locks are held for whole methods, so a method is one step. Counts
-- (max, concurrency) are natural numbers.
pub mod Routing
pub mod Growth
pub mod Identity
pub mod Killing
use mathlib.Core.List.{lookup}
use Prim.Native.Nat.{zero}
use snap.Base.{
  ℕ, ◌+◌, ◌*◌, ◌%◌, ◌^◌, Bool, true, false, ◌&&◌, not, List, [], ◌∷◌, ◌++◌, map, Option, none, some,
  Text, text_discrete, ℕ_discrete, length, ltb, leb, ◌==◌, if◌then◌else◌,
}
use snap.Base.Int.{ℤ, pos, ltb_ℤ, int64}
use snap.Base.Decimal.{atoi}
use snap.Base.Map.{put, delete}
use snap.Namespace.{separator}
use snap.Namespace.Separator.{split}
use snap.Strategy.Cache.{Cache, Error, Result, ok, err, new_cache}
use snap.Strategy.Plugin.{
  AvailablePlugin, PluginType, collector, processor, publisher, stream_collector, other_type,
  RoutingStrategyType, default_routing, sticky_routing, config_routing, other_routing, Handle, Heap,
  set_id,
}
use snap.Strategy.Lru
use snap.Strategy.Sticky
use snap.Strategy.Sticky.{Sticky, new_sticky}
use snap.Strategy.ConfigBased
use snap.Strategy.ConfigBased.{ConfigBased, new_config_based}

-- The globals that the command line sets.
pub record Limits : Type 0 where
  pub maximum_running_plugins : ℕ
  pub global_cache_expiration : ℤ

pub data Strategy : Type 0 where
  lru : Cache → Strategy
  sticky : Sticky → Strategy
  config_based : ConfigBased → Strategy

pub record Subscription : Type 0 where
  pub version : ℤ
  pub task_id : Text

pub record Pool : Type 0 where
  pub version : ℤ
  pub key : Text
  pub subs : List (Text × Subscription)
  pub plugins : List (ℕ × Handle)
  pub pid_counter : ℕ
  pub max : ℕ
  pub concurrency_count : ℕ
  pub strategy : Option Strategy
  pub restart_count : ℕ

-- `nil_strategy` is the panic of a call through the strategy that an empty pool does not have.
pub data PoolError : Type 0 where
  bad_type bad_strategy pool_empty nil_strategy : PoolError

-- What a method does to plugin processes.
pub data Effect : Type 0 where
  stopped killed : Handle → Effect

unfoldable pub last_piece : List Text → Text
last_piece [] = []
last_piece (s ∷ []) = s
last_piece (s ∷ t ∷ ss) = last_piece (t ∷ ss)

unfoldable pub is_known_type : PluginType → Bool
is_known_type (other_type n) = false
is_known_type _ = true

unfoldable pub count : Pool → ℕ
count p = length p.plugins

unfoldable pub is_zero : ℤ → Bool
is_zero (pos zero) = true
is_zero _ = false

-- The plugin's own time to live counts if it is set and longer.
unfoldable pub effective_ttl : Limits → AvailablePlugin → ℤ
effective_ttl limits a =
    if ltb_ℤ limits.global_cache_expiration a.cache_ttl && not (is_zero a.cache_ttl)
    then a.cache_ttl
    else limits.global_cache_expiration

unfoldable pub set_strategy : RoutingStrategyType → ℤ → Pool → Pool × Option PoolError
set_strategy default_routing ttl p = (record p { strategy = some (lru (new_cache ttl)) }, none)
set_strategy sticky_routing ttl p =
    (record p { strategy = some (sticky (new_sticky ttl)); concurrency_count = 1 }, none)
set_strategy config_routing ttl p =
    (record p { strategy = some (config_based (new_config_based ttl)) }, none)
set_strategy (other_routing n) ttl p = (p, some bad_strategy)

-- Only one instance of an exclusive plugin may run.
unfoldable pub set_limits : AvailablePlugin → Pool → Pool
set_limits a p = record p {
  max = if a.exclusive then 1 else p.max;
  concurrency_count = a.concurrency_count;
}

-- On a bad strategy the new limits stay in the pool.
unfoldable pub apply_plugin_meta : Limits → AvailablePlugin → Pool → Pool × Option PoolError
unfolding set_limits set_strategy effective_ttl is_zero
apply_plugin_meta limits a p =
    set_strategy a.routing_strategy (effective_ttl limits a) (set_limits a p)

unfoldable pub next_pid : Pool → ℕ
next_pid p = (p.pid_counter + 1) % 2 ^ 32

unfoldable pub add : Heap → Pool → Handle → Heap × Pool
unfolding next_pid
add heap p a = (
  set_id heap a (next_pid p),
  record p { pid_counter = next_pid p; plugins = put ℕ_discrete (next_pid p) a p.plugins },
)

unfoldable pub insert_new : Heap → Pool × Option PoolError → Handle → Heap × Pool × Option PoolError
insert_new heap (p, some e) a = (heap, p, some e)
insert_new heap (p, none) a = let (heap', p') = add heap p a in (heap', p', none)

unfoldable pub insert : Limits → Heap → Pool → Handle → Heap × Pool × Option PoolError
unfolding insert_new
insert limits heap p a =
    let first = insert_new heap (apply_plugin_meta limits (heap a) p) a in
    let further = insert_new heap (p, none) a in
    if is_known_type (heap a).type
    then elim p.plugins [ [] ↦ first | _ ∷ _ ↦ further ]
    else (heap, p, some bad_type)

unfoldable pub insert_all : Limits → Heap → Pool → List Handle → Heap × Pool
insert_all limits heap p [] = (heap, p)
insert_all limits heap p (a ∷ rest) =
    let (heap', p', e) = insert limits heap p a in insert_all limits heap' p' rest

-- The version is the last piece of the key; errors of the insertions are dropped.
unfoldable pub new_pool : Limits → Heap → Text → List Handle → Option (Heap × Pool)
unfolding last_piece insert_all
new_pool limits heap key plugins = elim (atoi (last_piece (split separator key))) [
  | none ↦ none
  | some version ↦ some (
      insert_all limits heap
        (record {
          version = version;
          key = key;
          subs = [];
          plugins = [];
          pid_counter = 0;
          max = limits.maximum_running_plugins;
          concurrency_count = 1;
          strategy = none;
          restart_count = 0;
        })
        plugins)
]

unfoldable pub inc_restart_count : Pool → Pool
inc_restart_count p = record p { restart_count = p.restart_count + 1 }

unfoldable pub subscribe : Pool → Text → Pool
subscribe p task = elim (lookup text_discrete task p.subs) [
  | some s ↦ p
  | none ↦ record p {
    subs = put text_discrete task (record { version = p.version; task_id = task }) p.subs;
  }
]

unfoldable pub unsubscribe : Pool → Text → Pool
unsubscribe p task = record p { subs = delete text_discrete task p.subs }

unfoldable pub subscription_count : Pool → ℕ
subscription_count p = length p.subs

-- Whether the pool may grow. The product is one of ints, which wraps at 64 bits.
unfoldable pub eligible : Pool → Bool
unfolding count
eligible p =
    if leb p.max (count p)
    then false
    else ltb_ℤ (int64 (pos (p.concurrency_count * count p))) (pos (length p.subs))

unfoldable pub remove_plugin : Pool → ℕ → Pool
remove_plugin p id = record p { plugins = delete ℕ_discrete id p.plugins }

unfoldable pub kill : Pool → ℕ → Pool × List Effect
unfolding remove_plugin
kill p id = elim (lookup ℕ_discrete id p.plugins) [
  | some ap ↦ (remove_plugin p id, killed ap ∷ [])
  | none ↦ (p, [])
]

unfoldable pub kill_each : Pool → List (ℕ × Handle) → Pool × List Effect
kill_each p [] = (p, [])
kill_each p ((id, ap) ∷ m) =
    let (p', effects) = kill p id in
    let (p'', rest) = kill_each p' m in (p'', (stopped ap ∷ effects) ++ rest)

unfoldable pub kill_all : Pool → Pool × List Effect
unfolding kill_each
kill_all p = kill_each p p.plugins
