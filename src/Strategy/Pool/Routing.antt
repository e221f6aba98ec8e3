-- ===== src/Strategy/Pool/Routing.antt =====
-- control/strategy/pool.go: the methods that go through the pool's strategy. `none` stands for the
-- panic of a call through the strategy that a pool which never held a plugin does not have.
use snap.Base.{ℕ, List, [], ◌∷◌, map, Option, none, some, Text, ◌==◌, if◌then◌else◌}
use snap.Base.Int.{ℤ, pos}
use snap.Strategy.Cache.{Result, ok, err}
use snap.Strategy.Plugin.{Handle, Heap}
use snap.Strategy.Lru
use snap.Strategy.Sticky
use snap.Strategy.ConfigBased
use snap.Strategy.Pool.{
  Strategy, lru, sticky, config_based, Pool, PoolError, pool_empty, nil_strategy, Effect, stopped,
  killed, count, remove_plugin,
}

abbrev pub values : Pool → List Handle
values p = map (λ e. e.1) p.plugins

unfoldable pub route_select : ℕ → Heap → Strategy → List Handle → Text → Strategy × Result Handle
route_select now heap (lru c) aps id = (lru c, Lru.select heap now aps)
route_select now heap (sticky s) aps id = let (s', r) = Sticky.select s aps id in (sticky s', r)
route_select now heap (config_based s) aps id =
    let (s', r) = ConfigBased.select s aps id in (config_based s', r)

unfoldable pub route_remove : ℕ → Heap → Strategy → List Handle → Text → Strategy × Result Handle
route_remove now heap (lru c) aps id = (lru c, Lru.remove heap now aps)
route_remove now heap (sticky s) aps id = let (s', r) = Sticky.remove s aps id in (sticky s', r)
route_remove now heap (config_based s) aps id =
    let (s', r) = ConfigBased.remove s aps id in (config_based s', r)

-- Errors of Stop and Kill are only logged.
unfoldable pub finish_kill : Heap → Pool → Strategy × Result Handle → Pool × List Effect
unfolding remove_plugin
finish_kill heap p (s, err e) = (record p { strategy = some s }, [])
finish_kill heap p (s, ok rp) =
    (remove_plugin (record p { strategy = some s }) (heap rp).id, stopped rp ∷ killed rp ∷ [])

unfoldable pub select_and_kill : ℕ → Heap → Pool → Text → Option (Pool × List Effect)
unfolding finish_kill
select_and_kill now heap p id = elim p.strategy [
  | none ↦ none
  | some s ↦ some (finish_kill heap p (route_remove now heap s (values p) id))
]

-- Which id a strategy goes by; `config_id` is the print of the task's configuration.
unfoldable pub route_id : Strategy → Text → Text → Text
route_id (lru _) task config_id = []
route_id (sticky _) task config_id = task
route_id (config_based _) task config_id = config_id

unfoldable pub select_ap : ℕ → Heap → Pool → (task config_id : Text) → Option (Pool × Result Handle)
unfolding route_id
select_ap now heap p task config_id = elim p.strategy [
  | none ↦ none
  | some s ↦
      let (s', r) = route_select now heap s (values p) (route_id s task config_id) in
      some (record p { strategy = some s' }, r)
]

unfoldable pub strategy_ttl : Strategy → ℤ
strategy_ttl (lru c) = c.ttl
strategy_ttl (sticky s) = s.cache_ttl
strategy_ttl (config_based s) = s.cache_ttl

unfoldable pub cache_ttl : Pool → ℤ × Option PoolError
unfolding strategy_ttl
cache_ttl p =
    if count p == 0
    then (pos 0, some pool_empty)
    else elim p.strategy [ none ↦ (pos 0, some nil_strategy) | some s ↦ (strategy_ttl s, none) ]
