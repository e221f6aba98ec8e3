-- ===== src/Strategy/Pool/Killing.antt =====
-- What the methods that kill plugins leave in the pool, and in its strategy.
use mathlib.Core.List.{lookup}
use snap.Base.{
  ℕ, ◌≡◌, refl, ap, ◌∙◌, List, [], ◌∷◌, none, some, Text, ℕ_discrete, Option-cases, inl, inr,
}
use snap.Base.Map.{Distinct, lookup-delete_self, lookup-cons_self, delete-cons_self}
use snap.Strategy.Cache.{ok}
use snap.Strategy.Plugin.{Handle, Heap}
use snap.Strategy.Sticky.{Sticky}
use snap.Strategy.Sticky.Assignment.{plugin_of}
use snap.Strategy.Sticky.Keeping.{select-known}
use snap.Strategy.Pool.{
  Pool, sticky, Effect, stopped, killed, kill, kill_each, kill_all, remove_plugin,
}
use snap.Strategy.Pool.Routing.{select_ap, route_select, route_id, values}

-- The effects of stopping and killing each of the plugins, in order.
pub stop_and_kill : List (ℕ × Handle) → List Effect
stop_and_kill [] = []
stop_and_kill ((id, a) ∷ m) = stopped a ∷ killed a ∷ stop_and_kill m

kill_found :
    (p : Pool) (id : ℕ) (a : Handle)
    → lookup ℕ_discrete id p.plugins ≡ some a
    → kill p id ≡ (remove_plugin p id, killed a ∷ [])
unfolding kill
kill_found p id a e = rw (e, kill)

kill_each-front :
    (p : Pool) (m : List (ℕ × Handle))
    → Distinct ℕ_discrete m
    → p.plugins ≡ m
    → ((kill_each p m).0.plugins ≡ []) × ((kill_each p m).1 ≡ stop_and_kill m)
unfolding kill_each stop_and_kill
kill_each-front p [] d e = (e, refl)
kill_each-front p ((id, a) ∷ m) d e =
    let (empty, effects) = kill_each-front (remove_plugin p id) m d.1 removed in
    rw (kill_found p id a found, kill_each) (empty, ap (λ t. stopped a ∷ killed a ∷ t) effects)
  where
    found : lookup ℕ_discrete id p.plugins ≡ some a
    found = rw e (lookup-cons_self ℕ_discrete id a m)

    removed : (remove_plugin p id).plugins ≡ m
    removed = unfold remove_plugin in rw e (delete-cons_self ℕ_discrete id a m d.0)

-- KillAll stops and kills each plugin of the pool once, and leaves the pool empty.
pub kill_all-empty :
    (p : Pool)
    → Distinct ℕ_discrete p.plugins
    → ((kill_all p).0.plugins ≡ []) × ((kill_all p).1 ≡ stop_and_kill p.plugins)
unfolding kill_all
kill_all-empty p d = kill_each-front p p.plugins d refl

-- A kill leaves no entry under the id, and the strategy as it was.
kill-entry :
    (p : Pool) (id : ℕ)
    → (lookup ℕ_discrete id (kill p id).0.plugins ≡ none) × ((kill p id).0.strategy ≡ p.strategy)
unfolding kill
kill-entry p id = elim (Option-cases (lookup ℕ_discrete id p.plugins)) [
  | inl e ↦ rw (e, kill) (e, refl)
  | inr (a, e) ↦
      rw (e, kill) (unfold remove_plugin in lookup-delete_self ℕ_discrete id p.plugins, refl)
]

select_ap-sticky :
    (now : ℕ) (heap : Heap) (p : Pool) (s : Sticky) (task config_id : Text) (a : Handle)
    → p.strategy ≡ some (sticky s)
    → plugin_of s task ≡ some a
    → (q : Pool) × (select_ap now heap p task config_id ≡ some (q, ok a))
unfolding select_ap route_select route_id
select_ap-sticky now heap p s task config_id a e h = (
  record p { strategy = some (sticky s) },
  rw (e, select_ap) (rw (select-known s (values p) task a h)),
)

-- When a plugin is killed, as it is when its health checks fail, a task that holds it by sticky
-- routing is still given the killed plugin by its next selection, though the pool has no entry for
-- the plugin's id.
pub select_ap-kill :
    (now : ℕ) (heap : Heap) (p : Pool) (s : Sticky) (task config_id : Text) (a : Handle)
    → p.strategy ≡ some (sticky s)
    → plugin_of s task ≡ some a
    → (lookup ℕ_discrete (heap a).id (kill p (heap a).id).0.plugins ≡ none)
      × ((q : Pool) × (select_ap now heap (kill p (heap a).id).0 task config_id ≡ some (q, ok a)))
select_ap-kill now heap p s task config_id a e h =
    let (gone, same) = kill-entry p (heap a).id in
    (gone, select_ap-sticky now heap (kill p (heap a).id).0 s task config_id a (same ∙ e) h)
