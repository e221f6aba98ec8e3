-- ===== src/Strategy/Pool/Growth.antt =====
-- How far a pool grows.
use snap.Base.{
  ◌+◌, ◌*◌, ◌≤◌, ◌<◌, ◌≡◌, refl, ap, true, Option, none, some, length, ℕ_discrete, arith,
}
use snap.Base.Int.{ℤ, pos, int64, ◌<ℤ◌}
use snap.Base.Map.{length-put}
use snap.Strategy.Plugin.{AvailablePlugin, RoutingStrategyType, default_routing, Handle, Heap}
use snap.Strategy.Pool.{
  Limits, Pool, PoolError, count, eligible, set_strategy, apply_plugin_meta, add, insert_new,
  insert, next_pid, set_limits, effective_ttl,
}

add-count :
    (heap : Heap) (p : Pool) (a : Handle)
    → (count (add heap p a).1 ≤ count p + 1) × ((add heap p a).1.max ≡ p.max)
unfolding add count
add-count heap p a = ground (arith, length-put ℕ_discrete (next_pid p) a p.plugins)

insert_new-count :
    (heap : Heap) (p : Pool) (e : Option PoolError) (a : Handle)
    → (count (insert_new heap (p, e) a).1 ≤ count p + 1)
      × ((insert_new heap (p, e) a).1.max ≡ p.max)
unfolding insert_new
insert_new-count heap p none a = add-count heap p a
insert_new-count heap p (some e) a = ground arith

set_strategy-limits :
    (r : RoutingStrategyType) (ttl : ℤ) (p : Pool)
    → ((set_strategy r ttl p).0.plugins ≡ p.plugins) × ((set_strategy r ttl p).0.max ≡ p.max)
unfolding set_strategy
set_strategy-limits default_routing ttl p = (refl, refl)
set_strategy-limits _ ttl p = (refl, refl)

-- The metadata of the first plugin touch no entry, and leave room for it where there was room.
apply_plugin_meta-room :
    (limits : Limits) (a : AvailablePlugin) (p : Pool)
    → ((apply_plugin_meta limits a p).0.plugins ≡ p.plugins)
      × (0 < p.max → 0 < (apply_plugin_meta limits a p).0.max)
unfolding apply_plugin_meta
apply_plugin_meta-room limits a p =
    let (same, max) =
      set_strategy-limits a.routing_strategy (effective_ttl limits a) (set_limits a p) in
    (same, λ h. rw max (ground arith))

insert-room :
    (limits : Limits) (heap : Heap) (p : Pool) (a : Handle)
    → count p < p.max
    → count (insert limits heap p a).1 ≤ (insert limits heap p a).1.max
unfolding count insert
insert-room limits heap p a h =
    let (entry, room) = apply_plugin_meta-room limits (heap a) p in
    let (p', e) = apply_plugin_meta limits (heap a) p in
    let first = insert_new-count heap p' e a in
    let further = insert_new-count heap p none a in ground (arith, first, further, ap length entry)

-- An eligible pool has room below its maximum and more subscriptions than the product of its plugins
-- and their concurrency, as an int of 64 bits; if a plugin is then inserted, the pool holds at most
-- its maximum, which an exclusive first plugin lowers to one.
pub eligible-insert :
    (limits : Limits) (heap : Heap) (p : Pool) (a : Handle)
    → eligible p ≡ true
    → (count p < p.max)
      × (int64 (pos (p.concurrency_count * count p)) <ℤ pos (length p.subs))
      × (count (insert limits heap p a).1 ≤ (insert limits heap p a).1.max)
unfolding eligible count insert
eligible-insert limits heap p a h =
    (ground arith, ground arith, insert-room limits heap p a (ground arith))
