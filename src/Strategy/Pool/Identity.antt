-- ===== src/Strategy/Pool/Identity.antt =====
-- Ids of the plugins in a pool, and what the methods that kill plugins leave.
use mathlib.Core.List.{lookup}
use snap.Base.{
  ℕ, ◌+◌, ◌≤◌, ◌<◌, ◌^◌, ◌≡◌, ◌≢◌, refl, List, [], ◌∷◌, Option, none, some, ℕ_discrete, arith,
  Bool-cases, inl, inr,
}
use snap.Base.Int.{ℤ}
use snap.Base.Map.{lookup-put_cases}
use snap.Strategy.Plugin.{
  AvailablePlugin, RoutingStrategyType, default_routing, Handle, Heap, set_id,
}
use snap.Strategy.Pool.{
  Limits, Pool, PoolError, next_pid, add, insert_new, insert, apply_plugin_meta, set_strategy,
  set_limits, effective_ttl, is_known_type,
}

-- Every entry stands under its plugin's id, and ids are given in increasing order.
pub record IsValid (heap : Heap) (p : Pool) : Type 0 where
  pub own_id : (id : ℕ) (a : Handle) → lookup ℕ_discrete id p.plugins ≡ some a → (heap a).id ≡ id
  pub given : (id : ℕ) (a : Handle) → lookup ℕ_discrete id p.plugins ≡ some a → id ≤ p.pid_counter

-- The plugin is no entry of the pool.
abbrev pub Absent : Pool → Handle → Type 0
Absent p a = (id : ℕ) → lookup ℕ_discrete id p.plugins ≢ some a

module _ (heap : Heap) (p : Pool) (a : Handle) where
  module _ (small : p.pid_counter + 1 < 2 ^ 32) (absent : Absent p a) (v : IsValid heap p) where
    add-own_id :
        (id : ℕ) (b : Handle)
        → lookup ℕ_discrete id (add heap p a).1.plugins ≡ some b
        → ((add heap p a).0 b).id ≡ id
    unfolding add set_id
    add-own_id id b h = elim (lookup-put_cases ℕ_discrete (next_pid p) id a b p.plugins h) [
      | inl (e, same) ↦ ground arith
      | inr (n, old) ↦ ground (arith, v.own_id id b old, absent id)
    ]

    add-given :
        (id : ℕ) (b : Handle)
        → lookup ℕ_discrete id (add heap p a).1.plugins ≡ some b
        → id ≤ (add heap p a).1.pid_counter
    unfolding add next_pid
    add-given id b h = elim (lookup-put_cases ℕ_discrete (next_pid p) id a b p.plugins h) [
      | inl (e, same) ↦ ground arith
      | inr (n, old) ↦ omega (arith, v.given id b old)
    ]

    add-IsValid : IsValid (add heap p a).0 (add heap p a).1
    add-IsValid = record { own_id = add-own_id; given = add-given }

IsValid-same :
    (heap : Heap) (p q : Pool)
    → q.plugins ≡ p.plugins
    → q.pid_counter ≡ p.pid_counter
    → IsValid heap p
    → IsValid heap q
IsValid-same heap p q e f v = record {
  own_id = λ id a h. v.own_id id a (rw e at h);
  given = λ id a h. rw f (v.given id a (rw e at h));
}

set_strategy-same :
    (r : RoutingStrategyType) (ttl : ℤ) (p : Pool)
    → ((set_strategy r ttl p).0.plugins ≡ p.plugins)
      × ((set_strategy r ttl p).0.pid_counter ≡ p.pid_counter)
unfolding set_strategy
set_strategy-same default_routing ttl p = (refl, refl)
set_strategy-same _ ttl p = (refl, refl)

insert_new-IsValid :
    (heap : Heap) (p : Pool) (e : Option PoolError) (a : Handle)
    → p.pid_counter + 1 < 2 ^ 32
    → Absent p a
    → IsValid heap p
    → IsValid (insert_new heap (p, e) a).0 (insert_new heap (p, e) a).1
unfolding insert_new
insert_new-IsValid heap p none a small absent v = add-IsValid heap p a small absent v
insert_new-IsValid heap p (some e) a small absent v = v

apply_plugin_meta-same :
    (limits : Limits) (a : AvailablePlugin) (p : Pool)
    → ((apply_plugin_meta limits a p).0.plugins ≡ p.plugins)
      × ((apply_plugin_meta limits a p).0.pid_counter ≡ p.pid_counter)
unfolding apply_plugin_meta set_limits
apply_plugin_meta-same limits a p =
    set_strategy-same a.routing_strategy (effective_ttl limits a) (set_limits a p)

-- An insertion keeps every plugin of the pool under its own id and the ids below the counter, on
-- every branch: it may be refused, find the pool empty, or be one more. The plugin must be no entry
-- already and the counter must not wrap.
pub insert-IsValid :
    (limits : Limits) (heap : Heap) (p : Pool) (a : Handle)
    → p.pid_counter + 1 < 2 ^ 32
    → Absent p a
    → IsValid heap p
    → IsValid (insert limits heap p a).0 (insert limits heap p a).1
unfolding insert
insert-IsValid limits heap p a small absent v =
    let (same, count) = apply_plugin_meta-same limits (heap a) p in
    let q = (apply_plugin_meta limits (heap a) p).0 in
    let first =
      insert_new-IsValid heap q (apply_plugin_meta limits (heap a) p).1 a (rw count small)
        (absent_in q same) (IsValid-same heap p q same count v) in
    let further = insert_new-IsValid heap p none a small absent v in
    elim (Bool-cases (is_known_type (heap a).type)) [
      | inr bad ↦ rw (bad, insert) v
      | inl known ↦ rw (known, insert) (by_entries p.plugins _ _ first further)
    ]
  where
    absent_in : (q : Pool) → q.plugins ≡ p.plugins → Absent q a
    absent_in q same = λ id h. absent id (rw same at h)

    by_entries :
        (l : List (ℕ × Handle)) (x y : Heap × Pool × Option PoolError)
        → IsValid x.0 x.1
        → IsValid y.0 y.1
        → IsValid
            (elim l as (λ _. Heap × Pool × Option PoolError) [ [] ↦ x | _ ∷ _ ↦ y ]).0
            (elim l as (λ _. Heap × Pool × Option PoolError) [ [] ↦ x | _ ∷ _ ↦ y ]).1
    by_entries [] x y hx hy = hx
    by_entries (e ∷ l) x y hx hy = hy
