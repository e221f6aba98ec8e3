-- ===== src/Control/Subscribing.antt =====
-- What subscribing and unsubscribing a task leave of its subscriptions in the pools.
use mathlib.Core.List.{lookup}
use snap.Base.{
  ◌≡◌, ◌⊎◌, inl, inr, refl, sym, subst, ap, ◌∙◌, Bool, false, if◌then◌else◌, List, [], ◌∷◌, Option,
  none, some, Text, text_discrete, ltb, All, Option-cases, Bool-cases,
}
use snap.Base.Map.{put, lookup-put_self, lookup-put_ne}
use snap.Strategy.Pool.{Pool, Subscription, Limits, subscribe, eligible, count, new_pool}
use snap.Strategy.Plugin.{Heap}
use snap.Control.{LoadedPlugin, loaded_key, GroupError, pool_failed}
use snap.Control.Available.{Pools, get_or_create_pool}
use snap.Control.Groups.{Runner, join_pool, join_remote, subscribe_one, subscribe_each}

abbrev pub HasTask : Text → Pool → Type 0
HasTask id pool = (s : Subscription) × (lookup text_discrete id pool.subs ≡ some s)

-- The task is subscribed to the pool of the key.
abbrev pub IsSubscribed : Text → Text → Pools → Type 0
IsSubscribed id k table =
    (pool : Pool) × ((lookup text_discrete k table ≡ some pool) × HasTask id pool)

-- Starting a plugin leaves the subscriptions of its pool alone.
pub record KeepsSubscriptions (runner : Runner) : Type 0 where
  pub run : (plg : LoadedPlugin) (pool : Pool) → (runner.run_plugin plg pool).0.subs ≡ pool.subs
  pub remote :
      (plg : LoadedPlugin) (pool : Pool) → (runner.start_remote plg pool).0.subs ≡ pool.subs

subscribe-HasTask : (pool : Pool) (id : Text) → HasTask id (subscribe pool id)
unfolding subscribe
subscribe-HasTask pool id = elim (Option-cases (lookup text_discrete id pool.subs)) [
  | inl e ↦ rw (e, subscribe) (_, lookup-put_self text_discrete id _ pool.subs)
  | inr (s, e) ↦ rw (e, subscribe) (s, e)
]

module _ (runner : Runner) (keeps : KeepsSubscriptions runner) (id : Text) where
  join_pool-HasTask :
      (plg : LoadedPlugin) (pool : Pool) → HasTask id (join_pool runner id plg pool).0
  unfolding join_pool
  join_pool-HasTask plg pool =
      let joined : Pool = subscribe pool id in
      let has : HasTask id joined = subscribe-HasTask pool id in
      elim (Bool-cases (eligible joined)) [
        | inr e ↦ rw (e, join_pool) has
        | inl e ↦ elim (Option-cases (runner.verify_plugin plg)) [
          | inr (err, v) ↦ rw (e, join_pool, v) has
          | inl v ↦
              rw (e, join_pool, v)
                (has.0, ap (lookup text_discrete id) (keeps.run plg joined) ∙ has.1)
        ]
      ]

  join_remote-HasTask :
      (plg : LoadedPlugin) (pool : Pool)
      → HasTask id pool
      → HasTask id (join_remote runner plg pool).0
  unfolding join_remote
  join_remote-HasTask plg pool has = elim (Bool-cases (ltb (count pool) 1)) [
    | inr e ↦ rw (e, join_remote) has
    | inl e ↦
        rw (e, join_remote) (has.0, ap (lookup text_discrete id) (keeps.remote plg pool) ∙ has.1)
  ]

pub put-IsSubscribed :
    (id k j : Text) (pool : Pool) (table : Pools)
    → (k ≡ j → HasTask id pool)
    → IsSubscribed id j table
    → IsSubscribed id j (put text_discrete k pool table)
put-IsSubscribed id k j pool table has (q, (e, h)) = elim (text_discrete k j) [
  | yes p ↦ (
    pool,
    (
      subst (λ i. lookup text_discrete i (put text_discrete k pool table) ≡ some pool) p
          (lookup-put_self text_discrete k pool table),
      has p,
    ),
  )
  | no n ↦ (q, (lookup-put_ne text_discrete k j pool table n ∙ e, h))
]

-- The table after getOrCreatePool still has what it had, and the pool is the one of the key.
record IsExtended (k : Text) (table table1 : Pools) (pool : Pool) : Type 0 where
  others :
      (j : Text) (q : Pool)
      → lookup text_discrete j table ≡ some q
      → lookup text_discrete j table1 ≡ some q
  at_key : lookup text_discrete k table1 ≡ some pool

IsExtended-moved :
    (k : Text) (table t1 t2 : Pools) (p1 p2 : Pool) (o : Option (Pools × Pool))
    → o ≡ some (t1, p1)
    → o ≡ some (t2, p2)
    → IsExtended k table t2 p2
    → IsExtended k table t1 p1
IsExtended-moved k table t1 t2 p1 p2 o h q x =
    let e : t2 ≡ t1 = cc (h, q) in
    let f : p2 ≡ p1 = cc (h, q) in
    subst (λ p. IsExtended k table t1 p) f (subst (λ t. IsExtended k table t p2) e x)

module _ (limits : Limits) (heap : Heap) (table table1 : Pools) (k : Text) (pool : Pool) where
  get_or_create_pool-IsExtended :
      get_or_create_pool limits heap table k ≡ some (table1, pool) → IsExtended k table table1 pool
  unfolding get_or_create_pool
  get_or_create_pool-IsExtended h = elim (Option-cases (lookup text_discrete k table)) [
    | inr (q, e) ↦
        let same : get_or_create_pool limits heap table k ≡ some (table, q) =
          rw (e, get_or_create_pool) refl in
        IsExtended-moved k table table1 table pool q _ h same
          (record { others = λ j r x. x; at_key = e })
    | inl e ↦ elim (Option-cases (new_pool limits heap k [])) [
      | inl n ↦
          let failed : get_or_create_pool limits heap table k ≡ none =
            rw (e, get_or_create_pool, n) refl in
          absurd (cc (h, failed))
      | inr ((heap1, q), n) ↦
          let created : get_or_create_pool limits heap table k
              ≡ some (put text_discrete k q table, q) =
            rw (e, get_or_create_pool, n) refl in
          IsExtended-moved k table table1 (put text_discrete k q table) pool q _ h created (record {
            others = λ j r x.
                lookup-put_ne text_discrete k j q table
                  (λ p. absurd (cc (e, x, ap (λ i. lookup text_discrete i table) p)))
                ∙ x;
            at_key = lookup-put_self text_discrete k q table;
          })
    ]
  ]

module _ (runner : Runner) (keeps : KeepsSubscriptions runner) (id : Text) where
  abbrev entered : LoadedPlugin → Pool → Pool × Option GroupError
  entered plg pool =
      if plg.is_remote then join_remote runner plg pool else join_pool runner id plg pool

  entered-HasTask :
      (plg : LoadedPlugin) (pool : Pool)
      → (plg.is_remote ≡ false) ⊎ HasTask id pool
      → HasTask id (entered plg pool).0
  entered-HasTask plg pool h =
      let by : Bool → Type 0 = λ b.
        HasTask id (if b then join_remote runner plg pool else join_pool runner id plg pool).0 in
      elim (Bool-cases plg.is_remote) [
        | inr e ↦ subst by (sym e) (join_pool-HasTask runner keeps id plg pool)
        | inl e ↦ subst by (sym e) (
            join_remote-HasTask runner keeps id plg pool
              (elim h [ inl n ↦ absurd (cc (e, n)) | inr has ↦ has ]))
      ]

  subscribe_one-table :
      (table table1 : Pools) (plg : LoadedPlugin) (pool : Pool)
      → get_or_create_pool runner.limits runner.heap table (loaded_key plg) ≡ some (table1, pool)
      → (subscribe_one runner id table plg).0
        ≡ put text_discrete (loaded_key plg) (entered plg pool).0 table1
  unfolding subscribe_one
  subscribe_one-table table table1 plg pool e = elim (Option-cases (entered plg pool).1) [
    | inl n ↦ rw (e, subscribe_one, n) refl
    | inr (err, n) ↦ rw (e, subscribe_one, n) refl
  ]

  subscribe_one-keeps :
      (table : Pools) (plg : LoadedPlugin) (j : Text)
      → IsSubscribed id j table
      → IsSubscribed id j (subscribe_one runner id table plg).0
  unfolding subscribe_one
  subscribe_one-keeps table plg j (q, (e, has)) =
      let k : Text = loaded_key plg in
      elim (Option-cases (get_or_create_pool runner.limits runner.heap table k)) [
        | inl n ↦ rw (n, subscribe_one) (q, (e, has))
        | inr ((table1, pool), n) ↦
            let x : IsExtended k table table1 pool =
              get_or_create_pool-IsExtended runner.limits runner.heap table table1 k pool n in
            let there = x.others j q e in
            let as_before : k ≡ j → HasTask id pool = λ p.
              (let same : q ≡ pool =
                  cc (there, x.at_key, ap (λ i. lookup text_discrete i table1) p) in
                subst (HasTask id) same has) in
            subst (IsSubscribed id j) (sym (subscribe_one-table table table1 plg pool n)) (
              put-IsSubscribed id k j _ table1 (λ p. entered-HasTask plg pool (inr (as_before p)))
                (q, (there, has)))
      ]

  subscribe_one-gains :
      (table : Pools) (plg : LoadedPlugin)
      → plg.is_remote ≡ false
      → (subscribe_one runner id table plg).1 ≡ none
      → IsSubscribed id (loaded_key plg) (subscribe_one runner id table plg).0
  unfolding subscribe_one
  subscribe_one-gains table plg r h =
      let k : Text = loaded_key plg in
      elim (Option-cases (get_or_create_pool runner.limits runner.heap table k)) [
        | inl n ↦
            let failed : (subscribe_one runner id table plg).1 ≡ some pool_failed =
              rw (n, subscribe_one) refl in
            absurd (cc (h, failed))
        | inr ((table1, pool), n) ↦
            subst (IsSubscribed id k) (sym (subscribe_one-table table table1 plg pool n)) (
              (entered plg pool).0,
              (
                lookup-put_self text_discrete k (entered plg pool).0 table1,
                entered-HasTask plg pool (inl r),
              ),
            )
      ]

  pub subscribe_each-keeps :
      (table : Pools) (plgs : List LoadedPlugin) (j : Text)
      → IsSubscribed id j table
      → IsSubscribed id j (subscribe_each runner id table plgs).0
  unfolding subscribe_each
  subscribe_each-keeps table [] j h = h
  subscribe_each-keeps table (plg ∷ plgs) j h =
      let table1 : Pools = (subscribe_one runner id table plg).0 in
      let h1 = subscribe_one-keeps table plg j h in
      elim (Option-cases (subscribe_one runner id table plg).1) [
        | inr (err, e) ↦ rw (e, subscribe_each) h1
        | inl e ↦ rw (e, subscribe_each) (subscribe_each-keeps table1 plgs j h1)
      ]

  -- Without an error, the task is subscribed to the pools of all the plugins.
  pub subscribe_each-gains :
      (table : Pools) (plgs : List LoadedPlugin)
      → All (λ (plg : LoadedPlugin). plg.is_remote ≡ false) plgs
      → (subscribe_each runner id table plgs).1 ≡ []
      → All (λ plg. IsSubscribed id (loaded_key plg) (subscribe_each runner id table plgs).0) plgs
  unfolding subscribe_each
  subscribe_each-gains table [] r h = tt
  subscribe_each-gains table (plg ∷ plgs) r h =
      let table1 : Pools = (subscribe_one runner id table plg).0 in
      elim (Option-cases (subscribe_one runner id table plg).1) [
        | inr (err, e) ↦
            let failed : (subscribe_each runner id table (plg ∷ plgs)).1 ≡ err ∷ [] =
              rw (e, subscribe_each) refl in
            absurd (cc (h, failed))
        | inl e ↦
            let same : subscribe_each runner id table (plg ∷ plgs)
                ≡ subscribe_each runner id table1 plgs =
              rw (e, subscribe_each) refl in
            let later = subscribe_each-gains table1 plgs r.1 (ap (λ o. o.1) (sym same) ∙ h) in
            subst
              (λ (o : Pools × List GroupError).
                All (λ p. IsSubscribed id (loaded_key p) o.0) (plg ∷ plgs))
              (sym same)
              (
                subscribe_each-keeps table1 plgs (loaded_key plg)
                    (subscribe_one-gains table plg r.0 e),
                later,
              )
      ]
