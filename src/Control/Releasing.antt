-- ===== src/Control/Releasing.antt =====
-- What unsubscribing leaves of the other subscriptions of a task.
use mathlib.Core.List.{lookup}
use snap.Base.{
  ◌≡◌, ◌≢◌, inl, inr, refl, sym, subst, ◌∙◌, List, [], ◌∷◌, some, Text, text_discrete, Option-cases,
}
use snap.Base.Map.{put, lookup-put_self, lookup-put_ne}
use snap.Strategy.Pool.{Pool, unsubscribe}
use snap.Control.{SubscribedPlugin, subscribed_key}
use snap.Control.Available.{Pools, found, get_pool}
use snap.Control.Groups.{Runner, unsubscribe_plugins}
use snap.Control.Subscribing.{IsSubscribed, put-IsSubscribed}
use snap.Control.Keys.{each, AllKeys}

-- A pool stands under the key.
abbrev pub HasPool : Pools → Text → Type 0
HasPool table k = (pool : Pool) × (lookup text_discrete k table ≡ some pool)

put-HasPool :
    (k j : Text) (q : Pool) (table : Pools)
    → HasPool table j
    → HasPool (put text_discrete k q table) j
put-HasPool k j q table (pool, e) = elim (text_discrete k j) [
  | yes p ↦ (
    q,
    subst (λ i. lookup text_discrete i (put text_discrete k q table) ≡ some q) p
        (lookup-put_self text_discrete k q table),
  )
  | no n ↦ (pool, lookup-put_ne text_discrete k j q table n ∙ e)
]

get_pool-found :
    (table : Pools) (k : Text) (pool : Pool)
    → lookup text_discrete k table ≡ some pool
    → get_pool table k ≡ found k pool
unfolding get_pool
get_pool-found table k pool e = rw (e, get_pool) refl

module _ (runner : Runner) (id : Text) where
  -- Where the pool is there, an unsubscription goes on, whatever the event gives.
  unsubscribe_plugins-step :
      (table : Pools) (p : SubscribedPlugin) (ps : List SubscribedPlugin) (pool : Pool)
      → lookup text_discrete (subscribed_key p) table ≡ some pool
      → (unsubscribe_plugins runner id table (p ∷ ps)).0
        ≡ (unsubscribe_plugins runner id
            (put text_discrete (subscribed_key p) (unsubscribe pool id) table)
            ps).0
  unfolding unsubscribe_plugins
  unsubscribe_plugins-step table p ps pool e =
      let f : get_pool table (subscribed_key p) ≡ found (subscribed_key p) pool =
        get_pool-found table _ pool e in
      elim (Option-cases (runner.unsubscription_event id p)) [
        | inl n ↦ rw (f, unsubscribe_plugins, n) refl
        | inr (err, n) ↦ rw (f, unsubscribe_plugins, n) refl
      ]

  pub unsubscribe_plugins-keeps :
      (j : Text) (table : Pools) (ps : List SubscribedPlugin)
      → AllKeys (HasPool table) ps
      → AllKeys (λ k. k ≢ j) ps
      → IsSubscribed id j table
      → IsSubscribed id j (unsubscribe_plugins runner id table ps).0
  unfolding unsubscribe_plugins
  unsubscribe_plugins-keeps j table [] there n h = h
  unsubscribe_plugins-keeps j table (p ∷ ps) there n h =
      let k : Text = subscribed_key p in
      let (pool, e) = there.0 in
      let table1 : Pools = put text_discrete k (unsubscribe pool id) table in
      subst (IsSubscribed id j) (sym (unsubscribe_plugins-step table p ps pool e)) (
        unsubscribe_plugins-keeps j table1 ps
          (each (λ q. HasPool table (subscribed_key q)) (λ q. HasPool table1 (subscribed_key q))
            (λ q x. put-HasPool k (subscribed_key q) (unsubscribe pool id) table x) ps there.1)
          n.1 (put-IsSubscribed id k j (unsubscribe pool id) table (λ q. absurd (n.0 q)) h))
