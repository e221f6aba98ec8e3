-- ===== src/Control/Coverage.antt =====
-- That a task is subscribed to the pools of all the plugins that its group lists.
use snap.Base.{
  ◌≤◌, ◌≡◌, ◌≢◌, inl, inr, refl, sym, subst, ap, ◌∙◌, List, [], ◌∷◌, ◌++◌, Text, arith, All,
  Option-cases,
}
use snap.Control.{SubscribedPlugin, subscribed_key, GroupError, plugin_not_found}
use snap.Control.Loaded.{Loaded}
use snap.Control.Available.{Pools}
use snap.Control.Groups.{
  Runner, count_keys, compare_plugins, subscribe_each, find_all, subscribe_plugins,
  unsubscribe_plugins, SubscriptionGroup, Gathered, resolve_requested, process_group,
}
use snap.Control.Comparing.{occurrences, count_in-count_keys, compare_plugins-occurrences}
use snap.Control.Subscribing.{
  IsSubscribed, KeepsSubscriptions, subscribe_each-keeps, subscribe_each-gains,
}
use snap.Control.Keys.{
  each, AllKeys, not_counted-AllKeys, AllKeys-not_counted, occurrences-AllKeys, occurs_itself,
  never_occurs,
}
use snap.Control.Releasing.{HasPool, unsubscribe_plugins-keeps}
use snap.Control.Finding.{AreLocal, IsLocal, find_all-AreFound, AreFound-local, AreFound-AllKeys}

both {ℓ κ λ1} :
    {A : Type ℓ} (P : A → Type κ) (Q : A → Type λ1) (xs : List A)
    → All P xs
    → All Q xs
    → All (λ x. P x × Q x) xs
both P Q [] h k = tt
both P Q (x ∷ xs) h k = ((h.0, k.0), both P Q xs h.1 k.1)

append-nil_parts {ℓ} : {A : Type ℓ} (xs ys : List A) → xs ++ ys ≡ [] → (xs ≡ []) × (ys ≡ [])
append-nil_parts [] ys h = (refl, h)
append-nil_parts (x ∷ xs) ys h = absurd (cc h)

module _ (runner : Runner) (keeps : KeepsSubscriptions runner) (loaded : Loaded) (id : Text) where
  subscribe_plugins-keeps :
      (table : Pools) (ps : List SubscribedPlugin) (j : Text)
      → IsSubscribed id j table
      → IsSubscribed id j (subscribe_plugins runner loaded id table ps).0
  unfolding subscribe_plugins
  subscribe_plugins-keeps table ps j h = elim (Option-cases (find_all loaded ps)) [
    | inl e ↦ rw (e, subscribe_plugins) h
    | inr (plgs, e) ↦
        rw (e, subscribe_plugins) (subscribe_each-keeps runner keeps id table plgs j h)
  ]

  subscribe_plugins-gains :
      (table : Pools) (ps : List SubscribedPlugin)
      → AreLocal loaded ps
      → (subscribe_plugins runner loaded id table ps).1 ≡ []
      → AllKeys (λ k. IsSubscribed id k (subscribe_plugins runner loaded id table ps).0) ps
  unfolding subscribe_plugins
  subscribe_plugins-gains table ps l h = elim (Option-cases (find_all loaded ps)) [
    | inl e ↦
        let failed : (subscribe_plugins runner loaded id table ps).1 ≡ plugin_not_found ∷ [] =
          rw (e, subscribe_plugins) refl in
        absurd (cc (h, failed))
    | inr (plgs, e) ↦
        let same : subscribe_plugins runner loaded id table ps
            ≡ subscribe_each runner id table plgs =
          rw (e, subscribe_plugins) refl in
        let are_found = find_all-AreFound loaded ps plgs l e in
        let got =
          subscribe_each-gains runner keeps id table plgs (AreFound-local ps plgs are_found)
            (ap (λ o. o.1) (sym same) ∙ h) in
        subst (λ (o : Pools × List GroupError). AllKeys (λ k. IsSubscribed id k o.0) ps) (sym same)
          (AreFound-AllKeys (λ k. IsSubscribed id k (subscribe_each runner id table plgs).0) ps plgs
            are_found got)
  ]

  -- The plugins that a processing subscribes and unsubscribes.
  module _ (table : Pools) (new_plugins old_plugins : List SubscribedPlugin) where
    abbrev adds : List SubscribedPlugin
    adds = (compare_plugins new_plugins old_plugins).0

    abbrev removes : List SubscribedPlugin
    removes = (compare_plugins new_plugins old_plugins).1

    abbrev subscribed_table : Pools
    subscribed_table = (subscribe_plugins runner loaded id table adds).0

    replaced-AllKeys :
        AllKeys (λ k. IsSubscribed id k table) old_plugins
        → ((k : Text) → occurrences k old_plugins ≤ 1)
        → AreLocal loaded new_plugins
        → (subscribe_plugins runner loaded id table adds).1 ≡ []
        → AllKeys
            (λ k. IsSubscribed id k (unsubscribe_plugins runner id subscribed_table removes).0)
            new_plugins
    unfolding compare_plugins
    replaced-AllKeys covered single l h =
        let still : AllKeys (λ k. IsSubscribed id k subscribed_table) old_plugins =
          each (λ p. IsSubscribed id (subscribed_key p) table)
            (λ p. IsSubscribed id (subscribed_key p) subscribed_table)
            (λ p x. subscribe_plugins-keeps table adds (subscribed_key p) x) old_plugins covered in
        let adds_ok =
          subscribe_plugins-gains table adds
            (not_counted-AllKeys (IsLocal loaded) (count_keys old_plugins) new_plugins l) h in
        let all_there : AllKeys (λ k. IsSubscribed id k subscribed_table) new_plugins =
          AllKeys-not_counted (λ k. IsSubscribed id k subscribed_table) (count_keys old_plugins)
            new_plugins
            (λ k n c.
              occurrences-AllKeys (λ i. IsSubscribed id i subscribed_table) k n old_plugins still
                (sym (count_in-count_keys k old_plugins) ∙ c))
            adds_ok in
        let pools : AllKeys (HasPool subscribed_table) removes =
          not_counted-AllKeys (HasPool subscribed_table) (count_keys new_plugins) old_plugins (
            each (λ p. IsSubscribed id (subscribed_key p) subscribed_table)
              (λ p. HasPool subscribed_table (subscribed_key p)) (λ p x. (x.0, x.1.0)) old_plugins
              still) in
        let gone : (k : Text) → 1 ≤ occurrences k new_plugins → AllKeys (λ j. j ≢ k) removes =
          λ k o. never_occurs k removes (
            omega
              (arith, o, single k, (compare_plugins-occurrences k new_plugins old_plugins).1)) in
        each
          (λ p.
            (1 ≤ occurrences (subscribed_key p) new_plugins)
            × IsSubscribed id (subscribed_key p) subscribed_table)
          (λ p.
            IsSubscribed id (subscribed_key p)
              (unsubscribe_plugins runner id subscribed_table removes).0)
          (λ p x.
            unsubscribe_plugins-keeps runner id (subscribed_key p) subscribed_table removes pools
              (gone (subscribed_key p) x.0) x.1)
          new_plugins (both _ _ new_plugins (occurs_itself new_plugins) all_there)

-- When a group is processed without an error, its task is subscribed to the pools of all the plugins
-- that the group then lists, if it was before. The plugins that were listed have different keys, and
-- the ones that are needed now are loaded under their own keys and run on this host; starting a
-- plugin leaves the subscriptions of its pool alone.
pub process_group-covers :
    (runner : Runner) (loaded : Loaded) (gathered : Gathered) (id : Text) (table : Pools)
    (g : SubscriptionGroup)
    → KeepsSubscriptions runner
    → AreLocal loaded (gathered.0 ++ resolve_requested loaded g.requested_plugins)
    → ((k : Text) → occurrences k g.plugins ≤ 1)
    → AllKeys (λ k. IsSubscribed id k table) g.plugins
    → (process_group runner loaded gathered id table g).1.errors ≡ []
    → let (table1, g1) = process_group runner loaded gathered id table g in
      AllKeys (λ k. IsSubscribed id k table1) g1.plugins
unfolding process_group
process_group-covers runner loaded (collectors, errs) id table g keeps l single covered h =
    let new_plugins : List SubscribedPlugin =
      collectors ++ resolve_requested loaded g.requested_plugins in
    let (none_gathered, rest) = append-nil_parts errs _ h in
    replaced-AllKeys runner keeps loaded id table new_plugins g.plugins covered single l
      (append-nil_parts _ _ rest).0
