-- ===== src/Control/Failing.antt =====
-- What is left when a group cannot be added.
use mathlib.Core.List.{lookup}
use snap.Base.{◌≡◌, ◌≢◌, ◌⊎◌, inl, inr, refl, ap, List, [], ◌∷◌, none, some, Text, text_discrete}
use snap.Base.Map.{put, lookup-put_self}
use snap.Control.{SubscribedPlugin, GroupError, group_does_not_exist}
use snap.Control.Loaded.{Loaded}
use snap.Control.Available.{Pools}
use snap.Control.Groups.{
  Runner, SubscriptionGroup, Gathered, Groups, process_group, add_group, remove_group, get_group,
}

remove_group-missing :
    (runner : Runner) (id : Text) (table : Pools) (groups : Groups)
    → lookup text_discrete id groups ≡ none
    → remove_group runner id table groups ≡ (table, groups, group_does_not_exist ∷ [])
unfolding remove_group
remove_group-missing runner id table groups e = rw (e, remove_group) refl

got_stored :
    (id : Text) (g : SubscriptionGroup) (groups : Groups)
    → g.errors ≡ []
    → get_group id (put text_discrete id g groups) ≡ some []
unfolding get_group
got_stored id g groups e =
    rw (lookup-put_self text_discrete id g groups, get_group) (ap (λ es. some es) e)

got_missing :
    (id : Text) (groups : Groups)
    → lookup text_discrete id groups ≡ none
    → get_group id groups ≡ none
unfolding get_group
got_missing id groups e = rw (e, get_group) refl

-- What a new group is before its first processing.
abbrev blank : List SubscribedPlugin → SubscriptionGroup
blank requested = record { requested_plugins = requested; plugins = []; errors = [] }

List-cases :
    (es : List GroupError)
    → (es ≡ []) ⊎ ((e : GroupError) × (rest : List GroupError) × (es ≡ e ∷ rest))
List-cases [] = inl refl
List-cases (e ∷ es) = inr (e, es, refl)

-- Adding a group under a new name keeps the group when its processing has no error. When the
-- processing has errors, adding returns just these errors and keeps no group, but the pools stay as
-- the processing has left them, with the subscriptions that it has made: removing the group then
-- finds no group, and undoes nothing.
pub add_group-branches :
    (runner : Runner) (loaded : Loaded) (gathered : Gathered) (id : Text)
    (requested : List SubscribedPlugin) (table : Pools) (groups : Groups)
    → lookup text_discrete id groups ≡ none
    → let (table1, g) = process_group runner loaded gathered id table (blank requested) in
      let added = add_group runner loaded gathered id requested table groups in
      ((g.errors ≡ [])
        × (added ≡ (table1, put text_discrete id g groups, []))
        × (get_group id (put text_discrete id g groups) ≡ some []))
      ⊎ ((g.errors ≢ [])
          × (added ≡ (table1, groups, g.errors))
          × (get_group id groups ≡ none)
          × (remove_group runner id table1 groups ≡ (table1, groups, group_does_not_exist ∷ [])))
unfolding add_group
add_group-branches runner loaded gathered id requested table groups new =
    let out = process_group runner loaded gathered id table (blank requested) in
    elim (List-cases out.1.errors) [
      | inl e ↦ inl (e, rw (new, add_group, e) refl, got_stored id out.1 groups e)
      | inr (e, es, q) ↦ inr (
        λ n. absurd (cc (n, q)),
        rw (new, add_group, q) refl,
        got_missing id groups new,
        remove_group-missing runner id out.0 groups new,
      )
    ]
