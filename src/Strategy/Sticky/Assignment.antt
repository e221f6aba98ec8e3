-- ===== src/Strategy/Sticky/Assignment.antt =====
-- Who has which plugin, over histories of calls.
use mathlib.Core.List.{lookup}
use snap.Base.{
  ℕ, ◌≡◌, ◌↔◌, refl, sym, ◌∙◌, true, false, List, [], ◌∷◌, Option, none, some, Text, text_discrete,
  All, arith, Option-cases, Bool-cases, ◌⊎◌, inl, inr,
}
use snap.Base.Int.{ℤ}
use snap.Base.Map.{
  put, delete, lookup-put_self, lookup-put_ne, lookup-delete_self, lookup-delete_ne,
}
use snap.Strategy.Cache.{Metric, Result, ok, err}
use snap.Strategy.Plugin.{Handle}
use snap.Strategy.Sticky.{
  Sticky, new_sticky, is_busy, first_available, select_plugin, select, release, finish_remove,
  remove, check_cache, update_cache,
}

abbrev pub plugin_of : Sticky → Text → Option Handle
plugin_of s task = lookup text_discrete task s.plugins

-- No plugin serves two tasks.
pub IsExclusive : Sticky → Type 0
IsExclusive s = (t u : Text) (a : Handle) → plugin_of s t ≡ some a → plugin_of s u ≡ some a → t ≡ u

busy_of_lookup :
    (t : Text) (a : Handle) (m : List (Text × Handle))
    → lookup text_discrete t m ≡ some a
    → is_busy a m ≡ true
unfolding lookup is_busy
busy_of_lookup t a [] h = cc
busy_of_lookup t a ((u, b) ∷ m) h = ground (arith, busy_of_lookup t a m)

first_available-free :
    (aps : List Handle) (m : List (Text × Handle)) (a : Handle)
    → first_available aps m ≡ some a
    → is_busy a m ≡ false
unfolding first_available
first_available-free [] m a h = cc
first_available-free (b ∷ aps) m a h = ground (arith, first_available-free aps m a)

pub first_available-none :
    (aps : List Handle) (m : List (Text × Handle))
    → (first_available aps m ≡ none) ↔ All (λ a. is_busy a m ≡ true) aps
unfolding first_available
first_available-none [] m = (λ _. tt, λ _. refl)
first_available-none (b ∷ aps) m =
    let (f, g) = first_available-none aps m in
    elim (Bool-cases (is_busy b m)) [
      | inl busy ↦ rw busy (λ h. (refl, f h), λ h. g h.1)
      | inr free ↦ rw free (λ h. cc, λ h. cc)
    ]

module _ (m : List (Text × Handle)) (task : Text) (ap : Handle) where
  -- A task that has `a` once `ap` was given to `task`.
  given_cases :
      (t : Text) (a : Handle)
      → lookup text_discrete t (put text_discrete task ap m) ≡ some a
      → ((task ≡ t) × (ap ≡ a)) ⊎ (lookup text_discrete t m ≡ some a)
  given_cases t a h = elim (text_discrete task t) [
    | yes p ↦ inl (p, cc (lookup-put_self text_discrete task ap m))
    | no n ↦ inr (sym (lookup-put_ne text_discrete task t ap m n) ∙ h)
  ]

  put-exclusive :
      (t u : Text) (a : Handle)
      → is_busy ap m ≡ false
      → (lookup text_discrete t m ≡ some a → lookup text_discrete u m ≡ some a → t ≡ u)
      → lookup text_discrete t (put text_discrete task ap m) ≡ some a
      → lookup text_discrete u (put text_discrete task ap m) ≡ some a
      → t ≡ u
  put-exclusive t u a free h ht hu =
      let busy_t = busy_of_lookup t a m in
      let busy_u = busy_of_lookup u a m in
      elim (given_cases t a ht) [
        | inl (p, q) ↦ elim (given_cases u a hu) [
          | inl (r, _) ↦ sym p ∙ r
          | inr old ↦ cc (busy_u old)
        ]
        | inr old ↦ elim (given_cases u a hu) [
          | inl (_, q) ↦ cc (busy_t old)
          | inr old' ↦ h old old'
        ]
      ]

delete-sub :
    (m : List (Text × Handle)) (task t : Text) (a : Handle)
    → lookup text_discrete t (delete text_discrete task m) ≡ some a
    → lookup text_discrete t m ≡ some a
delete-sub m task t a h = elim (text_discrete task t) [
  | yes p ↦ cc (lookup-delete_self text_discrete task m)
  | no n ↦ sym (lookup-delete_ne text_discrete task t m n) ∙ h
]

-- The calls that a pool makes, each with the task's id.
pub data Call : Type 0 where
  selects removes : List Handle → Call
  checks updates : (ℕ → ℕ) → List Metric → Call

unfoldable pub step : Sticky → Text × Call → Sticky
step s (task, selects aps) = (select s aps task).0
step s (task, removes aps) = (remove s aps task).0
step s (task, checks clock mts) = (check_cache clock s mts task).0
step s (task, updates clock mts) = update_cache clock s mts task

unfoldable pub run : Sticky → List (Text × Call) → Sticky
unfolding step
run s [] = s
run s (c ∷ cs) = run (step s c) cs

select-IsExclusive :
    (s : Sticky) (aps : List Handle) (task : Text)
    → IsExclusive s
    → IsExclusive (select s aps task).0
unfolding select select_plugin IsExclusive
select-IsExclusive s aps task h = elim (Option-cases (plugin_of s task)) [
  | inr (a, e) ↦ rw (e, select) h
  | inl e ↦ elim (Option-cases (first_available aps s.plugins)) [
    | inl e' ↦ rw (e, select, e', select_plugin) h
    | inr (ap, e') ↦
        rw (e, select, e', select_plugin)
          λ t u a.
            put-exclusive s.plugins task ap t u a (first_available-free aps s.plugins ap e')
              (h t u a)
  ]
]

release-IsExclusive : (s : Sticky) (task : Text) → IsExclusive s → IsExclusive (release s task)
unfolding release IsExclusive
release-IsExclusive s task h t u a ht hu =
    h t u a (delete-sub s.plugins task t a ht) (delete-sub s.plugins task u a hu)

finish_remove-IsExclusive :
    (task : Text) (s : Sticky) (r : Result Handle)
    → IsExclusive s
    → IsExclusive (finish_remove task s r).0
unfolding finish_remove
finish_remove-IsExclusive task s (ok ap) h = release-IsExclusive s task h
finish_remove-IsExclusive task s (err e) h = h

step-IsExclusive : (s : Sticky) (c : Text × Call) → IsExclusive s → IsExclusive (step s c)
unfolding step remove check_cache update_cache IsExclusive
step-IsExclusive s (task, selects aps) h = select-IsExclusive s aps task h
step-IsExclusive s (task, removes aps) h =
    finish_remove-IsExclusive task _ _ (select-IsExclusive s aps task h)
step-IsExclusive s (task, checks clock mts) h = h
step-IsExclusive s (task, updates clock mts) h = h

run-IsExclusive : (s : Sticky) (cs : List (Text × Call)) → IsExclusive s → IsExclusive (run s cs)
unfolding run
run-IsExclusive s [] h = h
run-IsExclusive s (c ∷ cs) h = run-IsExclusive (step s c) cs (step-IsExclusive s c h)

new_sticky-IsExclusive : (ttl : ℤ) → IsExclusive (new_sticky ttl)
unfolding new_sticky IsExclusive lookup
new_sticky-IsExclusive ttl t u a ht hu = cc

-- After any sequence of selections, removals and cache calls on a new strategy, for any tasks and
-- any lists of available plugins, no plugin is assigned to two tasks.
pub run_exclusive :
    (ttl : ℤ) (cs : List (Text × Call)) (t u : Text) (a : Handle)
    → plugin_of (run (new_sticky ttl) cs) t ≡ some a
    → plugin_of (run (new_sticky ttl) cs) u ≡ some a
    → t ≡ u
unfolding IsExclusive
run_exclusive ttl cs = run-IsExclusive (new_sticky ttl) cs (new_sticky-IsExclusive ttl)
