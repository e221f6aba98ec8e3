-- ===== src/Strategy/Sticky/Keeping.antt =====
-- A task keeps its plugin, and what a selection gives on each branch.
use snap.Base.{
  ◌≡◌, ◌≢◌, ◌↔◌, refl, ◌∙◌, true, List, [], ◌∷◌, none, some, Text, text_discrete, All, Option-cases,
  inl, inr,
}
use snap.Base.Map.{lookup-put_self, lookup-put_ne, lookup-delete_ne}
use snap.Strategy.Cache.{Result, ok, err, could_not_select}
use snap.Strategy.Plugin.{Handle}
use snap.Strategy.Sticky.{
  Sticky, is_busy, first_available, select_plugin, select, release, finish_remove, remove,
  check_cache, update_cache,
}
use snap.Strategy.Sticky.Assignment.{
  plugin_of, first_available-none, Call, selects, removes, checks, updates, step, run,
}

-- A call that does not remove the plugin of `task`.
abbrev pub Spares : Text → Text × Call → Type 0
Spares task (t, removes aps) = t ≢ task
Spares task (t, _) = Unit

module _ (task : Text) (a : Handle) where
  select-keeps :
      (s : Sticky) (aps : List Handle) (t : Text)
      → plugin_of s task ≡ some a
      → plugin_of (select s aps t).0 task ≡ some a
  unfolding select select_plugin
  select-keeps s aps t h = elim (Option-cases (plugin_of s t)) [
    | inr (b, e) ↦ rw (e, select) h
    | inl e ↦ elim (Option-cases (first_available aps s.plugins)) [
      | inl e' ↦ rw (e, select, e', select_plugin) h
      | inr (ap, e') ↦
          rw (e, select, e', select_plugin) (lookup-put_ne _ t task ap s.plugins (other e) ∙ h)
    ]
  ]
    where
      other : plugin_of s t ≡ none → t ≢ task
      other e p = cc

  finish_remove-keeps :
      (t : Text) (s : Sticky) (r : Result Handle)
      → t ≢ task
      → plugin_of s task ≡ some a
      → plugin_of (finish_remove t s r).0 task ≡ some a
  unfolding finish_remove release
  finish_remove-keeps t s (ok ap) ne h = lookup-delete_ne text_discrete t task s.plugins ne ∙ h
  finish_remove-keeps t s (err e) ne h = h

  step-keeps :
      (s : Sticky) (c : Text × Call)
      → Spares task c
      → plugin_of s task ≡ some a
      → plugin_of (step s c) task ≡ some a
  unfolding step remove check_cache update_cache
  step-keeps s (t, selects aps) k h = select-keeps s aps t h
  step-keeps s (t, removes aps) k h = finish_remove-keeps t _ _ k (select-keeps s aps t h)
  step-keeps s (t, checks clock mts) k h = h
  step-keeps s (t, updates clock mts) k h = h

  run-keeps :
      (s : Sticky) (cs : List (Text × Call))
      → All (Spares task) cs
      → plugin_of s task ≡ some a
      → plugin_of (run s cs) task ≡ some a
  unfolding run
  run-keeps s [] k h = h
  run-keeps s (c ∷ cs) k h = run-keeps (step s c) cs k.1 (step-keeps s c k.0 h)

pub select-known :
    (s : Sticky) (aps : List Handle) (task : Text) (a : Handle)
    → plugin_of s task ≡ some a
    → select s aps task ≡ (s, ok a)
unfolding select
select-known s aps task a e = rw (e, select)

select-plugin_of :
    (s : Sticky) (aps : List Handle) (task : Text) (a : Handle)
    → (select s aps task).1 ≡ ok a
    → plugin_of (select s aps task).0 task ≡ some a
unfolding select select_plugin
select-plugin_of s aps task a = elim (Option-cases (plugin_of s task)) [
  | inr (b, e) ↦ rw (e, select) (λ h. cc)
  | inl e ↦ elim (Option-cases (first_available aps s.plugins)) [
    | inl e' ↦ rw (e, select, e', select_plugin) (λ h. cc)
    | inr (ap, e') ↦
        rw (e, select, e', select_plugin)
          (λ h. cc (lookup-put_self text_discrete task ap s.plugins))
  ]
]

-- What a successful selection gives to a task is what every later selection gives it, with any list
-- of available plugins, until it is removed for that task: calls for other tasks and its own cache
-- calls and selections in between do not matter.
pub select-run-select :
    (s : Sticky) (aps aps' : List Handle) (task : Text) (a : Handle) (cs : List (Text × Call))
    → (select s aps task).1 ≡ ok a
    → All (Spares task) cs
    → (select (run (select s aps task).0 cs) aps' task).1 ≡ ok a
select-run-select s aps aps' task a cs got spared =
    let after = (select s aps task).0 in
    let kept = run-keeps task a after cs spared (select-plugin_of s aps task a got) in
    rw (select-known (run after cs) aps' task a kept)

-- A selection fails only for a task without a plugin while every available one is busy, and a
-- failure changes nothing.
pub select_fails_iff :
    (s : Sticky) (aps : List Handle) (task : Text)
    → (select s aps task ≡ (s, err could_not_select))
      ↔ ((plugin_of s task ≡ none) × All (λ b. is_busy b s.plugins ≡ true) aps)
unfolding select select_plugin
select_fails_iff s aps task = elim (Option-cases (plugin_of s task)) [
  | inr (b, e) ↦ rw (e, select) (λ h. cc, λ h. cc)
  | inl e ↦
      let (all_busy, none_free) = first_available-none aps s.plugins in
      elim (Option-cases (first_available aps s.plugins)) [
        | inl e' ↦ rw (e, select, e', select_plugin) (λ _. (refl, all_busy e'), λ _. refl)
        | inr (ap, e') ↦ rw (e, select, e', select_plugin) (λ h. cc, λ h. cc (none_free h.1))
      ]
]
