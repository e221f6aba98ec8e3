-- ===== src/Scheduler/Service/Calls.antt =====
-- What the calls on a task do to it and to the others.
use mathlib.Core.List.{lookup}
use snap.Base.{
  ◌≡◌, ◌≢◌, ◌↔◌, refl, sym, ap, ◌∙◌, inl, inr, Bool, true, false, List, [], ◌∷◌, Option, none, some,
  Text, text_discrete, if◌then◌else◌, ite, if_pos, if_neg, arith, Option-cases,
}
use snap.Base.Map.{put, delete, lookup-delete}
use snap.Scheduler.Task.{
  TaskState, disabled, stopped, spinning, firing, ended, stopping, Task, spin, task_not_found,
}
use snap.Scheduler.Service.{
  TaskTable, get_task, is_removable, remove, Source, task_started, remove_task, start, start_found,
  start_state, start_task,
}

-- A state from which the scheduler lets a task start.
abbrev pub IsStartable : TaskState → Type 0
IsStartable s = (s ≢ disabled) × (s ≢ firing) × (s ≢ spinning)

start_found-ok :
    (table : TaskTable) (t : Task) (source : Source) (invalid : Option Text) (errors : List Text)
    → ((start_found table t source invalid errors).1 ≡ []) ↔ ((invalid ≡ none) × (errors ≡ []))
unfolding start_found
start_found-ok table t source (some e) errors = (λ h. cc, λ h. cc (h.0))
start_found-ok table t source none (e ∷ errors) = (λ h. cc, λ h. cc (h.1))
start_found-ok table t source none [] = (λ h. (refl, refl), λ h. refl)

by_state :
    (table : TaskTable) (t : Task) (source : Source) (invalid : Option Text) (errors : List Text)
    (s : TaskState)
    → ((start_state table t source invalid errors s).1 ≡ [])
      ↔ (IsStartable s × (invalid ≡ none) × (errors ≡ []))
unfolding start_state
by_state table t source invalid errors disabled = (λ h. cc, λ (s, u, v). absurd (s.0 refl))
by_state table t source invalid errors firing = (λ h. cc, λ (s, u, v). absurd (s.1 refl))
by_state table t source invalid errors spinning = (λ h. cc, λ (s, u, v). absurd (s.2 refl))
by_state table t source invalid errors stopped =
    let ok = start_found-ok table t source invalid errors in
    (λ h. ((λ e. cc, λ e. cc, λ e. cc), (ok.0 h).0, (ok.0 h).1), λ (s, u, v). ok.1 (u, v))
by_state table t source invalid errors ended =
    let ok = start_found-ok table t source invalid errors in
    (λ h. ((λ e. cc, λ e. cc, λ e. cc), (ok.0 h).0, (ok.0 h).1), λ (s, u, v). ok.1 (u, v))
by_state table t source invalid errors stopping =
    let ok = start_found-ok table t source invalid errors in
    (λ h. ((λ e. cc, λ e. cc, λ e. cc), (ok.0 h).0, (ok.0 h).1), λ (s, u, v). ok.1 (u, v))

start_task-found :
    (table : TaskTable) (id : Text) (source : Source) (invalid : Option Text) (errors : List Text)
    (t : Task)
    → get_task table id ≡ some t
    → start_task table id source invalid errors ≡ start_state table t source invalid errors t.state
unfolding start_task
start_task-found table id source invalid errors t e = rw (e, start_task) refl

start_task-absent :
    (table : TaskTable) (id : Text) (source : Source) (invalid : Option Text) (errors : List Text)
    → get_task table id ≡ none
    → start_task table id source invalid errors ≡ (table, start task_not_found ∷ [], [])
unfolding start_task
start_task-absent table id source invalid errors e = rw (e, start_task) refl

-- A start is answered without an error exactly if the task is in the table, is neither disabled nor
-- running, has a valid schedule and has all of its plugins subscribed.
pub start_task_ok_iff :
    (table : TaskTable) (id : Text) (source : Source) (invalid : Option Text) (errors : List Text)
    → ((start_task table id source invalid errors).1 ≡ []) ↔ (
        (t : Task) × (get_task table id ≡ some t)
        × IsStartable t.state
        × (invalid ≡ none)
        × (errors ≡ []))
start_task_ok_iff table id source invalid errors = elim (Option-cases (get_task table id)) [
  | inl e ↦ (λ h. cc (start_task-absent table id source invalid errors e), λ (t, h, r, u, v). cc)
  | inr (t, e) ↦
      let found = start_task-found table id source invalid errors t e in
      let iff = by_state table t source invalid errors t.state in
      (
        λ h. let r = iff.0 (sym (ap (λ x. x.1) found) ∙ h) in (t, e, r.0, r.1, r.2),
        λ (u, h, r, v, w).
            ap (λ x. x.1) (start_task-found table id source invalid errors u h)
            ∙ (by_state table u source invalid errors u.state).1 (r, v, w),
      )
]

spin-stopping :
    (t : Task) → t.state ≡ stopping → t.is_stream ≡ false → spin t ≡ record t { last_fire_time = 0 }
unfolding spin
spin-stopping t s p = ground arith

-- A task that is about to stop and is started before its loop has seen the stop: the start is
-- answered without an error and announced, and the task stays as it is, without a new loop.
pub start_task-stopping :
    (table : TaskTable) (id : Text) (source : Source) (t : Task)
    → get_task table id ≡ some t
    → t.state ≡ stopping
    → t.is_stream ≡ false
    → start_task table id source none [] ≡ (
      put text_discrete t.id (record t { last_fire_time = 0 }) table,
      [],
      task_started t.id source ∷ [],
    )
unfolding start_state start_found
start_task-stopping table id source t e s p =
    start_task-found table id source none [] t e
    ∙ ap (start_state table t source none []) s
    ∙ ap (λ u. (put text_discrete t.id u table, [], task_started t.id source ∷ []))
        (spin-stopping t s p)

remove-found :
    (table : TaskTable) (t : Task)
    → lookup text_discrete t.id table ≡ some t
    → (remove table t).0 ≡ (if is_removable t.state then delete text_discrete t.id table else table)
unfolding remove
remove-found table t e = ground arith

lookup-remove_table :
    (table : TaskTable) (t : Task) (j : Text) (b : Bool)
    → lookup text_discrete t.id table ≡ some t
    → lookup text_discrete j (if b then delete text_discrete t.id table else table)
      ≡ ite (text_discrete t.id j) (if b then none else some t) (lookup text_discrete j table)
lookup-remove_table table t j true e = lookup-delete text_discrete t.id j table
lookup-remove_table table t j false e = elim (text_discrete t.id j) [
  | yes p ↦ sym (
      if_pos (text_discrete t.id j) p (some t) (lookup text_discrete j table)
      ∙ sym e
      ∙ ap (λ x. lookup text_discrete x table) p)
  | no n ↦ sym (if_neg (text_discrete t.id j) n (some t) (lookup text_discrete j table))
]

-- A removal by id takes the task out of the table exactly if the task has stopped, has ended or is
-- disabled, where the table has the task under its own id, and no other task is touched.
pub get_task-remove_task :
    (table : TaskTable) (source : Source) (t : Task) (j : Text)
    → get_task table t.id ≡ some t
    → get_task (remove_task table t.id source).0 j
      ≡ ite
          (text_discrete t.id j)
          (if is_removable t.state then none else some t)
          (get_task table j)
unfolding get_task remove_task
get_task-remove_task table source t j e =
    rw (e, remove_task)
      (ap (lookup text_discrete j) (remove-found table t e)
        ∙ lookup-remove_table table t j (is_removable t.state) e)
