-- ===== src/Scheduler/Service.antt =====
-- scheduler/scheduler.go and scheduler/task.go: the collection of tasks and the calls that users and
-- the tribe make on a task by its id. What the schedule's Validate and the subscription of the
-- task's plugins answer comes as an argument.
pub mod Calls
use mathlib.Core.List.{lookup}
use snap.Base.{
  Bool, true, false, List, [], ◌∷◌, map, Option, none, some, Text, text_discrete, if◌then◌else◌,
}
use snap.Base.Map.{put, delete}
use snap.Scheduler.Task.{
  TaskState, disabled, stopped, spinning, firing, ended, stopping, Task, TaskError, task_not_found,
  task_not_stopped, task_already_added, task_disabled_not_runnable, task_already_running,
  task_already_stopped, task_ended_not_stoppable, task_disabled_not_stoppable, spin, stop, enable,
}

abbrev pub TaskTable : Type 0
TaskTable = List (Text × Task)

unfoldable pub get_task : TaskTable → Text → Option Task
get_task table id = lookup text_discrete id table

unfoldable pub add : TaskTable → Task → TaskTable × Option TaskError
add table t = elim (lookup text_discrete t.id table) [
  | none ↦ (put text_discrete t.id t table, none)
  | some _ ↦ (table, some task_already_added)
]

-- A task that does not run and is not about to stop.
unfoldable pub is_removable : TaskState → Bool
is_removable stopped = true
is_removable disabled = true
is_removable ended = true
is_removable _ = false

unfoldable pub remove : TaskTable → Task → TaskTable × Option TaskError
unfolding is_removable
remove table t = elim (lookup text_discrete t.id table) [
  | none ↦ (table, some task_not_found)
  | some _ ↦
      if is_removable t.state
      then (delete text_discrete t.id table, none)
      else (table, some task_not_stopped)
]

-- Who asked for a call.
pub data Source : Type 0 where
  user tribe : Source

pub data SchedulerEvent : Type 0 where
  task_deleted task_started : Text → Source → SchedulerEvent

-- The event goes out whether or not the table lets the task go.
unfoldable pub remove_task :
    TaskTable → Text → Source → TaskTable × Option TaskError × List SchedulerEvent
unfolding get_task remove
remove_task table id source = elim (get_task table id) [
  | none ↦ (table, some task_not_found, [])
  | some t ↦ let (table', e) = remove table t in (table', e, task_deleted t.id source ∷ [])
]

-- Errors of a start: the scheduler's own, or those of the schedule and of the subscriptions.
pub data StartError : Type 0 where
  start : TaskError → StartError
  other : Text → StartError

abbrev running : TaskState → Bool
running firing = true
running spinning = true
running _ = false

abbrev is_disabled : TaskState → Bool
is_disabled disabled = true
is_disabled _ = false

-- The new table, the errors, and the events.
abbrev pub Started : Type 0
Started = TaskTable × List StartError × List SchedulerEvent

unfoldable pub start_found :
    TaskTable → Task → Source → (invalid : Option Text) → (subscribe_errors : List Text) → Started
start_found table t source (some e) errors = (table, other e ∷ [], [])
start_found table t source none (e ∷ errors) = (table, map other (e ∷ errors), [])
start_found table t source none [] =
    (put text_discrete t.id (spin t) table, [], task_started t.id source ∷ [])

-- The guards on the state of the task that was found.
unfoldable pub start_state :
    TaskTable
    → Task
    → Source
    → (invalid : Option Text) → (subscribe_errors : List Text) → TaskState
    → Started
unfolding start_found
start_state table t source invalid errors s =
    if is_disabled s
    then (table, start task_disabled_not_runnable ∷ [], [])
    else if running s
    then (table, start task_already_running ∷ [], [])
    else start_found table t source invalid errors

unfoldable pub start_task :
    TaskTable → Text → Source → (invalid : Option Text) → (subscribe_errors : List Text) → Started
unfolding get_task start_state
start_task table id source invalid errors = elim (get_task table id) [
  | none ↦ (table, start task_not_found ∷ [], [])
  | some t ↦ start_state table t source invalid errors t.state
]

-- `none` is the panic of a Stop that closes a closed channel.
unfoldable pub stop_running : TaskTable → Option Task → Option (TaskTable × Option TaskError)
stop_running table none = none
stop_running table (some t) = some (put text_discrete t.id t table, none)

unfoldable pub stop_found : TaskTable → Task → Option (TaskTable × Option TaskError)
unfolding stop_running
stop_found table t = elim t.state [
  | stopped ↦ some (table, some task_already_stopped)
  | ended ↦ some (table, some task_ended_not_stoppable)
  | disabled ↦ some (table, some task_disabled_not_stoppable)
  | _ ↦ stop_running table (stop t)
]

unfoldable pub stop_task : TaskTable → Text → Option (TaskTable × Option TaskError)
unfolding get_task stop_found
stop_task table id = elim (get_task table id) [
  | none ↦ some (table, some task_not_found)
  | some t ↦ stop_found table t
]

unfoldable pub enable_task : TaskTable → Text → TaskTable × Option TaskError
unfolding get_task
enable_task table id = elim (get_task table id) [
  | none ↦ (table, some task_not_found)
  | some t ↦ let (t', e) = enable t in (put text_discrete t'.id t' table, e)
]
