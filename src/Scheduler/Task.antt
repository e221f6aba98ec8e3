-- ===== src/Scheduler/Task.antt =====
-- scheduler/task.go and core/task.go: a task, its state machine and its spin loop. Times are in
-- nanoseconds from Go's zero time.
pub mod Failures
pub mod Shutdown
use Prim.Native.Nat.{max}
use snap.Base.{
  ℕ, ◌+◌, ◌-◌, ◌%◌, ◌^◌, Bool, true, false, ◌&&◌, ◌||◌, List, [], ◌∷◌, Option, none, some, Text,
  ◌==◌, if◌then◌else◌,
}
use snap.Base.Int.{ℤ, pos, negsuc, leb_ℤ}

pub data TaskState : Type 0 where
  disabled stopped spinning firing ended stopping : TaskState

abbrev pub default_stop_on_failure : ℤ
default_stop_on_failure = pos 10

-- `kill_closed` is the state of the current killChan, and `loops` counts the goroutines of spin and
-- stream that were started and have not returned.
pub record Task : Type 0 where
  pub id : Text
  pub is_stream : Bool
  pub state : TaskState
  pub last_fire_time : ℕ
  pub last_failure_time : ℕ
  pub last_failure_message : Text
  pub hit_count : ℕ
  pub missed_intervals : ℕ
  pub failed_runs : ℕ
  pub stop_on_failure : ℤ
  pub kill_closed : Bool
  pub loops : ℕ

pub data TaskEvent : Type 0 where
  task_ended task_stopped : Text → TaskEvent
  task_disabled : (id why : Text) → TaskEvent

unfoldable pub new_task : (id : Text) (is_stream : Bool) → Task
new_task id is_stream = record {
  id = id;
  is_stream = is_stream;
  state = stopped;
  last_fire_time = 0;
  last_failure_time = 0;
  last_failure_message = [];
  hit_count = 0;
  missed_intervals = 0;
  failed_runs = 0;
  stop_on_failure = default_stop_on_failure;
  kill_closed = false;
  loops = 0;
}

-- A new killChan and a goroutine that listens to it.
unfoldable pub begin : Task → Task
begin t = record t { state = spinning; kill_closed = false; loops = t.loops + 1 }

unfoldable pub spin : Task → Task
unfolding begin
spin t = if t.is_stream then begin t else elim t.state [
  | stopped ↦ begin (record t { last_fire_time = 0 })
  | ended ↦ begin (record t { last_fire_time = 0 })
  | _ ↦ record t { last_fire_time = 0 }
]

-- `none` is the panic of closing a closed channel.
unfoldable pub close_kill : Task → TaskState → Option Task
close_kill t s = if t.kill_closed then none else some (record t { kill_closed = true; state = s })

unfoldable pub stop : Task → Option Task
unfolding close_kill
stop t = elim t.state [
  | firing ↦ close_kill t stopping
  | spinning ↦ close_kill t stopping
  | _ ↦ some t
]

unfoldable pub kill : Task → Option Task
unfolding close_kill
kill t = elim t.state [
  | firing ↦ close_kill t disabled
  | spinning ↦ close_kill t disabled
  | _ ↦ some t
]

pub data TaskError : Type 0 where
  task_not_disabled task_not_found task_not_stopped task_already_added : TaskError
  task_disabled_not_runnable task_already_running task_already_stopped : TaskError
  task_ended_not_stoppable task_disabled_not_stoppable : TaskError

unfoldable pub enable : Task → Task × Option TaskError
enable t = elim t.state [
  | disabled ↦ (record t { state = stopped }, none)
  | _ ↦ (t, some task_not_disabled)
]

unfoldable pub record_failure : Task → Text → Task
record_failure t message = record t {
  failed_runs = (t.failed_runs + 1) % 2 ^ 64;
  last_failure_time = t.last_fire_time;
  last_failure_message = message;
}

unfoldable pub record_failures : Task → List Text → Task
unfolding record_failure
record_failures t [] = t
record_failures t (m ∷ messages) = record_failures (record_failure t m) messages

-- One run of the workflow: when it fires, and the last message of each failure that it records.
-- The workflow waits for all of its jobs, so the failures fall between the two state changes.
pub record FireRun : Type 0 where
  pub now : ℕ
  pub failures : List Text

unfoldable pub fire : Task → FireRun → Task
unfolding record_failures
fire t r =
    let fired = record_failures (record t { state = firing; last_fire_time = r.now }) r.failures in
    record fired { hit_count = (fired.hit_count + 1) % 2 ^ 64; state = spinning }

-- The event that disable emits carries the message.
unfoldable pub disable : Task → Text → Task × TaskEvent
disable t message = (record t { state = disabled }, task_disabled t.id message)

-- What the select of the spin loop receives.
pub data Wakeup : Type 0 where
  active : (missed : ℕ) → FireRun → Wakeup
  schedule_ended : Wakeup
  schedule_error : Text → Wakeup
  kill_received : Wakeup

-- The loop goes on with its count of consecutive failures, or returns after an event.
pub data LoopResult : Type 0 where
  goes_on : Task → ℕ → LoopResult
  returned : Task → TaskEvent → LoopResult

abbrev leave : Task × TaskEvent → LoopResult
leave (t, e) = returned (record t { loops = t.loops - 1 }) e

-- A run failed if the last failure carries the time of the run.
unfoldable pub count_failure : Task → ℕ → ℕ
count_failure t consecutive = if t.last_failure_time == t.last_fire_time then consecutive + 1 else 0

unfoldable pub over_limit : ℤ → ℕ → Bool
over_limit limit consecutive = leb_ℤ (pos 0) limit && leb_ℤ limit (pos consecutive)

unfoldable pub after_fire : Task → ℕ → LoopResult
after_fire t consecutive =
    if over_limit t.stop_on_failure consecutive
    then leave (disable t t.last_failure_message)
    else goes_on t consecutive

unfoldable pub loop_step : Task → ℕ → Wakeup → LoopResult
unfolding after_fire
loop_step t consecutive (active missed r) =
    let fired = fire (record t { missed_intervals = (t.missed_intervals + missed) % 2 ^ 64 }) r in
    after_fire fired (count_failure fired consecutive)
loop_step t consecutive schedule_ended = leave (record t { state = ended }, task_ended t.id)
loop_step t consecutive (schedule_error message) = leave (disable t message)
loop_step t consecutive kill_received =
    leave (record t { state = stopped; last_fire_time = 0 }, task_stopped t.id)

-- The loop over what its select receives, as far as it runs.
unfoldable pub spin_loop : Task → ℕ → List Wakeup → LoopResult
spin_loop t consecutive [] = goes_on t consecutive
spin_loop t consecutive (w ∷ ws) = elim (loop_step t consecutive w) [
  | goes_on t' n ↦ spin_loop t' n ws
  | returned t' e ↦ returned t' e
]
