-- ===== src/Scheduler/Samples.antt =====
-- scheduler: a queue, a task and a table to try the theorems on.
use snap.Scheduler.Watchers.{TaskWatchers, new_task_watchers, task_started, called, handle}
use snap.Scheduler.Watchers.Lifetimes.{watching}
use snap.Scheduler.Watchers.Delivery.{Call, watch, shut, run, open_watchers, handle-run}
use snap.Base.{
  ℕ, ◌≤◌, ◌≡◌, ◌↔◌, ◌⊎◌, refl, inl, true, false, List, [], ◌∷◌, ◌++◌, Option, none, some, Text, leb,
  length, arith,
}
use snap.Base.Int.{pos}
use snap.Scheduler.Queue.{
  Queue, queue_running, new_queue, start, receive, check_status, handler_pop, handler_done, Step,
  arrives, checks, pops, handles, Reach, here, next, has_room,
}
use snap.Scheduler.Queue.Order.{in_hand, queue_order}
use snap.Scheduler.Queue.Wakeup.{IsIdle, queue_strands}
use snap.Scheduler.Task.{
  Task, new_task, stopped, stopping, spinning, begin, close_kill, disabled, FireRun, spin,
  spin_loop, kill, loop_step, kill_received, returned, task_stopped,
}
use snap.Scheduler.Task.Failures.{disables, wakeups, runs, longest_row, spin_disables}
use snap.Scheduler.Task.Shutdown.{kill-loop_step}
use snap.Scheduler.Service.{TaskTable, get_task, user, start_task, task_started}
use snap.Scheduler.Service.Calls.{IsStartable, start_task_ok_iff}

abbrev q0 : Queue
unfolding start new_queue
q0 = start (new_queue 2)

abbrev q1 : Queue
unfolding receive
q1 = receive q0 7

abbrev q2 : Queue
unfolding check_status
q2 = check_status q1

abbrev q3 : Queue
unfolding handler_pop
q3 = handler_pop q2 [] []

abbrev q4 : Queue
unfolding handler_done
q4 = handler_done q3 [] 7 []

-- The queue took job 7 and handled it, and the handler has found no further job.
abbrev q5 : Queue
unfolding handler_pop
q5 = handler_pop q4 [] []

q5-Reach : Reach (start (new_queue 2)) q5
unfolding q0 q1 q2 q3 q4
q5-Reach =
    next
      (next (next (next (next here (arrives q0 7 refl)) (checks q1 refl)) (pops q2 [] [] refl))
        (handles q3 [] [] 7 refl))
      (pops q4 [] [] refl)

queue_order_example :
    (length q5.handlers ≤ 1)
    × (q5.status ≡ queue_running → q5.handlers ≡ [])
    × ((q5.limit ≡ 0) ⊎ (length q5.items ≤ q5.limit))
    × (q5.handled ++ (in_hand q5.handlers ++ q5.items) ≡ q5.accepted)
queue_order_example = queue_order 2 q5-Reach

queue_strands_example :
    (s : Queue) × Reach q5 s
    × (s.items ≡ q5.items ++ 8 ∷ [])
    × IsIdle s
    × ((r : Queue)
        → Step s r
        → ((r.items ≡ s.items) × (r.handlers ≡ [])) ⊎ ((k : ℕ) × (r ≡ receive s k)))
unfolding q0 q1 q2 q3 q4 q5 has_room
queue_strands_example =
    queue_strands q5 8 (record { at_select = refl; working = refl; last = refl }) refl

abbrev failing : ℕ → FireRun
failing now = record { now = now; failures = (b'x' ∷ []) ∷ [] }

abbrev succeeding : ℕ → FireRun
succeeding now = record { now = now; failures = [] }

-- A task that starts to spin, with a limit of two failures in a row.
abbrev strict_task : Task
unfolding new_task spin begin
strict_task = record (spin (new_task (b't' ∷ []) false)) { stop_on_failure = pos 2 }

abbrev some_wakeups : List (ℕ × FireRun)
some_wakeups = (0, failing 5) ∷ (1, succeeding 6) ∷ (0, failing 7) ∷ (0, failing 9) ∷ []

spin_disables_example :
    disables (spin_loop strict_task 0 (wakeups some_wakeups))
    ≡ leb 2 (longest_row 0 (runs some_wakeups))
unfolding strict_task
spin_disables_example =
    spin_disables 1 strict_task 0 some_wakeups refl (omega arith)
      (omega arith, (omega arith, (omega arith, (omega arith, tt))))

abbrev killed_task : Task
unfolding strict_task
killed_task = record strict_task { state = disabled; kill_closed = true }

kill-loop_step_example :
    (killed_task.state ≡ disabled)
    × ((u : Task) × (loop_step killed_task 1 kill_received
          ≡ returned u (task_stopped strict_task.id))
        × (u.state ≡ stopped)
        × ((spin u).state ≡ spinning))
unfolding strict_task killed_task kill close_kill
kill-loop_step_example = kill-loop_step strict_task killed_task 1 (inl refl) refl

abbrev stopping_task : Task
unfolding strict_task
stopping_task = record strict_task { state = stopping; kill_closed = true }

abbrev one_task : TaskTable
one_task = (b't' ∷ [], stopping_task) ∷ []

abbrev valid : Option Text
valid = none

abbrev no_errors : List Text
no_errors = []

start_task_ok_iff_example : ((start_task one_task (b't' ∷ []) user valid no_errors).1 ≡ []) ↔ (
    (t : Task) × (get_task one_task (b't' ∷ []) ≡ some t)
    × IsStartable t.state
    × (valid ≡ none)
    × (no_errors ≡ []))
start_task_ok_iff_example = start_task_ok_iff one_task (b't' ∷ []) user valid no_errors

-- Two watchers of one task and one of another; the first is closed.
abbrev watch_calls : List Call
watch_calls = watch (b'a' ∷ []) ∷ watch (b'b' ∷ []) ∷ watch (b'a' ∷ []) ∷ shut 0 ∷ []

handle-run_example :
    (t : TaskWatchers) × (run watch_calls new_task_watchers ≡ some t)
    × (handle task_started (b'a' ∷ []) t
        ≡ called task_started (watching (b'a' ∷ []) (open_watchers watch_calls 0 [])))
handle-run_example = handle-run watch_calls task_started (b'a' ∷ [])
