-- ===== src/Schedule.antt =====
-- pkg/schedule/schedule.go and pkg/schedule/windowed_schedule.go: when a task fires. Times are in
-- nanoseconds from Go's zero time, durations are in nanoseconds.
pub mod Interval
pub mod Window
pub mod Validity
mod Samples
use snap.Base.{ℕ, ◌+◌, ◌-◌, Bool, true, false, ◌&&◌, Option, none, some, ltb, ◌==◌, if◌then◌else◌}
use snap.Base.Int.{
  ℤ, pos, negsuc, pos_part, neg_part, leb_ℤ, ◌-ℤ◌, time_sub, rem, quot, uint64, int64, scale,
}

pub data ScheduleState : Type 0 where
  active ended error : ScheduleState

pub data ScheduleError : Type 0 where
  invalid_interval invalid_stop_time stop_before_start : ScheduleError

-- The missed intervals and the sleep, `diff` after the last run.
unfoldable pub on_interval : (diff interval : ℤ) → ℕ × ℤ
on_interval diff interval =
    let remainder = rem diff interval in
    (uint64 (quot (diff -ℤ remainder) interval), int64 (interval -ℤ remainder))

-- The missed intervals and the sleep of waitOnInterval; the first run does not sleep. `none` is the
-- panic of a division by zero.
unfoldable pub wait_on_interval : (last now : ℕ) → (interval : ℤ) → Option (ℕ × ℤ)
wait_on_interval last now interval =
    if last == 0
    then some (0, pos 0)
    else if pos_part interval + neg_part interval == 0
    then none
    else some (on_interval (time_sub now last) interval)

pub record WindowedSchedule : Type 0 where
  pub interval : ℤ
  pub start_time : Option ℕ
  pub stop_time : Option ℕ
  pub count : ℕ
  pub state : ScheduleState
  pub stop_on_time : Option ℕ

-- The count is ignored where there is a stop time.
unfoldable pub new_windowed_schedule : ℤ → (start stop : Option ℕ) → (count : ℕ) → WindowedSchedule
new_windowed_schedule interval start stop count = record {
  interval = interval;
  start_time = start;
  stop_time = stop;
  count = elim stop [ none ↦ count | some _ ↦ 0 ];
  state = active;
  stop_on_time = none;
}

-- The readings of the clock in one Wait, in the order of the code.
pub data Reading : Type 0 where
  before_start stop_base start_check start_sleep window_check since_last after_interval : Reading

-- Time.Add, for sums that are not before the zero time.
abbrev add_time : ℕ → ℤ → ℕ
add_time t d = t + pos_part d - neg_part d

-- Where a window of `count` intervals begins: at its start time, if that is still to come.
unfoldable pub window_base : (Reading → ℕ) → Option ℕ → ℕ
window_base clock none = clock stop_base
window_base clock (some s) = if ltb (clock before_start) s then s else clock stop_base

unfoldable pub set_stop_on_time : (Reading → ℕ) → WindowedSchedule → WindowedSchedule
unfolding window_base int64
set_stop_on_time clock w = record w {
  stop_on_time = elim w.stop_time [
    | some s ↦ some s
    | none ↦
        if w.count == 0
        then none
        else some (add_time (window_base clock w.start_time) (int64 (scale w.count w.interval)))
  ];
}

abbrev is_past : ℕ → Option ℕ → Bool
is_past now none = false
is_past now (some stop) = ltb stop now

abbrev is_reversed : (stop start : Option ℕ) → Bool
is_reversed (some stop) (some start) = ltb stop start
is_reversed _ _ = false

unfoldable pub validate : (now : ℕ) → WindowedSchedule → WindowedSchedule × Option ScheduleError
validate now w =
    if is_past now w.stop_time
    then (w, some invalid_stop_time)
    else if is_reversed w.stop_time w.start_time
    then (w, some stop_before_start)
    else if leb_ℤ w.interval (pos 0)
    then (w, some invalid_interval)
    else (record w { state = active }, none)

-- What Wait leaves and answers, and how long it sleeps before the window and on the interval.
pub record Waited : Type 0 where
  pub schedule : WindowedSchedule
  pub missed : ℕ
  pub start_wait : ℤ
  pub interval_wait : ℤ

unfoldable pub sleep_to_start : (Reading → ℕ) → Option ℕ → ℤ
sleep_to_start clock none = pos 0
sleep_to_start clock (some s) =
    if ltb (clock start_check) s then time_sub s (clock start_sleep) else pos 0

abbrev close : WindowedSchedule → WindowedSchedule
close w = record w { state = ended }

-- The state after the wait on the interval, by the right boundary of the window.
unfoldable pub close_after : (Reading → ℕ) → WindowedSchedule → WindowedSchedule
close_after clock w = if is_past (clock after_interval) w.stop_on_time then close w else w

abbrev is_open : ℕ → Option ℕ → Bool
is_open now none = true
is_open now (some stop) = ltb now stop

unfoldable pub wait_in_window :
    (Reading → ℕ) → WindowedSchedule → (start_wait : ℤ) → Option (ℕ × ℤ) → Option Waited
wait_in_window clock w start_wait none = none
wait_in_window clock w start_wait (some (missed, sleep)) = some (record {
  schedule = close_after clock w;
  missed = missed;
  start_wait = start_wait;
  interval_wait = sleep;
})

-- Wait on a schedule whose boundary is set. The response carries the schedule's state.
unfoldable pub wait_bounded : (Reading → ℕ) → WindowedSchedule → (last : ℕ) → Option Waited
wait_bounded clock w last =
    if is_open (clock window_check) w.stop_on_time
    then wait_in_window clock w (sleep_to_start clock w.start_time)
        (wait_on_interval last (clock since_last) w.interval)
    else some (record {
      schedule = close w;
      missed = 0;
      start_wait = sleep_to_start clock w.start_time;
      interval_wait = pos 0;
    })

-- The first wait of a run, for which `last` is the zero time, sets the boundary.
unfoldable pub wait : (Reading → ℕ) → WindowedSchedule → (last : ℕ) → Option Waited
unfolding set_stop_on_time
wait clock w last = wait_bounded clock (if last == 0 then set_stop_on_time clock w else w) last
