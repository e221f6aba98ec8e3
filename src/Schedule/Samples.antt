-- ===== src/Schedule/Samples.antt =====
-- pkg/schedule: a window of three intervals to try the theorems on.
use snap.Base.{ℕ, ◌+◌, ◌*◌, ◌≤◌, ◌<◌, ◌≡◌, ◌↔◌, refl, none, some, arith}
use snap.Base.Int.{pos}
use snap.Schedule.{
  active, WindowedSchedule, Reading, new_windowed_schedule, wait_on_interval, Waited, wait,
}
use snap.Schedule.Interval.{wait_on_interval-next}
use snap.Schedule.Window.{IsWithin, wait_active_iff}

abbrev clock : Reading → ℕ
clock r = 500

abbrev window : WindowedSchedule
unfolding new_windowed_schedule
window = new_windowed_schedule (pos 10) (some 400) none 3

wait_on_interval-next_example :
    (missed : ℕ) × (sleep : ℕ) × (wait_on_interval 475 500 (pos 10) ≡ some (missed, pos sleep))
    × (0 < sleep)
    × (sleep ≤ 10)
    × (500 + sleep ≡ 475 + (10 * missed + 10))
wait_on_interval-next_example =
    wait_on_interval-next 475 500 9 (omega arith) (omega arith) (omega arith) (omega arith)

wait_active_iff_example :
    (r : Waited) × (wait clock window 0 ≡ some r)
    × ((r.schedule.state ≡ active) ↔ IsWithin clock r.schedule.stop_on_time)
unfolding window
wait_active_iff_example = wait_active_iff clock window 0 9 refl refl
