-- ===== src/Schedule/Window.antt =====
-- The windowed schedule's Wait: inside and outside of its window.
use snap.Base.{
  ℕ, zero, suc, ◌+◌, ◌*◌, ◌^◌, ◌≤◌, ◌<◌, ◌≡◌, ◌↔◌, inl, inr, refl, sym, ap, ◌∙◌, Bool, true, false,
  Option, none, some, arith, Bool-cases, if◌then◌else◌, ◌==◌, subst,
}
use snap.Base.Int.{ℤ, pos, int64, uint64, scale, time_sub}
use snap.Schedule.Interval.{wait_on_interval-again}
use snap.Schedule.{
  active, ended, WindowedSchedule, Reading, window_check, since_last, after_interval,
  wait_on_interval, on_interval, new_windowed_schedule, window_base, set_stop_on_time, Waited,
  sleep_to_start, close_after, wait_in_window, wait_bounded, wait, is_open, is_past,
}

-- The window is open when it is looked at, and its end has not passed when the interval has.
abbrev pub IsWithin : (Reading → ℕ) → Option ℕ → Type 0
IsWithin clock none = Unit
IsWithin clock (some stop) = (clock window_check < stop) × (clock after_interval ≤ stop)

open_iff :
    (clock : Reading → ℕ) (stop : Option ℕ)
    → IsWithin clock stop
      ↔ ((is_open (clock window_check) stop ≡ true) × (is_past (clock after_interval) stop ≡ false))
open_iff clock none = (λ h. (refl, refl), λ h. tt)
open_iff clock (some stop) = ground arith

wait_on_interval-total :
    (last now i : ℕ) → (m : ℕ × ℤ) × (wait_on_interval last now (pos (suc i)) ≡ some m)
unfolding wait_on_interval
wait_on_interval-total zero now i = ((0, pos 0), ground arith)
wait_on_interval-total (suc last) now i = (
  on_interval (time_sub now (suc last)) (pos (suc i)),
  wait_on_interval-again (suc last) now i (omega arith),
)

closed_window :
    (clock : Reading → ℕ) (w : WindowedSchedule) (last : ℕ)
    → is_open (clock window_check) w.stop_on_time ≡ false
    → wait_bounded clock w last
      ≡ some (record {
        schedule = record w { state = ended };
        missed = 0;
        start_wait = sleep_to_start clock w.start_time;
        interval_wait = pos 0;
      })
unfolding wait_bounded
closed_window clock w last c = ground arith

open_window :
    (clock : Reading → ℕ) (w : WindowedSchedule) (last : ℕ) (m : ℕ × ℤ)
    → is_open (clock window_check) w.stop_on_time ≡ true
    → wait_on_interval last (clock since_last) w.interval ≡ some m
    → wait_bounded clock w last
      ≡ some (record {
        schedule = close_after clock w;
        missed = m.0;
        start_wait = sleep_to_start clock w.start_time;
        interval_wait = m.1;
      })
unfolding wait_bounded wait_in_window
open_window clock w last m o e = ground arith

close_after-state :
    (clock : Reading → ℕ) (w : WindowedSchedule)
    → w.state ≡ active
    → ((close_after clock w).stop_on_time ≡ w.stop_on_time)
      × (((close_after clock w).state ≡ active)
          ↔ (is_past (clock after_interval) w.stop_on_time ≡ false))
unfolding close_after
close_after-state clock w a = elim (Bool-cases (is_past (clock after_interval) w.stop_on_time)) [
  | inl p ↦ rw (p) (refl, (λ h. cc, λ h. cc))
  | inr p ↦ rw (p) (refl, (λ h. refl, λ h. a))
]

by_window :
    (clock : Reading → ℕ) (w : WindowedSchedule) (last i : ℕ)
    → w.state ≡ active
    → w.interval ≡ pos (suc i)
    → (r : Waited) × (wait_bounded clock w last ≡ some r)
      × (r.schedule.stop_on_time ≡ w.stop_on_time)
      × ((r.schedule.state ≡ active) ↔ IsWithin clock w.stop_on_time)
by_window clock w last i a e =
    let iff = open_iff clock w.stop_on_time in
    elim (Bool-cases (is_open (clock window_check) w.stop_on_time)) [
      | inr c ↦ (_, closed_window clock w last c, refl, (λ h. cc, λ h. cc ((iff.0 h).0)))
      | inl o ↦
          let (m, found) = wait_on_interval-total last (clock since_last) i in
          let (same, state) = close_after-state clock w a in
          (
            _,
            open_window clock w last m o (ap (wait_on_interval last (clock since_last)) e ∙ found),
            same,
            (λ h. iff.1 (o, state.0 h), λ h. state.1 ((iff.0 h).1)),
          )
    ]

-- The schedule of a wait, with its boundary set at the first wait.
abbrev bounded : (Reading → ℕ) → WindowedSchedule → Bool → WindowedSchedule
bounded clock w first = if first then set_stop_on_time clock w else w

bounded-same :
    (clock : Reading → ℕ) (w : WindowedSchedule) (first : Bool)
    → ((bounded clock w first).state ≡ w.state) × ((bounded clock w first).interval ≡ w.interval)
unfolding set_stop_on_time
bounded-same clock w true = (refl, refl)
bounded-same clock w false = (refl, refl)

wait-by_window :
    (clock : Reading → ℕ) (w : WindowedSchedule) (last i : ℕ)
    → w.state ≡ active
    → w.interval ≡ pos (suc i)
    → (r : Waited) × (wait clock w last ≡ some r)
      × (r.schedule.stop_on_time ≡ (bounded clock w (last == 0)).stop_on_time)
      × ((r.schedule.state ≡ active) ↔ IsWithin clock (bounded clock w (last == 0)).stop_on_time)
unfolding wait
wait-by_window clock w last i a e =
    let (state, interval) = bounded-same clock w (last == 0) in
    by_window clock (bounded clock w (last == 0)) last i (state ∙ a) (interval ∙ e)

-- Wait of an active schedule with a positive interval does not panic, and its response is active
-- exactly if the window was open when it was looked at and its right boundary has not passed once
-- the interval has.
pub wait_active_iff :
    (clock : Reading → ℕ) (w : WindowedSchedule) (last i : ℕ)
    → w.state ≡ active
    → w.interval ≡ pos (suc i)
    → (r : Waited) × (wait clock w last ≡ some r)
      × ((r.schedule.state ≡ active) ↔ IsWithin clock r.schedule.stop_on_time)
wait_active_iff clock w last i a e =
    let (r, found, same, iff) = wait-by_window clock w last i a e in
    (r, found, subst (λ s. (r.schedule.state ≡ active) ↔ IsWithin clock s) (sym same) iff)

set_stop-count :
    (clock : Reading → ℕ) (start : Option ℕ) (i c : ℕ)
    → suc c * suc i < 2 ^ 63
    → (set_stop_on_time clock (new_windowed_schedule (pos (suc i)) start none (suc c))).stop_on_time
      ≡ some (window_base clock start + suc c * suc i)
unfolding set_stop_on_time new_windowed_schedule int64 uint64 scale
set_stop-count clock start i c small = ground arith

-- The first Wait of a schedule with a count and no stop time bounds the window by as many intervals
-- from its base, the start time or, if that is absent or past, the present; as long as they fit into
-- a duration. Its response is active exactly if that boundary is ahead when the window is looked at
-- and has not passed after the first run's wait.
pub wait-count :
    (clock : Reading → ℕ) (start : Option ℕ) (i c : ℕ)
    → suc c * suc i < 2 ^ 63
    → (r : Waited) × (wait clock (new_windowed_schedule (pos (suc i)) start none (suc c)) 0
        ≡ some r)
      × (r.schedule.stop_on_time ≡ some (window_base clock start + suc c * suc i))
      × ((r.schedule.state ≡ active)
          ↔ IsWithin clock (some (window_base clock start + suc c * suc i)))
unfolding new_windowed_schedule
wait-count clock start i c small =
    let w = new_windowed_schedule (pos (suc i)) start none (suc c) in
    let (r, found, same, iff) = wait-by_window clock w 0 i refl refl in
    let stop = set_stop-count clock start i c small in
    (r, found, same ∙ stop, subst (λ s. (r.schedule.state ≡ active) ↔ IsWithin clock s) stop iff)
