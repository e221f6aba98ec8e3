-- ===== src/Schedule/Validity.antt =====
-- The windowed schedule's Validate.
use snap.Base.{ℕ, ◌≤◌, ◌≡◌, ◌⊎◌, ◌↔◌, refl, false, Option, none, some, arith, Bool-cases, inl, inr}
use snap.Base.Int.{ℤ, pos, ◌<ℤ◌, leb_ℤ}
use snap.Schedule.{
  active, ScheduleError, invalid_stop_time, stop_before_start, invalid_interval, WindowedSchedule,
  validate, is_past, is_reversed,
}

-- The stop time, if there is one, is not past and not before the start time.
abbrev pub IsAhead : (now : ℕ) (stop start : Option ℕ) → Type 0
IsAhead now none start = Unit
IsAhead now (some stop) none = now ≤ stop
IsAhead now (some stop) (some start) = (now ≤ stop) × (start ≤ stop)

IsAhead-iff :
    (now : ℕ) (stop start : Option ℕ)
    → IsAhead now stop start ↔ ((is_past now stop ≡ false) × (is_reversed stop start ≡ false))
IsAhead-iff now none start = (λ h. (refl, refl), λ h. tt)
IsAhead-iff now (some stop) none = ground arith
IsAhead-iff now (some stop) (some start) = ground arith

positive_iff : (i : ℤ) → (pos 0 <ℤ i) ↔ (leb_ℤ i (pos 0) ≡ false)
positive_iff i = ground arith

-- Either the stop time is neither past nor before the start time and the interval is positive, and
-- Validate makes the schedule active; or one of these fails, and it answers an error and leaves the
-- schedule as it was.
pub validate-branches :
    (now : ℕ) (w : WindowedSchedule)
    → (IsAhead now w.stop_time w.start_time
        × (pos 0 <ℤ w.interval)
        × (validate now w ≡ (record w { state = active }, none)))
      ⊎ ((¬ (IsAhead now w.stop_time w.start_time × (pos 0 <ℤ w.interval)))
          × ((e : ScheduleError) × (validate now w ≡ (w, some e))))
unfolding validate
validate-branches now w =
    let (ahead, is_ahead) = IsAhead-iff now w.stop_time w.start_time in
    let (positive, is_positive) = positive_iff w.interval in
    elim (Bool-cases (is_past now w.stop_time)) [
      | inl p ↦ inr ((λ h. cc ((ahead (h.0)).0)), (invalid_stop_time, rw (p, validate) refl))
      | inr p ↦ elim (Bool-cases (is_reversed w.stop_time w.start_time)) [
        | inl q ↦ inr ((λ h. cc ((ahead (h.0)).1)), (stop_before_start, rw (p, q, validate) refl))
        | inr q ↦ elim (Bool-cases (leb_ℤ w.interval (pos 0))) [
          | inl r ↦
              inr ((λ h. cc (positive (h.1))), (invalid_interval, rw (p, q, r, validate) refl))
          | inr r ↦ inl (is_ahead (p, q), is_positive r, rw (p, q, r, validate) refl)
        ]
      ]
    ]
