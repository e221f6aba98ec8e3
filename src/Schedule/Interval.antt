-- ===== src/Schedule/Interval.antt =====
-- waitOnInterval: which moment a wait aims at.
use native.Mathlib.Nat.{mod-lt, div-add-mod, div-le_self, div-eq_of_eq-mul_right}
use snap.Base.{ℕ, suc, ◌+◌, ◌-◌, ◌*◌, ◌/◌, ◌%◌, ◌^◌, ◌≤◌, ◌<◌, ◌≡◌, ap, ◌∙◌, some, arith}
use snap.Base.Int.{pos, ◌-ℤ◌, time_sub, rem, quot, uint64, int64}
use snap.Schedule.{on_interval, wait_on_interval}

time_sub-later :
    (last now : ℕ) → last ≤ now → now - last < 2 ^ 63 → time_sub now last ≡ pos (now - last)
unfolding time_sub
time_sub-later last now le small = ground arith

minus-le : (a b : ℕ) → b ≤ a → pos a -ℤ pos b ≡ pos (a - b)
minus-le a b le = ground arith

int64-small : (a : ℕ) → a < 2 ^ 63 → int64 (pos a) ≡ pos a
unfolding int64 uint64
int64-small a h = ground arith

uint64-small : (a : ℕ) → a < 2 ^ 63 → uint64 (pos a) ≡ a
unfolding uint64
uint64-small a h = omega arith

rem-pos : (d n : ℕ) → rem (pos d) (pos n) ≡ pos (d % n)
unfolding rem
rem-pos d n = ap (λ m. pos (d % m)) (omega arith)

whole_intervals : (d i : ℕ) → (d - d % suc i) / suc i ≡ d / suc i
whole_intervals d i =
    div-eq_of_eq-mul_right {n = suc i} (omega arith) (omega (arith, div-add-mod d (suc i)))

missed-small :
    (d i : ℕ) → d < 2 ^ 63 → uint64 (quot (pos d -ℤ pos (d % suc i)) (pos (suc i))) ≡ d / suc i
unfolding quot
missed-small d i small =
    rw (minus-le d (d % suc i) (omega (arith, div-add-mod d (suc i))))
      (rw (whole_intervals d i) (uint64-small (d / suc i) (omega (arith, div-le_self d (suc i)))))

sleep-small :
    (d i : ℕ) → suc i < 2 ^ 63 → int64 (pos (suc i) -ℤ pos (d % suc i)) ≡ pos (suc i - d % suc i)
sleep-small d i small =
    rw (minus-le (suc i) (d % suc i) (omega (arith, mod-lt d {m = suc i} (omega arith))))
      (int64-small (suc i - d % suc i) (omega arith))

on_interval-pos :
    (d i : ℕ)
    → d < 2 ^ 63
    → suc i < 2 ^ 63
    → on_interval (pos d) (pos (suc i)) ≡ (d / suc i, pos (suc i - d % suc i))
unfolding on_interval
on_interval-pos d i small interval =
    let r = rem-pos d (suc i) in
    cc (
      ap (λ x. uint64 (quot (pos d -ℤ x) (pos (suc i)))) r ∙ missed-small d i small,
      ap (λ x. int64 (pos (suc i) -ℤ x)) r ∙ sleep-small d i interval,
    )

pub wait_on_interval-again :
    (last now i : ℕ)
    → 0 < last
    → wait_on_interval last now (pos (suc i)) ≡ some (on_interval (time_sub now last) (pos (suc i)))
unfolding wait_on_interval
wait_on_interval-again last now i first = ground arith

wait_later :
    (last now i : ℕ)
    → 0 < last
    → last ≤ now
    → now - last < 2 ^ 63
    → suc i < 2 ^ 63
    → wait_on_interval last now (pos (suc i))
      ≡ some ((now - last) / suc i, pos (suc i - (now - last) % suc i))
wait_later last now i first le small interval =
    wait_on_interval-again last now i first
    ∙ ap (λ d. some (on_interval d (pos (suc i)))) (time_sub-later last now le small)
    ∙ ap some (on_interval-pos (now - last) i small interval)

-- A run after the first one, on an interval that is positive, with the clock not set back and the
-- differences within int64: the wait sleeps more than nothing and at most one interval, to the next
-- moment that is a whole number of intervals after the last run, and the intervals that it reports
-- as missed are those that ended before it.
pub wait_on_interval-next :
    (last now i : ℕ)
    → 0 < last
    → last ≤ now
    → now - last < 2 ^ 63
    → suc i < 2 ^ 63
    → (missed : ℕ) × (sleep : ℕ) × (wait_on_interval last now (pos (suc i))
        ≡ some (missed, pos sleep))
      × (0 < sleep)
      × (sleep ≤ suc i)
      × (now + sleep ≡ last + (suc i * missed + suc i))
wait_on_interval-next last now i first le small interval =
    let d = now - last in
    let r = mod-lt d {m = suc i} (omega arith) in
    let e = div-add-mod d (suc i) in
    (
      d / suc i,
      suc i - d % suc i,
      wait_later last now i first le small interval,
      omega arith,
      omega arith,
      omega arith,
    )
