-- ===== src/Scheduler/Task/Failures.antt =====
-- When the spin loop disables its task.
use Prim.Native.Nat.{max}
use snap.Base.{
  ℕ, suc, ◌+◌, ◌-◌, ◌%◌, ◌^◌, ◌≤◌, ◌<◌, ◌≡◌, refl, ap, ◌∙◌, Bool, true, false, List, [], ◌∷◌, map,
  Text, leb, if◌then◌else◌, arith, Bool-cases, inl, inr,
}
use snap.Base.Int.{pos, negsuc}
use snap.Scheduler.Task.{
  Task, disabled, firing, task_disabled, record_failure, record_failures, FireRun, fire, disable,
  Wakeup, active, LoopResult, goes_on, returned, count_failure, over_limit, after_fire, loop_step,
  spin_loop,
}

abbrev pub fails : FireRun → Bool
fails r = elim r.failures [ [] ↦ false | _ ∷ _ ↦ true ]

-- The length of the longest row of failing runs, with `n` failing ones before the list.
pub longest_row : ℕ → List FireRun → ℕ
longest_row n [] = n
longest_row n (r ∷ runs) = max n (longest_row (if fails r then n + 1 else 0) runs)

-- The readings of the clock grow from run to run.
abbrev pub Increasing : ℕ → List FireRun → Type 0
Increasing t [] = Unit
Increasing t (r ∷ runs) = (t < r.now) × Increasing r.now runs

abbrev pub wakeups : List (ℕ × FireRun) → List Wakeup
wakeups = map (λ w. active w.0 w.1)

abbrev pub runs : List (ℕ × FireRun) → List FireRun
runs = map (λ w. w.1)

-- The loop has returned with its task disabled.
abbrev pub disables : LoopResult → Bool
disables (goes_on t n) = false
disables (returned t e) = elim t.state [ disabled ↦ true | _ ↦ false ]

record_failures-fields :
    (t : Task) (ms : List Text)
    → ((record_failures t ms).stop_on_failure ≡ t.stop_on_failure)
      × ((record_failures t ms).last_fire_time ≡ t.last_fire_time)
      × ((record_failures t ms).last_failure_time
          ≡ elim ms [ [] ↦ t.last_failure_time | _ ∷ _ ↦ t.last_fire_time ])
unfolding record_failures record_failure
record_failures-fields t [] = (refl, refl, refl)
record_failures-fields t (m ∷ []) = (refl, refl, refl)
record_failures-fields t (m ∷ n ∷ ms) = record_failures-fields (record_failure t m) (n ∷ ms)

-- A run counts as failed exactly if it recorded a failure, as long as the clock moved on.
fire-fields :
    (t : Task) (r : FireRun) (n : ℕ)
    → t.last_failure_time < r.now
    → ((fire t r).stop_on_failure ≡ t.stop_on_failure)
      × ((fire t r).last_failure_time ≤ r.now)
      × (count_failure (fire t r) n ≡ (if fails r then n + 1 else 0))
unfolding fire count_failure
fire-fields t r n h =
    let started = record t { state = firing; last_fire_time = r.now } in
    let (limit, fired, failed) = record_failures-fields started r.failures in
    ground (arith, limit, fired, failed)

-- The task after an Active response.
fired : Task → ℕ → FireRun → Task
fired t missed r = fire (record t { missed_intervals = (t.missed_intervals + missed) % 2 ^ 64 }) r

fired-fields :
    (t : Task) (missed : ℕ) (r : FireRun) (n : ℕ)
    → t.last_failure_time < r.now
    → ((fired t missed r).stop_on_failure ≡ t.stop_on_failure)
      × ((fired t missed r).last_failure_time ≤ r.now)
      × (count_failure (fired t missed r) n ≡ (if fails r then n + 1 else 0))
unfolding fired
fired-fields t missed r n h =
    fire-fields (record t { missed_intervals = (t.missed_intervals + missed) % 2 ^ 64 }) r n h

after_fire_under :
    (t : Task) (n : ℕ) → over_limit t.stop_on_failure n ≡ false → after_fire t n ≡ goes_on t n
unfolding after_fire
after_fire_under t n h = rw (h, after_fire)

after_fire_over :
    (t : Task) (n : ℕ)
    → over_limit t.stop_on_failure n ≡ true
    → after_fire t n
      ≡ returned
          (record t { state = disabled; loops = t.loops - 1 })
          (task_disabled t.id t.last_failure_message)
unfolding after_fire disable
after_fire_over t n h = rw (h, after_fire)

le-longest_row : (n : ℕ) (rs : List FireRun) → n ≤ longest_row n rs
unfolding longest_row
le-longest_row n [] = omega arith
le-longest_row n (r ∷ rs) = omega arith

over_limit-leb : (limit n : ℕ) → over_limit (pos limit) n ≡ leb limit n
unfolding over_limit
over_limit-leb limit n = ground arith

over_limit-negsuc : (k n : ℕ) → over_limit (negsuc k) n ≡ false
unfolding over_limit
over_limit-negsuc k n = ground arith

fired-limit :
    (t : Task) (missed : ℕ) (r : FireRun) → (fired t missed r).stop_on_failure ≡ t.stop_on_failure
unfolding fired fire
fired-limit t missed r = (record_failures-fields _ r.failures).0

loop_step-active :
    (t : Task) (n missed : ℕ) (r : FireRun)
    → loop_step t n (active missed r)
      ≡ after_fire (fired t missed r) (count_failure (fired t missed r) n)
unfolding loop_step fired
loop_step-active t n missed r = refl

loop-disables :
    (limit : ℕ) (ws : List (ℕ × FireRun)) (t : Task) (n now : ℕ)
    → t.stop_on_failure ≡ pos limit
    → n < limit
    → t.last_failure_time ≤ now
    → Increasing now (runs ws)
    → disables (spin_loop t n (wakeups ws)) ≡ leb limit (longest_row n (runs ws))
unfolding spin_loop longest_row
loop-disables limit [] t n now e h old inc = ground arith
loop-disables limit ((missed, r) ∷ ws) t n now e h old inc =
    let f = fired t missed r in
    let m = if fails r then n + 1 else 0 in
    let (same, recent, counted) = fired-fields t missed r n (omega arith) in
    let test : over_limit f.stop_on_failure m ≡ leb limit m =
      rw (same, e) (over_limit-leb limit m) in
    elim (Bool-cases (leb limit m)) [
      | inl over ↦
          rw (loop_step-active t n missed r, counted, after_fire_over f m (test ∙ over), spin_loop)
            (ground (arith, le-longest_row m (runs ws)))
      | inr under ↦
          rw
            (loop_step-active t n missed r, counted, after_fire_under f m (test ∙ under), spin_loop)
            (loop-disables limit ws f m r.now (same ∙ e) (ground arith) recent inc.1 ∙ ground arith)
    ]

-- Driven by an active schedule, with a clock that moves on between runs, a task with a positive
-- limit is disabled by its spin loop exactly if some row of consecutive failing runs is as long as
-- the limit.
pub spin_disables :
    (limit : ℕ) (t : Task) (now : ℕ) (ws : List (ℕ × FireRun))
    → t.stop_on_failure ≡ pos (suc limit)
    → t.last_failure_time ≤ now
    → Increasing now (runs ws)
    → disables (spin_loop t 0 (wakeups ws)) ≡ leb (suc limit) (longest_row 0 (runs ws))
spin_disables limit t now ws e old inc =
    loop-disables (suc limit) ws t 0 now e (omega arith) old inc

-- With a negative limit no row of failures ends the loop, which takes every response.
pub spin_unlimited :
    (k : ℕ) (ws : List (ℕ × FireRun)) (t : Task) (n : ℕ)
    → t.stop_on_failure ≡ negsuc k
    → (t' : Task) × (m : ℕ) × (spin_loop t n (wakeups ws) ≡ goes_on t' m)
unfolding spin_loop
spin_unlimited k [] t n e = (t, n, refl)
spin_unlimited k ((missed, r) ∷ ws) t n e =
    let f = fired t missed r in
    let same : f.stop_on_failure ≡ negsuc k = fired-limit t missed r ∙ e in
    let m = count_failure f n in
    let under = after_fire_under f m (ap (λ l. over_limit l m) same ∙ over_limit-negsuc k m) in
    rw (loop_step-active t n missed r, under, spin_loop)
      (spin_unlimited k ws f (count_failure f n) same)
