-- ===== src/Scheduler/Task/Shutdown.antt =====
-- What becomes of a running task that the scheduler kills as it stops.
use snap.Base.{ℕ, ◌≡◌, refl, ◌-◌, ap, sym, ◌∙◌, ◌⊎◌, inl, inr, some, true, arith}
use snap.Scheduler.Task.{
  Task, TaskState, disabled, stopped, spinning, firing, kill, close_kill, loop_step, kill_received,
  returned, task_stopped, spin, begin,
}

close_kill-some :
    (t t' : Task) (s : TaskState)
    → close_kill t s ≡ some t'
    → t' ≡ record t { kill_closed = true; state = s }
unfolding close_kill
close_kill-some t t' s h = ground arith

kill-spinning : (t : Task) → t.state ≡ spinning → kill t ≡ close_kill t disabled
unfolding kill
kill-spinning t e = ground arith

kill-firing : (t : Task) → t.state ≡ firing → kill t ≡ close_kill t disabled
unfolding kill
kill-firing t e = ground arith

kill-running :
    (t t' : Task)
    → (t.state ≡ spinning) ⊎ (t.state ≡ firing)
    → kill t ≡ some t'
    → t' ≡ record t { kill_closed = true; state = disabled }
kill-running t t' (inl e) h = close_kill-some t t' disabled (sym (kill-spinning t e) ∙ h)
kill-running t t' (inr e) h = close_kill-some t t' disabled (sym (kill-firing t e) ∙ h)

spin-stopped : (t : Task) → t.state ≡ stopped → (spin t).state ≡ spinning
unfolding spin begin
spin-stopped t e = ground arith

-- A kill makes a running task disabled, but only until its spin loop receives the kill: the loop
-- then ends with the task stopped, one that a start takes up again.
pub kill-loop_step :
    (t t' : Task) (n : ℕ)
    → (t.state ≡ spinning) ⊎ (t.state ≡ firing)
    → kill t ≡ some t'
    → (t'.state ≡ disabled)
      × ((u : Task) × (loop_step t' n kill_received ≡ returned u (task_stopped t.id))
          × (u.state ≡ stopped)
          × ((spin u).state ≡ spinning))
unfolding loop_step
kill-loop_step t t' n running h =
    let e = kill-running t t' running h in
    let u = record t' { loops = t'.loops - 1; state = stopped; last_fire_time = 0 } in
    (
      ap (λ x. x.state) e,
      (u, ap (λ x. returned u (task_stopped x.id)) e, refl, spin-stopped u refl),
    )
