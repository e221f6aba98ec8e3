-- ===== src/Promise/Once.antt =====
-- That a promise is completed once.
use snap.Base.{◌≡◌, ◌⊎◌, inl, inr, refl, true, false, List, [], ◌∷◌, some, Text, arith}
use snap.Base.Int.{ℤ, pos, ◌<ℤ◌}
use snap.Promise.{
  Promise, new_promise, close_channel, complete_with, complete_all, Awaits, completed, timed_out,
}

-- The channel is closed as soon as the promise is complete.
abbrev pub IsSound : Promise → Type 0
IsSound p = p.complete ≡ p.is_closed

pub complete_with-again :
    (p : Promise) (errors : List Text) → p.complete ≡ true → complete_with p errors ≡ some p
unfolding complete_with
complete_with-again p errors h = ground arith

pub complete_with-first :
    (p : Promise) (errors : List Text)
    → IsSound p
    → p.complete ≡ false
    → complete_with p errors ≡ some (record { complete = true; errors = errors; is_closed = true })
unfolding complete_with close_channel
complete_with-first p errors s h = ground arith

-- What the first completion makes of a promise.
pub complete_with-IsSound :
    (p q : Promise) (errors : List Text)
    → IsSound p
    → complete_with p errors ≡ some q
    → (q.complete ≡ true) × IsSound q
unfolding complete_with close_channel
complete_with-IsSound p q errors s h = ground arith

complete_all-complete :
    (p : Promise) (es : List (List Text)) → p.complete ≡ true → complete_all p es ≡ some p
unfolding complete_all
complete_all-complete p [] h = refl
complete_all-complete p (e ∷ es) h =
    rw (complete_with-again p e h, complete_all) (complete_all-complete p es h)

Awaits-cases :
    (message : Text) (p : Promise) (duration : ℤ) (errors : List Text)
    → Awaits message p duration errors
    → (errors ≡ p.errors) ⊎ ((errors ≡ message ∷ []) × (pos 0 <ℤ duration))
Awaits-cases message p duration errors (completed e) = inl refl
Awaits-cases message p duration errors (timed_out e) = inr (refl, e)

-- However often a new promise is completed, nothing panics, and only the first completion counts:
-- every wait that begins or goes on after it returns the errors of the first completion, or the
-- error of its own time-out, the latter only if it was given a positive duration.
pub complete_all-first :
    (first : List Text) (es : List (List Text))
    → (p : Promise) × (complete_all new_promise (first ∷ es) ≡ some p)
      × ((message : Text) (duration : ℤ) (errors : List Text)
          → Awaits message p duration errors
          → (errors ≡ first) ⊎ ((errors ≡ message ∷ []) × (pos 0 <ℤ duration)))
unfolding complete_all new_promise
complete_all-first first es =
    let p : Promise = record { complete = true; errors = first; is_closed = true } in
    (
      p,
      rw (complete_with-first new_promise first refl refl, complete_all)
          (complete_all-complete p es refl),
      λ message duration errors w. Awaits-cases message p duration errors w,
    )
