-- ===== src/Promise/Samples.antt =====
-- Runs of promises and of a rendez-vous in which A has arrived.
use snap.Base.{◌+◌, ◌≤◌, ◌≡◌, ◌⊎◌, refl, true, ◌&&◌, List, [], ◌∷◌, some, Text}
use snap.Base.Int.{ℤ, pos, ◌<ℤ◌}
use snap.Promise.{
  Promise, new_promise, close_channel, complete_with, complete_all, Awaits, after, waiting,
  RendezVous, new_rendez_vous, Move, a_arrives, begin, step, is_complete,
}
use snap.Promise.Once.{complete_all-first}
use snap.Promise.Meeting.{neither_goes_alone, both_go_on, has_begun, has_left, steps_left}

abbrev failed : List Text
failed = (101 ∷ []) ∷ []

complete_all-first_example :
    (p : Promise) × (complete_all new_promise (failed ∷ [] ∷ []) ≡ some p)
    × ((message : Text) (duration : ℤ) (errors : List Text)
        → Awaits message p duration errors
        → (errors ≡ failed) ⊎ ((errors ≡ message ∷ []) × (pos 0 <ℤ duration)))
complete_all-first_example = complete_all-first failed ([] ∷ [])

abbrev finished : Promise
finished = record { complete = true; errors = []; is_closed = true }

abbrev one_waits : RendezVous
one_waits = record new_rendez_vous { a = finished; at_a = waiting }

first_step : Move new_rendez_vous one_waits
unfolding new_rendez_vous new_promise complete_with close_channel
first_step = a_arrives {p = finished} refl refl

neither_goes_alone_example :
    (has_left one_waits.at_a ≡ true → has_begun one_waits.at_b ≡ true)
    × (has_left one_waits.at_b ≡ true → has_begun one_waits.at_a ≡ true)
    × (is_complete one_waits ≡ (has_begun one_waits.at_a && has_begun one_waits.at_b))
neither_goes_alone_example = neither_goes_alone one_waits (step begin first_step)

both_go_on_example :
    (((one_waits.at_a ≡ after) × (one_waits.at_b ≡ after)) ⊎ ((s : RendezVous) × Move one_waits s))
    × (steps_left one_waits ≤ 4)
    × ((s : RendezVous) → Move one_waits s → steps_left one_waits ≡ steps_left s + 1)
both_go_on_example = both_go_on one_waits (step begin first_step)
