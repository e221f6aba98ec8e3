-- ===== src/Promise.antt =====
-- pkg/promise/promise.go: a result that is set once, and two processes that wait for each other. An
-- error is its text. Closing the channel of a promise a second time would be a panic, which is none.
pub mod Once
pub mod Meeting
mod Samples
use snap.Base.{
  ℕ, Bool, true, false, ◌&&◌, not, if◌then◌else◌, List, [], ◌∷◌, Option, none, some, Text, ltb,
  length, ◌≡◌,
}
use snap.Base.Int.{ℤ, pos, ◌<ℤ◌}

pub record Promise : Type 0 where
  pub complete : Bool
  pub errors : List Text
  pub is_closed : Bool

unfoldable pub new_promise : Promise
new_promise = record { complete = false; errors = []; is_closed = false }

unfoldable pub is_error : Promise → Bool
is_error p = p.complete && ltb 0 (length p.errors)

unfoldable pub close_channel : Promise → Option Promise
close_channel p = if p.is_closed then none else some (record p { is_closed = true })

unfoldable pub complete_with : Promise → List Text → Option Promise
complete_with p errors =
    let closed = close_channel (record p { complete = true; errors = errors }) in
    if p.complete then some p else closed

-- What AwaitUntil may return in the state of the promise in which its select goes on. `message` is
-- the error of a wait that has timed out; without a positive duration nothing times out.
pub data Awaits (message : Text) (p : Promise) (duration : ℤ) : List Text → Type 0 where
  completed : p.is_closed ≡ true → Awaits message p duration p.errors
  timed_out : pos 0 <ℤ duration → Awaits message p duration (message ∷ [])

unfoldable pub complete_all : Promise → List (List Text) → Option Promise
complete_all p [] = some p
complete_all p (e ∷ es) = elim (complete_with p e) [ none ↦ none | some q ↦ complete_all q es ]

-- Where a process is in its call of A or B.
pub data Place : Type 0 where
  before waiting after : Place

-- Two promises and the places of the processes A and B.
pub record RendezVous : Type 0 where
  pub a : Promise
  pub b : Promise
  pub at_a : Place
  pub at_b : Place

unfoldable pub new_rendez_vous : RendezVous
new_rendez_vous = record { a = new_promise; b = new_promise; at_a = before; at_b = before }

unfoldable pub is_complete : RendezVous → Bool
is_complete r = r.a.complete && r.b.complete

-- A step of one of the processes: it completes its own promise, or it goes on because the other's
-- promise is complete.
pub data Move : RendezVous → RendezVous → Type 0 where
  a_arrives :
      {r : RendezVous} {p : Promise}
      → r.at_a ≡ before
      → complete_with r.a [] ≡ some p
      → Move r (record r { a = p; at_a = waiting })
  b_arrives :
      {r : RendezVous} {p : Promise}
      → r.at_b ≡ before
      → complete_with r.b [] ≡ some p
      → Move r (record r { b = p; at_b = waiting })
  a_leaves :
      {r : RendezVous} {errors : List Text}
      → r.at_a ≡ waiting
      → Awaits [] r.b (pos 0) errors
      → Move r (record r { at_a = after })
  b_leaves :
      {r : RendezVous} {errors : List Text}
      → r.at_b ≡ waiting
      → Awaits [] r.a (pos 0) errors
      → Move r (record r { at_b = after })

pub data Moves : RendezVous → Type 0 where
  begin : Moves new_rendez_vous
  step : {r s : RendezVous} → Moves r → Move r s → Moves s
