-- ===== src/Tribe/Delivery.antt =====
-- What isDuplicate makes of a message that is delivered again.
use mathlib.Core.List.{lookup}
use snap.Base.{
  ℕ, ◌+◌, ◌%◌, ◌^◌, ◌≤◌, ◌<◌, ◌≡◌, ◌⊎◌, inl, inr, refl, ap, sym, subst, ◌∙◌, Bool, true, false,
  Option, none, some, Text, ℕ_discrete, arith, Bool-cases, Option-cases,
}
use snap.Base.Map.{put, lookup-put_self}
use snap.Tribe.{Replica, Tribe, Message, time_of, update_clock, is_duplicate, accept, buffer_length}
use snap.Tribe.Handlers.{body, handle_message}

update_twice : (inc lt : ℕ) → update_clock (update_clock inc lt) lt ≡ update_clock inc lt
unfolding update_clock
update_twice inc lt = ground arith

update_later :
    (inc lt : ℕ)
    → lt + 1 < 2 ^ 64
    → (lt < update_clock inc lt)
      × (inc ≤ update_clock inc lt)
      × ((update_clock inc lt ≡ inc) ⊎ (update_clock inc lt ≡ lt + 1))
unfolding update_clock
update_later inc lt w = ground arith

-- The state in which the handler's body runs.
abbrev pub remembered : Tribe → Message → Tribe
remembered t m = record t {
  clock = update_clock t.clock (time_of m);
  msg_buffer = put ℕ_discrete (time_of m % buffer_length) m t.msg_buffer;
}

abbrev pub ticked : Tribe → Message → Tribe
ticked t m = record t { clock = update_clock t.clock (time_of m) }

pub accept-duplicate :
    (m : Message) (run : Replica → Option (Bool × Replica)) (t : Tribe)
    → is_duplicate (ticked t m) m ≡ true
    → accept m run t ≡ some (false, ticked t m)
unfolding accept
accept-duplicate m run t d = rw (d, accept) refl

pub accept-new :
    (m : Message) (run : Replica → Option (Bool × Replica)) (t : Tribe)
    → is_duplicate (ticked t m) m ≡ false
    → accept m run t ≡ elim (run t.replica) [
      | some (again, r) ↦ some (again, record (remembered t m) { replica = r })
      | none ↦ none
    ]
unfolding accept
accept-new m run t d = rw (d, accept) refl

seen-duplicate :
    (t : Tribe) (m : Message)
    → lookup ℕ_discrete (time_of m % buffer_length) t.msg_buffer ≡ some m
    → is_duplicate t m ≡ true
unfolding is_duplicate
seen-duplicate t m e = ground arith

ticked_twice : (t : Tribe) (m : Message) → ticked (ticked t m) m ≡ ticked t m
ticked_twice t m = ap (λ c. record t { clock = c }) (update_twice t.clock (time_of m))

again-duplicate :
    (m : Message) (run : Replica → Option (Bool × Replica)) (t : Tribe)
    → ticked t m ≡ t
    → is_duplicate t m ≡ true
    → accept m run t ≡ some (false, t)
again-duplicate m run t e d =
    accept-duplicate m run t (subst (λ u. is_duplicate u m ≡ true) (sym e) d)
    ∙ ap (λ u. some (false, u)) e

-- A state whose clock is past the message and whose buffer holds it.
abbrev IsPast : Message → Tribe → Type 0
IsPast m t = (ticked t m ≡ t) × (is_duplicate t m ≡ true)

remembered-IsPast :
    (m : Message) (t : Tribe) (r : Replica) → IsPast m (record (remembered t m) { replica = r })
remembered-IsPast m t r = (
  ap (λ c. record (remembered t m) { clock = c; replica = r }) (update_twice t.clock (time_of m)),
  seen-duplicate (record (remembered t m) { replica = r }) m
      (lookup-put_self ℕ_discrete (time_of m % buffer_length) m t.msg_buffer),
)

-- What holds of a message that counts as seen and of the remembered one, holds after `accept`.
pub accept-cases {κ} :
    (P : Tribe → Type κ) (m : Message) (run : Replica → Option (Bool × Replica)) (t t1 : Tribe)
    (b : Bool)
    → (is_duplicate (ticked t m) m ≡ true → P (ticked t m))
    → ((b1 : Bool) (r : Replica)
        → run t.replica ≡ some (b1, r)
        → P (record (remembered t m) { replica = r }))
    → accept m run t ≡ some (b, t1)
    → P t1
accept-cases P m run t t1 b p q h = elim (Bool-cases (is_duplicate (ticked t m) m)) [
  | inl d ↦ subst P (cc (h, accept-duplicate m run t d)) (p d)
  | inr n ↦ elim (Option-cases (run t.replica)) [
    | inl e ↦
        let stuck : accept m run t ≡ none = rw (accept-new m run t n, e) refl in
        absurd (cc (h, stuck))
    | inr ((b1, r), e) ↦
        let ran : accept m run t ≡ some (b1, record (remembered t m) { replica = r }) =
          rw (accept-new m run t n, e) refl in
        subst P (cc (h, ran)) (q b1 r e)
  ]
]

-- A message that a node has handled to the end changes nothing when it is delivered to that node
-- again at once, and the node does not broadcast it again, whatever its type and its time.
pub handle_again :
    (local_name : Text) (fuel more : ℕ) (m : Message) (t t1 : Tribe) (b : Bool)
    → handle_message local_name fuel m t ≡ some (b, t1)
    → handle_message local_name more m t1 ≡ some (false, t1)
unfolding handle_message
handle_again local_name fuel more m t t1 b h =
    let (past, seen) : IsPast m t1 =
      accept-cases (IsPast m) m (body local_name fuel m) t t1 b (λ d. (ticked_twice t m, d))
        (λ _ r _. remembered-IsPast m t r) h in
    again-duplicate m (body local_name more m) t1 past seen

-- Once a node has handled a message, also one that it drops as seen, its clock is past the time of
-- the message: it is as before, or one past that time, and never behind the clock before, as long
-- as the time is not the largest number of 64 bits.
pub handle_message-clock :
    (local_name : Text) (fuel : ℕ) (m : Message) (t t1 : Tribe) (b : Bool)
    → time_of m + 1 < 2 ^ 64
    → handle_message local_name fuel m t ≡ some (b, t1)
    → (time_of m < t1.clock)
      × (t.clock ≤ t1.clock)
      × ((t1.clock ≡ t.clock) ⊎ (t1.clock ≡ time_of m + 1))
unfolding handle_message
handle_message-clock local_name fuel m t t1 b w h =
    let later = update_later t.clock (time_of m) w in
    accept-cases
      (λ u.
        (time_of m < u.clock)
        × (t.clock ≤ u.clock)
        × ((u.clock ≡ t.clock) ⊎ (u.clock ≡ time_of m + 1)))
      m (body local_name fuel m) t t1 b (λ _. later) (λ _ _ _. later) h
