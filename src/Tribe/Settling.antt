-- ===== src/Tribe/Settling.antt =====
-- That processIntents comes to its end when no join message waits: every round that does anything
-- takes a message out of the buffer.
use snap.Base.{
  ℕ, zero, suc, ◌<◌, ◌≡◌, ◌≢◌, inl, inr, refl, ap, ◌∙◌, Bool, true, false, List, [], ◌∷◌, some,
  Text, arith, All, length, Bool-cases,
}
use snap.Tribe.{Replica, Message, join_agreement_msg}
use snap.Tribe.Intents.{
  Attempt, try_add_plugin, try_remove_plugin, try_add_task, try_remove_task, try_add_agreement,
  try_remove_agreement, try_join, try_leave, process_each, attempts, process_intents,
}
use snap.Tribe.Buffer.{
  Applied, removed, kept, passed, Round, over, next, here, process_each-Round,
  process_intents-settled, process_intents-round,
}

abbrev pub is_join : Message → Bool
is_join (join_agreement_msg m) = true
is_join _ = false

abbrev pub NoJoin : List Message → Type 0
NoJoin = All (λ v. is_join v ≡ false)

-- About a message that is no join message, an attempt does nothing or has it removed.
abbrev Removes : Attempt → Type 0
Removes attempt =
    (r r1 : Replica) (v : Message) → is_join v ≡ false → attempt r v ≢ some (false, r1)

add_plugin-Removes : Removes try_add_plugin
unfolding try_add_plugin
add_plugin-Removes r r1 v n h = ground arith

remove_plugin-Removes : Removes try_remove_plugin
unfolding try_remove_plugin
remove_plugin-Removes r r1 v n h = ground arith

add_task-Removes : Removes try_add_task
unfolding try_add_task
add_task-Removes r r1 v n h = ground arith

remove_task-Removes : Removes try_remove_task
unfolding try_remove_task
remove_task-Removes r r1 v n h = ground arith

add_agreement-Removes : Removes try_add_agreement
unfolding try_add_agreement
add_agreement-Removes r r1 v n h = ground arith

remove_agreement-Removes : Removes try_remove_agreement
unfolding try_remove_agreement
remove_agreement-Removes r r1 v n h = ground arith

join-Removes : (local_name : Text) → Removes (try_join local_name)
unfolding try_join
join-Removes local_name r r1 v n h = ground arith

leave-Removes : Removes try_leave
unfolding try_leave
leave-Removes r r1 v n h = ground arith

-- What the loops leave of a buffer without join messages.
abbrev Shorter : List Message → List Message → Type 0
Shorter vs left = NoJoin left × (suc (length left) ≡ length vs)

Applied-Shorter :
    (attempt : Attempt) (r r1 : Replica) (vs left : List Message)
    → Removes attempt
    → NoJoin vs
    → Applied attempt r r1 vs left
    → Shorter vs left
Applied-Shorter attempt r r1 [] left rem n a = elim a [ ]
Applied-Shorter attempt r r1 (v ∷ vs) left rem n (removed e) = (n.1, refl)
Applied-Shorter attempt r r1 (v ∷ vs) left rem n (kept e) = absurd (rem r r1 v n.0 e)
Applied-Shorter attempt r r1 (v ∷ vs) (w ∷ left) rem n (passed e a) =
    let (rest, shorter) = Applied-Shorter attempt r r1 vs left rem n.1 a in
    ((n.0, rest), ap (λ k. suc k) shorter)

Round-Shorter :
    (todo : List Attempt) (r : Replica) (out : Bool × Replica)
    → All Removes todo
    → NoJoin r.intent_buffer
    → Round r todo out
    → out.0 ≡ false
    → Shorter r.intent_buffer out.1.intent_buffer
Round-Shorter [] r out rem n over f = absurd (cc f)
Round-Shorter (attempt ∷ todo) r out rem n (next later) f = Round-Shorter todo r out rem.1 n later f
Round-Shorter (attempt ∷ todo) r out rem n (here a) f =
    Applied-Shorter attempt r _ r.intent_buffer _ rem.0 n a

attempts-Removes : (local_name : Text) → All Removes (attempts local_name)
unfolding attempts
attempts-Removes local_name = (
  add_plugin-Removes,
  (
    remove_plugin-Removes,
    (
      add_agreement-Removes,
      (
        remove_agreement-Removes,
        (join-Removes local_name, (leave-Removes, (add_task-Removes, (remove_task-Removes, tt)))),
      ),
    ),
  ),
)

-- When no join message waits, a round more than there are waiting messages is enough for
-- processIntents to come to its end, whatever the agreements and the members are.
pub process_intents-settles :
    (local_name : Text) (fuel : ℕ) (r : Replica)
    → NoJoin r.intent_buffer
    → length r.intent_buffer < fuel
    → (s : Replica) × (process_intents local_name fuel r ≡ some s)
unfolding process_intents
process_intents-settles local_name zero r n l = absurd (omega arith)
process_intents-settles local_name (suc fuel) r n l =
    let out : Bool × Replica = process_each (attempts local_name) r in
    let round = process_each-Round (attempts local_name) r in
    elim (Bool-cases out.0) [
      | inl t ↦ (out.1, process_intents-settled local_name fuel r out.1 (cc t))
      | inr f ↦
          let (n1, shorter) = Round-Shorter _ r out (attempts-Removes local_name) n round f in
          let (s, e) = process_intents-settles local_name fuel out.1 n1 (omega arith) in
          (s, process_intents-round local_name fuel r out.1 (cc f) ∙ e)
    ]
