-- ===== src/Tribe/Frame.antt =====
-- What every attempt keeps, processIntents keeps.
use snap.Base.{
  ℕ, zero, suc, inl, inr, sym, subst, Bool, List, [], ◌∷◌, Option, none, some, Text, All,
  Bool-cases,
}
use snap.Tribe.{Replica, Message}
use snap.Tribe.Intents.{Attempt, process_each, attempts, process_intents}
use snap.Tribe.Buffer.{
  Applied, removed, kept, passed, Round, over, next, here, process_each-Round,
  process_intents-settled, process_intents-round,
}

module _ (P : Replica → Type 0) where
  -- If there is a state after it, it has the property.
  abbrev pub After : Option (Bool × Replica) → Type 0
  After none = Unit
  After (some (b, r)) = P r

  abbrev pub AfterIntents : Option Replica → Type 0
  AfterIntents none = Unit
  AfterIntents (some r) = P r

  abbrev pub Keeps : Attempt → Type 0
  Keeps attempt = (r : Replica) (v : Message) → P r → After (attempt r v)

  abbrev pub IgnoresBuffer : Type 0
  IgnoresBuffer = (r : Replica) (vs : List Message) → P r → P (record r { intent_buffer = vs })

  Applied-keeps :
      (attempt : Attempt) (r r1 : Replica) (vs left : List Message)
      → Keeps attempt
      → P r
      → Applied attempt r r1 vs left
      → P r1
  Applied-keeps attempt r r1 [] left k p a = elim a [ ]
  Applied-keeps attempt r r1 (v ∷ vs) left k p (removed e) = subst After e (k r v p)
  Applied-keeps attempt r r1 (v ∷ vs) left k p (kept e) = subst After e (k r v p)
  Applied-keeps attempt r r1 (v ∷ vs) (w ∷ left) k p (passed e a) =
      Applied-keeps attempt r r1 vs left k p a

  Round-keeps :
      (todo : List Attempt) (r : Replica) (out : Bool × Replica)
      → All Keeps todo
      → IgnoresBuffer
      → P r
      → Round r todo out
      → P out.1
  Round-keeps [] r out k i p over = p
  Round-keeps (attempt ∷ todo) r out k i p (next later) = Round-keeps todo r out k.1 i p later
  Round-keeps (attempt ∷ todo) r out k i p (here {r1 = r1} {left = left} a) =
      i r1 left (Applied-keeps attempt r r1 r.intent_buffer left k.0 p a)

  pub process_intents-Keeps :
      (local_name : Text) (fuel : ℕ) (r : Replica)
      → All Keeps (attempts local_name)
      → IgnoresBuffer
      → P r
      → AfterIntents (process_intents local_name fuel r)
  unfolding process_intents
  process_intents-Keeps local_name zero r k i p = tt
  process_intents-Keeps local_name (suc fuel) r k i p =
      let out : Bool × Replica = process_each (attempts local_name) r in
      let p1 : P out.1 = Round-keeps _ r out k i p (process_each-Round (attempts local_name) r) in
      elim (Bool-cases out.0) [
        | inl t ↦
            subst AfterIntents (sym (process_intents-settled local_name fuel r out.1 (cc t))) p1
        | inr f ↦
            subst AfterIntents (sym (process_intents-round local_name fuel r out.1 (cc f)))
              (process_intents-Keeps local_name fuel out.1 k i p1)
      ]
