-- ===== src/Tribe/Buffer.antt =====
-- The rounds of processIntents, case by case.
use snap.Base.{
  ℕ, suc, ◌≡◌, inl, inr, refl, sym, subst, ◌∙◌, Bool, true, false, List, [], ◌∷◌, ◌++◌, none, some,
  Text, All, Option-cases,
}
use snap.Tribe.{Replica, Message}
use snap.Tribe.Intents.{
  Attempt, first_applied, process_loop, process_each, attempts, process_intents,
}

-- The attempt passes over every message of the list.
abbrev pub PassesOver : Attempt → Replica → List Message → Type 0
PassesOver attempt r = All (λ v. attempt r v ≡ none)

first_applied-pass :
    (attempt : Attempt) (r : Replica) (v : Message) (vs : List Message)
    → attempt r v ≡ none
    → first_applied attempt r (v ∷ vs)
      ≡ elim (first_applied attempt r vs) [ none ↦ none | some (r1, left) ↦ some (r1, v ∷ left) ]
unfolding first_applied
first_applied-pass attempt r v vs e = rw (e, first_applied) refl

pub first_applied-remove :
    (attempt : Attempt) (r r1 : Replica) (v : Message) (vs : List Message)
    → attempt r v ≡ some (true, r1)
    → first_applied attempt r (v ∷ vs) ≡ some (r1, vs)
unfolding first_applied
first_applied-remove attempt r r1 v vs e = rw (e, first_applied) refl

pub first_applied-keep :
    (attempt : Attempt) (r r1 : Replica) (v : Message) (vs : List Message)
    → attempt r v ≡ some (false, r1)
    → first_applied attempt r (v ∷ vs) ≡ some (r1, v ∷ vs)
unfolding first_applied
first_applied-keep attempt r r1 v vs e = rw (e, first_applied) refl

pub first_applied-none :
    (attempt : Attempt) (r : Replica) (vs : List Message)
    → PassesOver attempt r vs
    → first_applied attempt r vs ≡ none
unfolding first_applied
first_applied-none attempt r [] p = refl
first_applied-none attempt r (v ∷ vs) p =
    rw (first_applied-pass attempt r v vs p.0, first_applied-none attempt r vs p.1) refl

pub first_applied-after :
    (attempt : Attempt) (r r1 : Replica) (before vs : List Message) (v : Message)
    → PassesOver attempt r before
    → attempt r v ≡ some (true, r1)
    → first_applied attempt r (before ++ v ∷ vs) ≡ some (r1, before ++ vs)
first_applied-after attempt r r1 [] vs v p e = first_applied-remove attempt r r1 v vs e
first_applied-after attempt r r1 (w ∷ before) vs v p e =
    rw
      (
        first_applied-pass attempt r w (before ++ v ∷ vs) p.0,
        first_applied-after attempt r r1 before vs v p.1 e,
      )
      refl

-- What a loop gives is what a message of the buffer gives, after those that it passes over.
pub data Applied (attempt : Attempt) (r r1 : Replica) : List Message → List Message → Type 0 where
  removed :
      {v : Message} {vs : List Message}
      → attempt r v ≡ some (true, r1)
      → Applied attempt r r1 (v ∷ vs) vs
  kept :
      {v : Message} {vs : List Message}
      → attempt r v ≡ some (false, r1)
      → Applied attempt r r1 (v ∷ vs) (v ∷ vs)
  passed :
      {v : Message} {vs left : List Message}
      → attempt r v ≡ none
      → Applied attempt r r1 vs left
      → Applied attempt r r1 (v ∷ vs) (v ∷ left)

Applied-moved :
    (attempt : Attempt) (r r1 r2 : Replica) (vs left left2 : List Message)
    → first_applied attempt r vs ≡ some (r1, left)
    → first_applied attempt r vs ≡ some (r2, left2)
    → Applied attempt r r2 vs left2
    → Applied attempt r r1 vs left
Applied-moved attempt r r1 r2 vs left left2 h q a =
    let e : r2 ≡ r1 = cc (h, q) in
    let f : left2 ≡ left = cc (h, q) in
    subst (λ l. Applied attempt r r1 vs l) f (subst (λ s. Applied attempt r s vs left2) e a)

pub first_applied-Applied :
    (attempt : Attempt) (r r1 : Replica) (vs left : List Message)
    → first_applied attempt r vs ≡ some (r1, left)
    → Applied attempt r r1 vs left
unfolding first_applied
first_applied-Applied attempt r r1 [] left h = absurd (cc h)
first_applied-Applied attempt r r1 (v ∷ vs) left h = elim (Option-cases (attempt r v)) [
  | inl e ↦ elim (Option-cases (first_applied attempt r vs)) [
    | inl q ↦
        let none_left : first_applied attempt r (v ∷ vs) ≡ none =
          rw (first_applied-pass attempt r v vs e, q) refl in
        absurd (cc (h, none_left))
    | inr ((r2, left2), q) ↦
        let some_left : first_applied attempt r (v ∷ vs) ≡ some (r2, v ∷ left2) =
          rw (first_applied-pass attempt r v vs e, q) refl in
        Applied-moved attempt r r1 r2 (v ∷ vs) left (v ∷ left2) h some_left
          (passed e (first_applied-Applied attempt r r2 vs left2 q))
  ]
  | inr ((true, r2), e) ↦
      Applied-moved attempt r r1 r2 (v ∷ vs) left vs h (first_applied-remove attempt r r2 v vs e)
        (removed e)
  | inr ((false, r2), e) ↦
      Applied-moved attempt r r1 r2 (v ∷ vs) left (v ∷ vs) h
        (first_applied-keep attempt r r2 v vs e) (kept e)
]

pub process_loop-none :
    (attempt : Attempt) (r : Replica)
    → first_applied attempt r r.intent_buffer ≡ none
    → process_loop attempt r ≡ (true, r)
unfolding process_loop
process_loop-none attempt r e = rw (e, process_loop) refl

pub process_loop-some :
    (attempt : Attempt) (r r1 : Replica) (left : List Message)
    → first_applied attempt r r.intent_buffer ≡ some (r1, left)
    → process_loop attempt r ≡ (false, record r1 { intent_buffer = left })
unfolding process_loop
process_loop-some attempt r r1 left e = rw (e, process_loop) refl

pub process_each-next :
    (attempt : Attempt) (todo : List Attempt) (r : Replica)
    → first_applied attempt r r.intent_buffer ≡ none
    → process_each (attempt ∷ todo) r ≡ process_each todo r
unfolding process_each
process_each-next attempt todo r e = rw (process_loop-none attempt r e, process_each) refl

pub process_each-here :
    (attempt : Attempt) (todo : List Attempt) (r r1 : Replica) (left : List Message)
    → first_applied attempt r r.intent_buffer ≡ some (r1, left)
    → process_each (attempt ∷ todo) r ≡ (false, record r1 { intent_buffer = left })
unfolding process_each
process_each-here attempt todo r r1 left e =
    rw (process_loop-some attempt r r1 left e, process_each) refl

pub process_each-settled :
    (todo : List Attempt) (r : Replica)
    → All (λ attempt. PassesOver attempt r r.intent_buffer) todo
    → process_each todo r ≡ (true, r)
unfolding process_each
process_each-settled [] r p = refl
process_each-settled (attempt ∷ todo) r p =
    process_each-next attempt todo r (first_applied-none attempt r r.intent_buffer p.0)
    ∙ process_each-settled todo r p.1

pub process_intents-settled :
    (local_name : Text) (fuel : ℕ) (r r1 : Replica)
    → process_each (attempts local_name) r ≡ (true, r1)
    → process_intents local_name (suc fuel) r ≡ some r1
unfolding process_intents
process_intents-settled local_name fuel r r1 e = rw (e, process_intents) refl

pub process_intents-round :
    (local_name : Text) (fuel : ℕ) (r r1 : Replica)
    → process_each (attempts local_name) r ≡ (false, r1)
    → process_intents local_name (suc fuel) r ≡ process_intents local_name fuel r1
unfolding process_intents
process_intents-round local_name fuel r r1 e = rw (e, process_intents) refl

-- What the eight loops give: all pass over the buffer, or one of them is applied after those
-- before it.
pub data Round (r : Replica) : List Attempt → Bool × Replica → Type 0 where
  over : Round r [] (true, r)
  next :
      {attempt : Attempt} {todo : List Attempt} {out : Bool × Replica}
      → Round r todo out
      → Round r (attempt ∷ todo) out
  here :
      {attempt : Attempt} {todo : List Attempt} {r1 : Replica} {left : List Message}
      → Applied attempt r r1 r.intent_buffer left
      → Round r (attempt ∷ todo) (false, record r1 { intent_buffer = left })

pub process_each-Round : (todo : List Attempt) (r : Replica) → Round r todo (process_each todo r)
unfolding process_each
process_each-Round [] r = over
process_each-Round (attempt ∷ todo) r =
    elim (Option-cases (first_applied attempt r r.intent_buffer)) [
      | inl e ↦
          subst (Round r (attempt ∷ todo)) (sym (process_each-next attempt todo r e))
            (next (process_each-Round todo r))
      | inr ((r1, left), e) ↦
          subst (Round r (attempt ∷ todo)) (sym (process_each-here attempt todo r r1 left e))
            (here (first_applied-Applied attempt r r1 r.intent_buffer left e))
    ]
