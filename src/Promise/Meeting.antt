-- ===== src/Promise/Meeting.antt =====
-- That the two processes of a rendez-vous wait for each other, and neither waits for ever.
use snap.Base.{
  ℕ, ◌+◌, ◌≤◌, ◌≡◌, ◌⊎◌, inl, inr, refl, sym, ap, ◌∙◌, Bool, true, false, List, [], Text, arith,
  ◌&&◌,
}
use mathlib.Core.Path.{ap₂}
use snap.Base.Int.{pos}
use snap.Promise.{
  Promise, new_promise, Awaits, completed, timed_out, Place, before, waiting, after, RendezVous,
  new_rendez_vous, Move, a_arrives, b_arrives, a_leaves, b_leaves, Moves, begin, step, is_complete,
}
use snap.Promise.Once.{IsSound, complete_with-first, complete_with-IsSound}

abbrev pub has_begun : Place → Bool
has_begun before = false
has_begun _ = true

abbrev pub has_left : Place → Bool
has_left after = true
has_left _ = false

-- A promise is complete exactly when its process has arrived, and a process has left only if the
-- other one has arrived.
record Inv (r : RendezVous) : Type 0 where
  sound_a : IsSound r.a
  sound_b : IsSound r.b
  arrived_a : r.a.complete ≡ has_begun r.at_a
  arrived_b : r.b.complete ≡ has_begun r.at_b
  order_a : has_left r.at_a ≡ true → has_begun r.at_b ≡ true
  order_b : has_left r.at_b ≡ true → has_begun r.at_a ≡ true

awaited :
    (p : Promise) (errors : List Text) → IsSound p → Awaits [] p (pos 0) errors → p.complete ≡ true
awaited p errors s (completed e) = s ∙ e
awaited p errors s (timed_out e) = absurd (omega arith)

step-Inv : (r s : RendezVous) → Inv r → Move r s → Inv s
step-Inv r s v (a_arrives {p = p} h e) =
    let (done, sound) = complete_with-IsSound r.a p [] v.sound_a e in
    record {
      sound_a = sound;
      sound_b = v.sound_b;
      arrived_a = done;
      arrived_b = v.arrived_b;
      order_a = λ x. absurd (cc x);
      order_b = λ x. refl;
    }
step-Inv r s v (b_arrives {p = p} h e) =
    let (done, sound) = complete_with-IsSound r.b p [] v.sound_b e in
    record {
      sound_a = v.sound_a;
      sound_b = sound;
      arrived_a = v.arrived_a;
      arrived_b = done;
      order_a = λ x. refl;
      order_b = λ x. absurd (cc x);
    }
step-Inv r s v (a_leaves {errors = errors} h w) = record {
  sound_a = v.sound_a;
  sound_b = v.sound_b;
  arrived_a = v.arrived_a ∙ ap has_begun h;
  arrived_b = v.arrived_b;
  order_a = λ x. sym v.arrived_b ∙ awaited r.b errors v.sound_b w;
  order_b = λ x. refl;
}
step-Inv r s v (b_leaves {errors = errors} h w) = record {
  sound_a = v.sound_a;
  sound_b = v.sound_b;
  arrived_a = v.arrived_a;
  arrived_b = v.arrived_b ∙ ap has_begun h;
  order_a = λ x. refl;
  order_b = λ x. sym v.arrived_a ∙ awaited r.a errors v.sound_a w;
}

Moves-Inv : (r : RendezVous) → Moves r → Inv r
unfolding new_rendez_vous new_promise
Moves-Inv r begin = record {
  sound_a = refl;
  sound_b = refl;
  arrived_a = refl;
  arrived_b = refl;
  order_a = λ x. absurd (cc x);
  order_b = λ x. absurd (cc x);
}
Moves-Inv r (step {r = q} before_r s) = step-Inv q r (Moves-Inv q before_r) s

-- In every state that the two processes can reach, a process has gone on only if the other one has
-- arrived, and IsComplete tells that both have arrived.
pub neither_goes_alone :
    (r : RendezVous)
    → Moves r
    → (has_left r.at_a ≡ true → has_begun r.at_b ≡ true)
      × (has_left r.at_b ≡ true → has_begun r.at_a ≡ true)
      × (is_complete r ≡ (has_begun r.at_a && has_begun r.at_b))
unfolding is_complete
neither_goes_alone r reach =
    let v = Moves-Inv r reach in (v.order_a, v.order_b, ap₂ ◌&&◌ v.arrived_a v.arrived_b)

-- The steps that a process has before it.
abbrev to_go : Place → ℕ
to_go before = 2
to_go waiting = 1
to_go after = 0

abbrev pub steps_left : RendezVous → ℕ
steps_left r = to_go r.at_a + to_go r.at_b

step-steps_left : (r s : RendezVous) → Move r s → steps_left r ≡ steps_left s + 1
step-steps_left r s (a_arrives h e) = omega (arith, ap to_go h)
step-steps_left r s (b_arrives h e) = omega (arith, ap to_go h)
step-steps_left r s (a_leaves h w) = omega (arith, ap to_go h)
step-steps_left r s (b_leaves h w) = omega (arith, ap to_go h)

Place-cases : (x : Place) → (x ≡ before) ⊎ ((x ≡ waiting) ⊎ (x ≡ after))
Place-cases before = inl refl
Place-cases waiting = inr (inl refl)
Place-cases after = inr (inr refl)

not_complete :
    (p : Promise) (x : Place) → p.complete ≡ has_begun x → x ≡ before → p.complete ≡ false
not_complete p x e h = e ∙ ap has_begun h

a_may_arrive : (r : RendezVous) → Inv r → r.at_a ≡ before → (s : RendezVous) × Move r s
a_may_arrive r v h =
    (_, a_arrives h (complete_with-first r.a [] v.sound_a (not_complete r.a r.at_a v.arrived_a h)))

b_may_arrive : (r : RendezVous) → Inv r → r.at_b ≡ before → (s : RendezVous) × Move r s
b_may_arrive r v h =
    (_, b_arrives h (complete_with-first r.b [] v.sound_b (not_complete r.b r.at_b v.arrived_b h)))

begun : (x : Place) → (x ≡ waiting) ⊎ (x ≡ after) → has_begun x ≡ true
begun x (inl e) = ap has_begun e
begun x (inr e) = ap has_begun e

-- From every state that can be reached, unless both processes have gone on, one of them can take a
-- step, and there are no more than four steps in all: each step leaves one less. So two processes
-- that are scheduled always get past the rendez-vous, in whatever order.
pub both_go_on :
    (r : RendezVous)
    → Moves r
    → (((r.at_a ≡ after) × (r.at_b ≡ after)) ⊎ ((s : RendezVous) × Move r s))
      × (steps_left r ≤ 4)
      × ((s : RendezVous) → Move r s → steps_left r ≡ steps_left s + 1)
both_go_on r reach =
    let v = Moves-Inv r reach in (progress r v, bound r, λ s st. step-steps_left r s st)
  where
    bound : (r : RendezVous) → steps_left r ≤ 4
    bound r = ground arith

    progress :
        (r : RendezVous)
        → Inv r
        → ((r.at_a ≡ after) × (r.at_b ≡ after)) ⊎ ((s : RendezVous) × Move r s)
    progress r v = elim (Place-cases r.at_a) [
      | inl a ↦ inr (a_may_arrive r v a)
      | inr a ↦ elim (Place-cases r.at_b) [
        | inl b ↦ inr (b_may_arrive r v b)
        | inr b ↦ elim a [
          | inl wa ↦
              let closed : r.b.is_closed ≡ true = sym v.sound_b ∙ v.arrived_b ∙ begun r.at_b b in
              inr (_, a_leaves wa (completed closed))
          | inr la ↦ elim b [
            | inl wb ↦
                let closed : r.a.is_closed ≡ true =
                  sym v.sound_a ∙ v.arrived_a ∙ begun r.at_a (inr la) in
                inr (_, b_leaves wb (completed closed))
            | inr lb ↦ inl (la, lb)
          ]
        ]
      ]
    ]
