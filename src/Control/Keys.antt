-- ===== src/Control/Keys.antt =====
-- Which keys the two sides of comparePlugins have.
use snap.Base.{
  ℕ, suc, ◌≤◌, ◌≡◌, ◌≢◌, inl, inr, refl, sym, subst, ◌∙◌, List, [], ◌∷◌, Text, text_discrete, arith,
  All,
}
use snap.Base.Map.{put}
use snap.Control.{SubscribedPlugin, subscribed_key}
use snap.Control.Groups.{count_in, not_counted}
use snap.Control.Comparing.{
  occurrences, occurrences_same, occurrences_other, count_in_other, not_counted-zero,
  not_counted-suc, ℕ-cases,
}

pub each {ℓ κ λ1} :
    {A : Type ℓ} (P : A → Type κ) (Q : A → Type λ1)
    → ((a : A) → P a → Q a)
    → (xs : List A) → All P xs
    → All Q xs
each P Q f [] h = tt
each P Q f (x ∷ xs) h = (f x h.0, each P Q f xs h.1)

-- The keys of the plugins have the property.
abbrev pub AllKeys : (Text → Type 0) → List SubscribedPlugin → Type 0
AllKeys Q = All (λ p. Q (subscribed_key p))

pub not_counted-AllKeys :
    (Q : Text → Type 0) (m : List (Text × ℕ)) (ps : List SubscribedPlugin)
    → AllKeys Q ps
    → AllKeys Q (not_counted m ps)
unfolding not_counted
not_counted-AllKeys Q m [] h = tt
not_counted-AllKeys Q m (p ∷ ps) h = elim (ℕ-cases (count_in (subscribed_key p) m)) [
  | inl e ↦
      subst (AllKeys Q) (sym (not_counted-zero m p ps e)) (h.0, not_counted-AllKeys Q m ps h.1)
  | inr (n, e) ↦
      subst (AllKeys Q) (sym (not_counted-suc m p ps n e))
        (not_counted-AllKeys Q (put text_discrete (subscribed_key p) n m) ps h.1)
]

-- What is counted or left has the property, so all have it.
pub AllKeys-not_counted :
    (Q : Text → Type 0) (m : List (Text × ℕ)) (ps : List SubscribedPlugin)
    → ((k : Text) (n : ℕ) → count_in k m ≡ suc n → Q k)
    → AllKeys Q (not_counted m ps)
    → AllKeys Q ps
unfolding not_counted
AllKeys-not_counted Q m [] f h = tt
AllKeys-not_counted Q m (p ∷ ps) f h = elim (ℕ-cases (count_in (subscribed_key p) m)) [
  | inl e ↦
      let (here, rest) : AllKeys Q (p ∷ not_counted m ps) =
        subst (AllKeys Q) (not_counted-zero m p ps e) h in
      (here, AllKeys-not_counted Q m ps f rest)
  | inr (n, e) ↦
      let k : Text = subscribed_key p in
      let own : Q k = f k n e in
      (
        own,
        AllKeys-not_counted Q (put text_discrete k n m) ps
            (λ j i c. elim (text_discrete k j) [
              | yes q ↦ subst Q q own
              | no q ↦ f j i (sym (count_in_other k j n m q) ∙ c)
            ])
            (subst (AllKeys Q) (not_counted-suc m p ps n e) h),
      )
]

pub occurrences-AllKeys :
    (Q : Text → Type 0) (k : Text) (n : ℕ) (ps : List SubscribedPlugin)
    → AllKeys Q ps
    → occurrences k ps ≡ suc n
    → Q k
occurrences-AllKeys Q k n [] h e = absurd (omega arith)
occurrences-AllKeys Q k n (p ∷ ps) h e = elim (text_discrete (subscribed_key p) k) [
  | yes q ↦ subst Q q h.0
  | no q ↦ occurrences-AllKeys Q k n ps h.1 (sym (occurrences_other k p ps q) ∙ e)
]

pub occurs_itself :
    (ps : List SubscribedPlugin) → All (λ p. 1 ≤ occurrences (subscribed_key p) ps) ps
occurs_itself [] = tt
occurs_itself (p ∷ ps) = (
  omega (arith, occurrences_same (subscribed_key p) p ps refl),
  each (λ q. 1 ≤ occurrences (subscribed_key q) ps)
      (λ q. 1 ≤ occurrences (subscribed_key q) (p ∷ ps)) (λ q h. omega arith) ps (occurs_itself ps),
)

pub never_occurs :
    (k : Text) (ps : List SubscribedPlugin) → occurrences k ps ≡ 0 → AllKeys (λ j. j ≢ k) ps
never_occurs k [] e = tt
never_occurs k (p ∷ ps) e = elim (text_discrete (subscribed_key p) k) [
  | yes q ↦ absurd (omega (arith, e, occurrences_same k p ps q))
  | no q ↦ (q, never_occurs k ps (sym (occurrences_other k p ps q) ∙ e))
]
