-- ===== src/Control/Comparing.antt =====
-- What comparePlugins gives, as numbers of occurrences of each key.
use mathlib.Core.List.{lookup}
use snap.Base.{
  ℕ, zero, suc, ◌+◌, ◌-◌, ◌≡◌, ◌≢◌, ◌⊎◌, inl, inr, refl, ap, sym, ◌∙◌, List, [], ◌∷◌, Text,
  text_discrete, arith, ite, if_pos, if_neg,
}
use snap.Base.Map.{put, lookup-put}
use snap.Control.{SubscribedPlugin, subscribed_key}
use snap.Control.Groups.{count_in, count_keys, not_counted, compare_plugins}

-- How many of the plugins have the key.
abbrev pub occurrences : Text → List SubscribedPlugin → ℕ
occurrences k [] = 0
occurrences k (p ∷ ps) = ite (text_discrete (subscribed_key p) k) 1 0 + occurrences k ps

pub occurrences_same :
    (k : Text) (p : SubscribedPlugin) (ps : List SubscribedPlugin)
    → subscribed_key p ≡ k
    → occurrences k (p ∷ ps) ≡ 1 + occurrences k ps
occurrences_same k p ps e =
    ap (λ n. n + occurrences k ps) (if_pos (text_discrete (subscribed_key p) k) e 1 0)

pub occurrences_other :
    (k : Text) (p : SubscribedPlugin) (ps : List SubscribedPlugin)
    → subscribed_key p ≢ k
    → occurrences k (p ∷ ps) ≡ occurrences k ps
occurrences_other k p ps n =
    ap (λ n. n + occurrences k ps) (if_neg (text_discrete (subscribed_key p) k) n 1 0) ∙ omega arith

count_in-put :
    (k j : Text) (n : ℕ) (m : List (Text × ℕ))
    → count_in j (put text_discrete k n m) ≡ ite (text_discrete k j) n (count_in j m)
unfolding count_in
count_in-put k j n m = ground (arith, lookup-put text_discrete k j n m)

pub count_in_other :
    (k j : Text) (n : ℕ) (m : List (Text × ℕ))
    → k ≢ j
    → count_in j (put text_discrete k n m) ≡ count_in j m
count_in_other k j n m h = count_in-put k j n m ∙ if_neg (text_discrete k j) h n (count_in j m)

count_in_none : (k : Text) → count_in k [] ≡ 0
unfolding count_in lookup
count_in_none k = refl

pub count_in-count_keys :
    (k : Text) (ps : List SubscribedPlugin) → count_in k (count_keys ps) ≡ occurrences k ps
unfolding count_keys
count_in-count_keys k [] = count_in_none k
count_in-count_keys k (p ∷ ps) =
    let j : Text = subscribed_key p in
    let here = count_in-put j k (count_in j (count_keys ps) + 1) (count_keys ps) in
    elim (text_discrete j k) [
      | yes e ↦
          here
          ∙ if_pos (text_discrete j k) e _ _
          ∙ ap (λ i. count_in i (count_keys ps) + 1) e
          ∙ omega (arith, count_in-count_keys k ps, occurrences_same k p ps e)
      | no n ↦
          here
          ∙ if_neg (text_discrete j k) n _ _
          ∙ count_in-count_keys k ps
          ∙ sym (occurrences_other k p ps n)
    ]

pub not_counted-zero :
    (m : List (Text × ℕ)) (p : SubscribedPlugin) (ps : List SubscribedPlugin)
    → count_in (subscribed_key p) m ≡ 0
    → not_counted m (p ∷ ps) ≡ p ∷ not_counted m ps
unfolding not_counted
not_counted-zero m p ps e = rw (e, not_counted) refl

pub not_counted-suc :
    (m : List (Text × ℕ)) (p : SubscribedPlugin) (ps : List SubscribedPlugin) (n : ℕ)
    → count_in (subscribed_key p) m ≡ suc n
    → not_counted m (p ∷ ps) ≡ not_counted (put text_discrete (subscribed_key p) n m) ps
unfolding not_counted
not_counted-suc m p ps n e = rw (e, not_counted) refl

pub ℕ-cases : (n : ℕ) → (n ≡ 0) ⊎ ((k : ℕ) × (n ≡ suc k))
ℕ-cases zero = inl refl
ℕ-cases (suc n) = inr (n, refl)

occurrences-not_counted :
    (k : Text) (m : List (Text × ℕ)) (ps : List SubscribedPlugin)
    → occurrences k (not_counted m ps) ≡ occurrences k ps - count_in k m
unfolding not_counted
occurrences-not_counted k m [] = omega arith
occurrences-not_counted k m (p ∷ ps) = elim (ℕ-cases (count_in (subscribed_key p) m)) [
  | inl e ↦
      let ih = occurrences-not_counted k m ps in
      ap (occurrences k) (not_counted-zero m p ps e) ∙ elim (text_discrete (subscribed_key p) k) [
        | yes q ↦
            let z : count_in k m ≡ 0 = ap (λ j. count_in j m) (sym q) ∙ e in
            omega
              (arith, ih, occurrences_same k p ps q, occurrences_same k p (not_counted m ps) q, z)
        | no q ↦
            omega
              (arith, ih, occurrences_other k p ps q, occurrences_other k p (not_counted m ps) q)
      ]
  | inr (n, e) ↦
      let m1 = put text_discrete (subscribed_key p) n m in
      let ih = occurrences-not_counted k m1 ps in
      ap (occurrences k) (not_counted-suc m p ps n e) ∙ elim (text_discrete (subscribed_key p) k) [
        | yes q ↦
            let z : count_in k m ≡ suc n = ap (λ j. count_in j m) (sym q) ∙ e in
            let less =
              count_in-put (subscribed_key p) k n m
              ∙ if_pos (text_discrete (subscribed_key p) k) q n (count_in k m) in
            omega (arith, ih, occurrences_same k p ps q, z, less)
        | no q ↦
            let same =
              count_in-put (subscribed_key p) k n m
              ∙ if_neg (text_discrete (subscribed_key p) k) q n (count_in k m) in
            omega (arith, ih, occurrences_other k p ps q, same)
      ]
]

-- For every key, the plugins to subscribe are as many as the new plugins have more of it than the
-- old ones, and the plugins to unsubscribe as many as the old ones have more of it. So the old
-- plugins become the new ones by unsubscribing and subscribing, up to their order.
pub compare_plugins-occurrences :
    (k : Text) (new_plugins old_plugins : List SubscribedPlugin)
    → let (adds, removes) = compare_plugins new_plugins old_plugins in
      (occurrences k adds ≡ occurrences k new_plugins - occurrences k old_plugins)
      × (occurrences k removes ≡ occurrences k old_plugins - occurrences k new_plugins)
      × (occurrences k old_plugins + occurrences k adds
          ≡ occurrences k new_plugins + occurrences k removes)
unfolding compare_plugins
compare_plugins-occurrences k new_plugins old_plugins =
    let a =
      occurrences-not_counted k (count_keys old_plugins) new_plugins
      ∙ ap (λ n. occurrences k new_plugins - n) (count_in-count_keys k old_plugins) in
    let b =
      occurrences-not_counted k (count_keys new_plugins) old_plugins
      ∙ ap (λ n. occurrences k old_plugins - n) (count_in-count_keys k new_plugins) in
    (a, b, omega (arith, a, b))
