-- ===== src/Control/Finding.antt =====
-- The plugins that are found for the keys of a list.
use snap.Base.{
  ◌≡◌, inl, inr, refl, subst, false, List, [], ◌∷◌, none, some, Text, All, Option-cases,
}
use snap.Control.{SubscribedPlugin, LoadedPlugin, subscribed_key, loaded_key}
use snap.Control.Loaded.{Loaded, get_loaded}
use snap.Control.Groups.{find_all}
use snap.Control.Keys.{AllKeys}

-- What is loaded for each of the keys is a plugin of that key, and runs on this host.
abbrev pub IsLocal : Loaded → Text → Type 0
IsLocal loaded k =
    (plg : LoadedPlugin)
    → get_loaded loaded k ≡ some plg
    → (loaded_key plg ≡ k) × (plg.is_remote ≡ false)

abbrev pub AreLocal : Loaded → List SubscribedPlugin → Type 0
AreLocal loaded = AllKeys (IsLocal loaded)

-- The plugins that are found, one for each key.
pub data AreFound : List SubscribedPlugin → List LoadedPlugin → Type 0 where
  all_found : AreFound [] []
  one_found :
      {p : SubscribedPlugin} {ps : List SubscribedPlugin} {plg : LoadedPlugin}
      {plgs : List LoadedPlugin}
      → loaded_key plg ≡ subscribed_key p
      → plg.is_remote ≡ false
      → AreFound ps plgs
      → AreFound (p ∷ ps) (plg ∷ plgs)

pub find_all-AreFound :
    (loaded : Loaded) (ps : List SubscribedPlugin) (plgs : List LoadedPlugin)
    → AreLocal loaded ps
    → find_all loaded ps ≡ some plgs
    → AreFound ps plgs
unfolding find_all
find_all-AreFound loaded [] plgs l h =
    let e : [] ≡ plgs = cc h in subst (λ qs. AreFound [] qs) e all_found
find_all-AreFound loaded (p ∷ ps) plgs l h =
    elim (Option-cases (get_loaded loaded (subscribed_key p))) [
      | inl e ↦
          let failed : find_all loaded (p ∷ ps) ≡ none = rw (e, find_all) refl in
          absurd (cc (h, failed))
      | inr (plg, e) ↦ elim (Option-cases (find_all loaded ps)) [
        | inl f ↦
            let failed : find_all loaded (p ∷ ps) ≡ none = rw (e, find_all, f) refl in
            absurd (cc (h, failed))
        | inr (rest, f) ↦
            let got : find_all loaded (p ∷ ps) ≡ some (plg ∷ rest) = rw (e, find_all, f) refl in
            let same : plg ∷ rest ≡ plgs = cc (h, got) in
            let (key, local_one) = l.0 plg e in
            subst (λ qs. AreFound (p ∷ ps) qs) same
              (one_found key local_one (find_all-AreFound loaded ps rest l.1 f))
      ]
    ]

pub AreFound-local :
    (ps : List SubscribedPlugin) (plgs : List LoadedPlugin)
    → AreFound ps plgs
    → All (λ (plg : LoadedPlugin). plg.is_remote ≡ false) plgs
AreFound-local ps [] f = tt
AreFound-local [] (plg ∷ plgs) f = elim f [ ]
AreFound-local (p ∷ ps) (plg ∷ plgs) (one_found e r f) = (r, AreFound-local ps plgs f)

pub AreFound-AllKeys :
    (Q : Text → Type 0) (ps : List SubscribedPlugin) (plgs : List LoadedPlugin)
    → AreFound ps plgs
    → All (λ plg. Q (loaded_key plg)) plgs
    → AllKeys Q ps
AreFound-AllKeys Q [] plgs f h = tt
AreFound-AllKeys Q (p ∷ ps) [] f h = elim f [ ]
AreFound-AllKeys Q (p ∷ ps) (plg ∷ plgs) (one_found e r f) h =
    (subst Q e h.0, AreFound-AllKeys Q ps plgs f h.1)
