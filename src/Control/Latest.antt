-- ===== src/Control/Latest.antt =====
-- Which plugin is the latest one.
use snap.Base.{
  ◌≡◌, ◌⊎◌, inl, inr, refl, sym, subst, ◌∙◌, Bool, true, false, ◌&&◌, if◌then◌else◌, [], ◌∷◌, none,
  some, Text, arith, All, Option-cases, Bool-cases,
}
use snap.Base.Int.{ltb_ℤ, ◌≤ℤ◌}
use snap.Control.{LoadedPlugin}
use snap.Control.Loaded.{Loaded, is_called, first_called, newest, find_latest}

and_left : (a b : Bool) → (a && b) ≡ true → a ≡ true
and_left true b h = refl
and_left false b h = cc

module _ (type_name name : Text) where
  -- No plugin of the type and the name has a greater version.
  abbrev pub IsGreatest : Loaded → LoadedPlugin → Type 0
  IsGreatest l latest =
      All
        (λ (e : Text × LoadedPlugin).
          is_called type_name name e.1 ≡ true → e.1.version ≤ℤ latest.version)
        l

  newest-start :
      (l : Loaded) (latest : LoadedPlugin)
      → latest.version ≤ℤ (newest type_name name l latest).version
  unfolding newest
  newest-start [] latest = omega arith
  newest-start ((k, lp) ∷ l) latest = ground (arith, newest-start l latest, newest-start l lp)

  abbrev newer : LoadedPlugin → LoadedPlugin → LoadedPlugin
  newer latest lp =
      if is_called type_name name lp && ltb_ℤ latest.version lp.version then lp else latest

  newer-called :
      (latest lp : LoadedPlugin)
      → is_called type_name name latest ≡ true
      → is_called type_name name (newer latest lp) ≡ true
  newer-called latest lp h =
      elim (Bool-cases (is_called type_name name lp && ltb_ℤ latest.version lp.version)) [
        | inl e ↦
            subst (λ b. is_called type_name name (if b then lp else latest) ≡ true) (sym e)
              (and_left (is_called type_name name lp) _ e)
        | inr e ↦ subst (λ b. is_called type_name name (if b then lp else latest) ≡ true) (sym e) h
      ]

  newer-le :
      (latest lp : LoadedPlugin)
      → is_called type_name name lp ≡ true
      → lp.version ≤ℤ (newer latest lp).version
  newer-le latest lp h = ground arith

  newest-called :
      (l : Loaded) (latest : LoadedPlugin)
      → is_called type_name name latest ≡ true
      → is_called type_name name (newest type_name name l latest) ≡ true
  unfolding newest
  newest-called [] latest h = h
  newest-called ((k, lp) ∷ l) latest h =
      newest-called l (newer latest lp) (newer-called latest lp h)

  newest-IsGreatest :
      (l : Loaded) (latest : LoadedPlugin) → IsGreatest l (newest type_name name l latest)
  unfolding newest
  newest-IsGreatest [] latest = tt
  newest-IsGreatest ((k, lp) ∷ l) latest = (
    λ h. omega (arith, newer-le latest lp h, newest-start l (newer latest lp)),
    newest-IsGreatest l (newer latest lp),
  )

  first_called-none :
      (l : Loaded)
      → first_called type_name name l ≡ none
      → All (λ (e : Text × LoadedPlugin). is_called type_name name e.1 ≡ false) l
  unfolding first_called
  first_called-none [] h = tt
  first_called-none ((k, lp) ∷ l) h = (ground arith, first_called-none l (ground arith))

  first_called-some :
      (l : Loaded) (lp : LoadedPlugin)
      → first_called type_name name l ≡ some lp
      → is_called type_name name lp ≡ true
  unfolding first_called
  first_called-some [] lp h = cc
  first_called-some ((k, q) ∷ l) lp h = elim (Bool-cases (is_called type_name name q)) [
    | inl e ↦
        let got : first_called type_name name ((k, q) ∷ l) ≡ some q = rw (e, first_called) refl in
        let same : q ≡ lp = cc (h, got) in subst (λ x. is_called type_name name x ≡ true) same e
    | inr e ↦
        let got : first_called type_name name ((k, q) ∷ l) ≡ first_called type_name name l =
          rw (e, first_called) refl in
        first_called-some l lp (sym got ∙ h)
  ]

  -- findLatest finds nothing when no plugin of the type and the name is loaded, and otherwise one of
  -- them that has the greatest version of them.
  pub find_latest-IsGreatest :
      (l : Loaded)
      → ((find_latest l type_name name ≡ none)
          × All (λ (e : Text × LoadedPlugin). is_called type_name name e.1 ≡ false) l)
        ⊎ ((lp : LoadedPlugin) × (find_latest l type_name name ≡ some lp)
            × (is_called type_name name lp ≡ true)
            × IsGreatest l lp)
  unfolding find_latest
  find_latest-IsGreatest l = elim (Option-cases (first_called type_name name l)) [
    | inl e ↦ inl (rw (e, find_latest) refl, first_called-none l e)
    | inr (lp, e) ↦ inr (
      newest type_name name l lp,
      rw (e, find_latest) refl,
      newest-called l lp (first_called-some l lp e),
      newest-IsGreatest l lp,
    )
  ]
