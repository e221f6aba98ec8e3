-- ===== src/Agreement/Items.antt =====
-- What Add and Remove do to the list of items.
use snap.Base.{
  ℕ, zero, suc, ◌≡◌, ◌⊎◌, inl, inr, refl, ap, ◌∙◌, Bool, true, false, List, [], ◌∷◌, ◌++◌, none,
  some, All, take, drop, arith, Option-cases, length,
}
use snap.Agreement.{index_of, add, remove}

module _ {A : Type 0} (same : A → A → Bool) where
  -- The first item of `xs` that counts as `item` stands between `before` and `after`.
  pub record IsFirst (item : A) (xs before after : List A) : Type 0 where
    pub found : A
    pub split : xs ≡ before ++ (found ∷ after)
    pub same_found : same found item ≡ true
    pub others : All (λ x. same x item ≡ false) before

  index_of-none :
      (item : A) (xs : List A) → index_of same item xs ≡ none → All (λ x. same x item ≡ false) xs
  unfolding index_of
  index_of-none item [] h = tt
  index_of-none item (x ∷ xs) h = (ground arith, index_of-none item xs (ground arith))

  index_of-some :
      (item : A) (xs : List A) (n : ℕ)
      → index_of same item xs ≡ some n
      → IsFirst item xs (take n xs) (drop (suc n) xs)
  unfolding index_of
  index_of-some item [] n h = cc
  index_of-some item (x ∷ xs) zero h = record {
    found = x;
    split = refl;
    same_found = ground arith;
    others = tt;
  }
  index_of-some item (x ∷ xs) (suc n) h =
      let later = index_of-some item xs n (ground arith) in
      record {
        found = later.found;
        split = ap (λ l. x ∷ l) later.split;
        same_found = later.same_found;
        others = (ground arith, later.others);
      }

  index_of-append :
      (item : A) (xs : List A)
      → same item item ≡ true
      → index_of same item xs ≡ none
      → index_of same item (xs ++ item ∷ []) ≡ some (length xs)
  unfolding index_of
  index_of-append item [] r h = ground arith
  index_of-append item (x ∷ xs) r h = ground (arith, index_of-append item xs)

  take-append : (xs ys : List A) → take (length xs) (xs ++ ys) ≡ xs
  take-append [] ys = refl
  take-append (x ∷ xs) ys = ap (λ l. x ∷ l) (take-append xs ys)

  drop-append : (xs : List A) (y : A) → drop (suc (length xs)) (xs ++ y ∷ []) ≡ []
  drop-append [] y = refl
  drop-append (x ∷ xs) y = drop-append xs y

  remove-absent :
      (item : A) (xs : List A) → index_of same item xs ≡ none → remove same item xs ≡ (xs, false)
  unfolding remove
  remove-absent item xs e = rw (e, remove) refl

  remove-present :
      (item : A) (xs : List A) (n : ℕ)
      → index_of same item xs ≡ some n
      → remove same item xs ≡ (drop (suc n) xs ++ take n xs, true)
  unfolding remove
  remove-present item xs n e = rw (e, remove) refl

  add-absent :
      (item : A) (xs : List A)
      → index_of same item xs ≡ none
      → add same item xs ≡ (xs ++ item ∷ [], true)
  unfolding add
  add-absent item xs e = rw (e, add) refl

  -- Remove finds no such item and leaves the list, or takes out the first one and puts the items
  -- that stood before it behind those after it.
  pub remove-branches :
      (item : A) (xs : List A)
      → (All (λ x. same x item ≡ false) xs × (remove same item xs ≡ (xs, false)))
        ⊎ ((before : List A) × (after : List A) × IsFirst item xs before after
            × (remove same item xs ≡ (after ++ before, true)))
  remove-branches item xs = elim (Option-cases (index_of same item xs)) [
    | inl e ↦ inl (index_of-none item xs e, remove-absent item xs e)
    | inr (n, e) ↦
        inr (take n xs, drop (suc n) xs, index_of-some item xs n e, remove-present item xs n e)
  ]

  -- An item that the list does not hold is added at its end, and Remove takes it out again and
  -- leaves the list as it was before.
  pub remove-add :
      (item : A) (xs : List A)
      → same item item ≡ true
      → index_of same item xs ≡ none
      → (add same item xs ≡ (xs ++ item ∷ [], true))
        × (remove same item (add same item xs).0 ≡ (xs, true))
  remove-add item xs r e =
      let added = add-absent item xs e in
      let found = remove-present item (xs ++ item ∷ []) (length xs) (index_of-append item xs r e) in
      (
        added,
        ap (λ a. remove same item a.0) added
            ∙ found
            ∙ ap (λ l. (l, true))
                (ap (λ l. l ++ take (length xs) (xs ++ item ∷ [])) (drop-append xs item)
                  ∙ take-append xs (item ∷ [])),
      )
