-- ===== src/Base/Map.antt =====
-- A Go map as an association list. `delete` drops every entry of its key and `put` replaces the
-- first, so no law below needs the keys to be distinct.
use Prim.Native.Nat.{◌+◌, ◌≤◌}
use mathlib.Core.Path.{◌≡◌, refl}
use mathlib.Core.Logic.{◌≢◌, ◌⊎◌, inl, inr, ite, if_pos, if_neg}
use mathlib.Core.List.{List, [], ◌∷◌, lookup}
use mathlib.Core.Option.{none, some}
use native.Mathlib.Omega.{arith}
use snap.Base.Lists.{length}

module _ {ℓ} {K V : Type ℓ} (eq : Discrete K) where
  unfoldable pub put : K → V → List (K × V) → List (K × V)
  put k v [] = (k, v) ∷ []
  put k v ((j, w) ∷ m) = ite (eq j k) ((k, v) ∷ m) ((j, w) ∷ put k v m)

  unfoldable pub delete : K → List (K × V) → List (K × V)
  delete k [] = []
  delete k ((j, w) ∷ m) = ite (eq j k) (delete k m) ((j, w) ∷ delete k m)

  pub lookup-put :
      (k j : K) (v : V) (m : List (K × V))
      → lookup eq j (put k v m) ≡ ite (eq k j) (some v) (lookup eq j m)
  unfolding lookup put
  lookup-put k j v [] = ground arith
  lookup-put k j v ((i, w) ∷ m) = ground (arith, lookup-put k j v m)

  pub lookup-delete :
      (k j : K) (m : List (K × V)) → lookup eq j (delete k m) ≡ ite (eq k j) none (lookup eq j m)
  unfolding lookup delete
  lookup-delete k j [] = ground arith
  lookup-delete k j ((i, w) ∷ m) = ground (arith, lookup-delete k j m)

  -- A new key adds an entry and a known one replaces its entry.
  pub length-put :
      (k : K) (v : V) (m : List (K × V))
      → length (put k v m) ≡ elim (lookup eq k m) [ none ↦ length m + 1 | some _ ↦ length m ]
  unfolding lookup put
  length-put k v [] = refl
  length-put k v ((i, w) ∷ m) = ground (arith, length-put k v m)

  pub length-delete-le : (k : K) (m : List (K × V)) → length (delete k m) ≤ length m
  unfolding delete
  length-delete-le k [] = omega arith
  length-delete-le k ((i, w) ∷ m) = ground (arith, length-delete-le k m)

  pub delete_absent : (k : K) (m : List (K × V)) → lookup eq k m ≡ none → delete k m ≡ m
  unfolding lookup delete
  delete_absent k [] h = refl
  delete_absent k ((i, w) ∷ m) h = ground (arith, delete_absent k m)

  -- No two entries have one key.
  abbrev pub Distinct : List (K × V) → Type ℓ
  Distinct [] = Unit
  Distinct ((k, v) ∷ m) = (lookup eq k m ≡ none) × Distinct m

  pub put-Distinct : (k : K) (v : V) (m : List (K × V)) → Distinct m → Distinct (put k v m)
  unfolding put lookup
  put-Distinct k v [] d = ground arith
  put-Distinct k v ((i, w) ∷ m) d = ground (arith, put-Distinct k v m, lookup-put k i v m)

  pub delete-Distinct : (k : K) (m : List (K × V)) → Distinct m → Distinct (delete k m)
  unfolding delete
  delete-Distinct k [] d = ground arith
  delete-Distinct k ((i, w) ∷ m) d = ground (arith, delete-Distinct k m, lookup-delete k i m)

  pub lookup-put_self : (k : K) (v : V) (m : List (K × V)) → lookup eq k (put k v m) ≡ some v
  lookup-put_self k v m = rw (lookup-put k k v m, if_pos (eq k k) refl)

  pub lookup-put_ne :
      (k j : K) (v : V) (m : List (K × V)) → k ≢ j → lookup eq j (put k v m) ≡ lookup eq j m
  lookup-put_ne k j v m h = rw (lookup-put k j v m, if_neg (eq k j) h)

  pub lookup-delete_self : (k : K) (m : List (K × V)) → lookup eq k (delete k m) ≡ none
  lookup-delete_self k m = rw (lookup-delete k k m, if_pos (eq k k) refl)

  pub lookup-delete_ne :
      (k j : K) (m : List (K × V)) → k ≢ j → lookup eq j (delete k m) ≡ lookup eq j m
  lookup-delete_ne k j m h = rw (lookup-delete k j m, if_neg (eq k j) h)

  pub lookup-put_cases :
      (k j : K) (v w : V) (m : List (K × V))
      → lookup eq j (put k v m) ≡ some w
      → ((k ≡ j) × (v ≡ w)) ⊎ ((k ≢ j) × (lookup eq j m ≡ some w))
  lookup-put_cases k j v w m h = elim (eq k j) [
    | yes p ↦ inl (p, cc (lookup-put_self k v m))
    | no n ↦ inr (n, cc (lookup-put_ne k j v m n))
  ]

  pub lookup-delete_cases :
      (k j : K) (w : V) (m : List (K × V))
      → lookup eq j (delete k m) ≡ some w
      → (k ≢ j) × (lookup eq j m ≡ some w)
  lookup-delete_cases k j w m h = elim (eq k j) [
    | yes p ↦ cc (lookup-delete_self k m)
    | no n ↦ (n, cc (lookup-delete_ne k j m n))
  ]

  pub lookup-cons_self : (k : K) (v : V) (m : List (K × V)) → lookup eq k ((k, v) ∷ m) ≡ some v
  unfolding lookup
  lookup-cons_self k v m = ground arith

  pub delete-cons_self :
      (k : K) (v : V) (m : List (K × V)) → lookup eq k m ≡ none → delete k ((k, v) ∷ m) ≡ m
  unfolding delete
  delete-cons_self k v m h = ground (arith, delete_absent k m)
