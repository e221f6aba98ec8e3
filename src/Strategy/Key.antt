-- ===== src/Strategy/Key.antt =====
-- control/strategy/cache.go: the table's key, fmt.Sprintf("%v:%v", ns, version).
use snap.Base.{ℕ, ◌≡◌, refl, true, false, [], ◌∷◌, ◌++◌, Text, contains, arith, inr}
use snap.Base.Int.{ℤ}
use snap.Base.Decimal.{show_int, contains-show_int, show_int-injective}

unfoldable pub cache_key : Text → ℤ → Text
cache_key ns version = ns ++ (b':' ∷ show_int version)

contains_middle : (c : ℕ) (s t : Text) → contains c (s ++ (c ∷ t)) ≡ true
unfolding contains
contains_middle c [] t = ground arith
contains_middle c (x ∷ s) t = ground (arith, contains_middle c s t)

-- The last separator of a text is found from behind.
append-cons_cancel :
    (c : ℕ) (s t a b : Text)
    → s ++ (c ∷ a) ≡ t ++ (c ∷ b)
    → contains c a ≡ false
    → contains c b ≡ false
    → (s ≡ t) × (a ≡ b)
append-cons_cancel c [] [] a b e ha hb = (refl, cc)
append-cons_cancel c [] (y ∷ t) a b e ha hb = absurd (ground (arith, contains_middle c t b))
append-cons_cancel c (x ∷ s) [] a b e ha hb = absurd (ground (arith, contains_middle c s a))
append-cons_cancel c (x ∷ s) (y ∷ t) a b e ha hb =
    let (p, q) = append-cons_cancel c s t a b (cc) ha hb in (cc, q)

-- Two entries share a key only if they agree in the printed namespace and in the version.
pub cache_key-injective :
    (ns ms : Text) (v w : ℤ) → cache_key ns v ≡ cache_key ms w → (ns ≡ ms) × (v ≡ w)
unfolding cache_key
cache_key-injective ns ms v w e =
    let (p, q) =
      append-cons_cancel b':' ns ms (show_int v) (show_int w) e
        (contains-show_int b':' v (inr (omega arith)))
        (contains-show_int b':' w (inr (omega arith))) in
    (p, show_int-injective v w q)
