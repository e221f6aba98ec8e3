-- ===== src/Namespace/Separator.antt =====
-- Which separator `get_separator` picks, and how strings.Join is undone at a free one.
use snap.Base.{
  ℕ, ◌≡◌, refl, ap, ◌∙◌, Bool, true, false, not, ◌||◌, List, [], ◌∷◌, ◌++◌, Text, contains, ◌==◌,
  if◌then◌else◌, arith,
}
use snap.Namespace.{is_used, first_free, join}

cons_head : ℕ → List Text → List Text
cons_head c [] = (c ∷ []) ∷ []
cons_head c (s ∷ ss) = (c ∷ s) ∷ ss

-- The pieces of a text between the separators `c`.
unfoldable pub split : ℕ → Text → List Text
unfolding cons_head
split c [] = [] ∷ []
split c (r ∷ s) = if r == c then [] ∷ split c s else cons_head r (split c s)

-- Some candidate shows in no element.
unfoldable pub has_free : List ℕ → List Text → Bool
has_free [] ss = false
has_free (c ∷ cs) ss = not (is_used c ss) || has_free cs ss

pub first_free-unused :
    (cs : List ℕ) (ss : List Text) → has_free cs ss ≡ true → is_used (first_free cs ss) ss ≡ false
unfolding first_free has_free
first_free-unused [] ss h = cc
first_free-unused (c ∷ cs) ss h = ground (arith, first_free-unused cs ss)

split_free : (c : ℕ) (s : Text) → contains c s ≡ false → split c s ≡ s ∷ []
unfolding split contains
split_free c [] h = refl
split_free c (r ∷ s) h = ground (arith, split_free c s)

split_at : (c : ℕ) (s t : Text) → contains c s ≡ false → split c (s ++ (c ∷ t)) ≡ s ∷ split c t
unfolding split contains
split_at c [] t h = ground arith
split_at c (r ∷ s) t h = ground (arith, split_at c s t)

-- With a separator that no element shows, the joined text splits into the elements.
pub split-join :
    (c : ℕ) (s : Text) (ss : List Text)
    → is_used c (s ∷ ss) ≡ false
    → split c (join (s ∷ ss) c) ≡ s ∷ ss
unfolding is_used join
split-join c s [] h = split_free c s (ground arith)
split-join c s (t ∷ ss) h =
    split_at c s (join (t ∷ ss) c) (ground arith) ∙ ap (◌∷◌ s) (split-join c t ss (ground arith))
