-- ===== src/Namespace/Samples.antt =====
-- core/metric.go: a namespace to try the print and its parser on.
use snap.Base.{◌≡◌, refl, [], ◌∷◌, contains}
use snap.Namespace.{Namespace, new_namespace, strings, to_string, is_used}
use snap.Namespace.Separator.{has_free}
use snap.Namespace.Printing.{parse, parse-to_string}

-- The first element holds a slash, so the second separator of the list is taken.
abbrev cpu_load : Namespace
unfolding new_namespace
cpu_load = new_namespace ((b'c' ∷ b'/' ∷ []) ∷ (b'l' ∷ []) ∷ [])

parse-to_string_example : parse (to_string cpu_load) ≡ strings cpu_load
unfolding strings has_free is_used contains cpu_load
parse-to_string_example = parse-to_string cpu_load (λ e. cc) refl
