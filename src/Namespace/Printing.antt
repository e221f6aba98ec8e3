-- ===== src/Namespace/Printing.antt =====
-- The print of a namespace determines its elements.
use snap.Base.{◌≡◌, ◌≢◌, refl, sym, ap, ◌∙◌, true, false, List, [], ◌∷◌, Text}
use snap.Namespace.{Namespace, ns_priority_list, strings, is_used, get_separator, join, to_string}
use snap.Namespace.Separator.{split, has_free, first_free-unused, split-join}

-- Reads a print back: its first character is the separator.
unfoldable pub parse : Text → List Text
parse [] = []
parse (c ∷ s) = split c s

split-join_nonempty :
    (n : Namespace) (ss : List Text)
    → ss ≢ []
    → is_used (get_separator n) ss ≡ false
    → split (get_separator n) (join ss (get_separator n)) ≡ ss
split-join_nonempty n [] h u = absurd (h refl)
split-join_nonempty n (s ∷ ss) h u = split-join (get_separator n) s ss u

-- The elements of a namespace that has one, and in whose elements some separator of the priority
-- list does not occur, are read back from its print.
pub parse-to_string :
    (n : Namespace)
    → strings n ≢ []
    → has_free ns_priority_list (strings n) ≡ true
    → parse (to_string n) ≡ strings n
unfolding parse to_string
parse-to_string n h free = split-join_nonempty n (strings n) h unused
  where
    unused : is_used (get_separator n) (strings n) ≡ false
    unused = unfold get_separator in first_free-unused ns_priority_list (strings n) free

pub to_string-injective :
    (n m : Namespace)
    → strings n ≢ []
    → strings m ≢ []
    → has_free ns_priority_list (strings n) ≡ true
    → has_free ns_priority_list (strings m) ≡ true
    → to_string n ≡ to_string m
    → strings n ≡ strings m
to_string-injective n m hn hm fn fm e =
    sym (parse-to_string n hn fn) ∙ ap parse e ∙ parse-to_string m hm fm
