-- ===== src/Control/Loaded.antt =====
-- control/plugin_manager.go: the table of the loaded plugins.
use mathlib.Core.List.{lookup}
use snap.Base.{Bool, ◌&&◌, if◌then◌else◌, List, [], ◌∷◌, Option, none, some, Text, text_discrete}
use snap.Base.Int.{pos, ltb_ℤ}
use snap.Base.Map.{put, delete}
use snap.Base.Decimal.{atoi}
use snap.Namespace.{separator}
use snap.Namespace.Separator.{split}
use snap.Control.{LoadedPlugin, loaded_key, same_key}

abbrev pub Loaded : Type 0
Loaded = List (Text × LoadedPlugin)

-- `none` is the error that the plugin is loaded already.
unfoldable pub add_loaded : Loaded → LoadedPlugin → Option Loaded
add_loaded l lp = elim (lookup text_discrete (loaded_key lp) l) [
  | some _ ↦ none
  | none ↦ some (put text_discrete (loaded_key lp) lp l)
]

unfoldable pub remove_loaded : Loaded → Text → Loaded
remove_loaded l k = delete text_discrete k l

unfoldable pub is_called : Text → Text → LoadedPlugin → Bool
is_called type_name name lp = same_key lp.type_name type_name && same_key lp.name name

unfoldable pub first_called : Text → Text → Loaded → Option LoadedPlugin
first_called type_name name [] = none
first_called type_name name ((_, lp) ∷ l) =
    let further = first_called type_name name l in
    if is_called type_name name lp then some lp else further

-- The second loop of findLatest.
unfoldable pub newest : Text → Text → Loaded → LoadedPlugin → LoadedPlugin
newest type_name name [] latest = latest
newest type_name name ((_, lp) ∷ l) latest =
    newest type_name name l
      (if is_called type_name name lp && ltb_ℤ latest.version lp.version then lp else latest)

unfoldable pub find_latest : Loaded → Text → Text → Option LoadedPlugin
find_latest l type_name name = elim (first_called type_name name l) [
  | none ↦ none
  | some lp ↦ some (newest type_name name l lp)
]

-- A key whose version is below 1 asks for the latest version.
unfoldable pub get_latest_of : Loaded → List Text → Option LoadedPlugin
get_latest_of l (type_name ∷ name ∷ version ∷ []) =
    let latest = find_latest l type_name name in
    elim (atoi version) [ none ↦ none | some v ↦ if ltb_ℤ v (pos 1) then latest else none ]
get_latest_of l _ = none

-- `none` is any of the errors of get.
unfoldable pub get_loaded : Loaded → Text → Option LoadedPlugin
get_loaded l k = elim (lookup text_discrete k l) [
  | some lp ↦ some lp
  | none ↦ get_latest_of l (split separator k)
]
