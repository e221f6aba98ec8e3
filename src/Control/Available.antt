-- ===== src/Control/Available.antt =====
-- control/available_plugin.go: the table of the pools of running plugins.
use mathlib.Core.List.{lookup}
use snap.Base.{
  Bool, false, ◌&&◌, if◌then◌else◌, List, [], ◌∷◌, Option, none, some, Text, text_discrete, ltb,
}
use snap.Base.Int.{pos, ltb_ℤ}
use snap.Base.Map.{put}
use snap.Base.Decimal.{atoi}
use snap.Namespace.{separator}
use snap.Namespace.Separator.{split}
use snap.Strategy.Plugin.{Heap}
use snap.Strategy.Pool.{Limits, Pool, new_pool, count}
use snap.Control.{same_key}

abbrev pub Pools : Type 0
Pools = List (Text × Pool)

-- A key that is no key of a pool is an error.
unfoldable pub get_or_create_pool : Limits → Heap → Pools → Text → Option (Pools × Pool)
get_or_create_pool limits heap table k = elim (lookup text_discrete k table) [
  | some pool ↦ some (table, pool)
  | none ↦ elim (new_pool limits heap k []) [
    | none ↦ none
    | some (_, pool) ↦ some (put text_discrete k pool table, pool)
  ]
]

-- A key is one of the pools of that type and name that has a plugin. The source panics on a key
-- with less than two pieces, which no pool has.
unfoldable pub is_pool_of : Text → Text → Text × Pool → Bool
is_pool_of type_name name (k, pool) = elim (split separator k) [
  | t ∷ rest ↦ elim rest [
    | n ∷ _ ↦ same_key t type_name && same_key n name && ltb 0 (count pool)
    | [] ↦ false
  ]
  | [] ↦ false
]

unfoldable pub first_pool_of : Text → Text → Pools → Option (Text × Pool)
first_pool_of type_name name [] = none
first_pool_of type_name name (entry ∷ table) =
    let further = first_pool_of type_name name table in
    if is_pool_of type_name name entry then some entry else further

unfoldable pub newest_pool : Text → Text → Pools → Text × Pool → Text × Pool
newest_pool type_name name [] latest = latest
newest_pool type_name name (entry ∷ table) latest = newest_pool type_name name table (
    if is_pool_of type_name name entry && ltb_ℤ latest.1.version entry.1.version
    then entry
    else latest)

unfoldable pub find_latest_pool : Pools → Text → Text → Option (Text × Pool)
find_latest_pool table type_name name = elim (first_pool_of type_name name table) [
  | none ↦ none
  | some entry ↦ some (newest_pool type_name name table entry)
]

-- What getPool returns: an error, no pool, or a pool with the key that it stands under.
pub data Answer : Type 0 where
  bad_key_error nil : Answer
  found : Text → Pool → Answer

unfoldable pub get_pool_latest : Pools → List Text → Answer
get_pool_latest table (type_name ∷ name ∷ version ∷ []) =
    let latest : Answer = elim (find_latest_pool table type_name name) [
      | none ↦ nil
      | some (k, pool) ↦ found k pool
    ] in
    elim (atoi version) [
      | none ↦ bad_key_error
      | some v ↦ if ltb_ℤ v (pos 1) then latest else bad_key_error
    ]
get_pool_latest table _ = bad_key_error

unfoldable pub get_pool : Pools → Text → Answer
get_pool table k = elim (lookup text_discrete k table) [
  | some pool ↦ found k pool
  | none ↦ get_pool_latest table (split separator k)
]
