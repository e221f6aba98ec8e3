-- ===== src/Strategy/Cache.antt =====
-- control/strategy/cache.go: the table of collected metrics, with hit and miss counters. A time is
-- in nanoseconds from Go's zero time; each function is given what the clock reads.
pub mod Lookup
pub mod Reads
pub mod Counters
pub mod Check
pub mod Update
use mathlib.Core.List.{lookup}
use Prim.Native.Nat.{min}
use snap.Base.{
  ℕ, suc, ◌+◌, ◌-◌, ◌%◌, ◌^◌, Bool, true, false, List, [], ◌∷◌, ◌++◌, map, Option, none, some, Text,
  text_discrete, leb, if◌then◌else◌, ite, ℕ_discrete,
}
use snap.Base.Int.{ℤ, pos, negsuc, ltb_ℤ}
unfoldable pub use snap.Base.Int.{time_sub}
use snap.Base.Map.{put, delete}
use snap.Namespace.{NamespaceElement, Namespace, to_string, is_dynamic}
use snap.Strategy.Key.{cache_key}

-- core.Metric, as far as routing reads it. `payload` stands for the fields that it only passes on.
pub record Metric : Type 0 where
  pub namespace : Namespace
  pub version : ℤ
  pub payload : ℕ

-- What an entry holds: one metric, or the metrics of a dynamic namespace.
pub data Cached : Type 0 where
  one : Metric → Cached
  many : List Metric → Cached

pub record CacheCell : Type 0 where
  pub time : ℕ
  pub metric : Option Metric
  pub metrics : List Metric
  pub hits : ℕ
  pub misses : ℕ

pub record Cache : Type 0 where
  pub table : List (Text × CacheCell)
  pub ttl : ℤ

pub data Error : Type 0 where
  cache_entry_does_not_exist cache_does_not_exist could_not_select : Error

pub data Result (A : Type 0) : Type 0 where
  ok : A → Result A
  err : Error → Result A

abbrev pub inc64 : ℕ → ℕ
inc64 n = (n + 1) % 2 ^ 64

unfoldable pub new_cache : ℤ → Cache
new_cache expiration = record { table = []; ttl = expiration }

-- The zero cell that a first miss leaves in the table.
abbrev pub empty_cell : CacheCell
empty_cell = record { time = 0; metric = none; metrics = []; hits = 0; misses = 0 }

unfoldable pub is_fresh : ℕ → ℤ → CacheCell → Bool
is_fresh now ttl cell = ltb_ℤ (time_sub now cell.time) ttl

unfoldable pub cell_content : CacheCell → Cached
cell_content cell = elim cell.metric [ some m ↦ one m | none ↦ many cell.metrics ]

abbrev store : Cache → Text → CacheCell → Cache
store c key cell = record c { table = put text_discrete key cell c.table }

unfoldable pub miss : CacheCell → CacheCell
miss cell = record cell { misses = inc64 cell.misses }

unfoldable pub hit : CacheCell → CacheCell
hit cell = record cell { hits = inc64 cell.hits }

unfoldable pub get : ℕ → Cache → Text → ℤ → Cache × Option Cached
unfolding miss hit
get now c ns version = elim (lookup text_discrete (cache_key ns version) c.table) [
  | none ↦ (store c (cache_key ns version) (miss empty_cell), none)
  | some cell ↦
      if is_fresh now c.ttl cell
      then (store c (cache_key ns version) (hit cell), some (cell_content cell))
      else (store c (cache_key ns version) (miss cell), none)
]

unfoldable pub cell_put : ℕ → Cached → CacheCell → CacheCell
cell_put now (one m) cell = record cell { time = now; metric = some m }
cell_put now (many ms) cell = record cell { time = now; metrics = ms }

-- An absent key gets a fresh cell. The source's `default` case is for values of a third type,
-- which no caller in the package passes.
unfoldable pub put_cached : ℕ → Cache → Text → ℤ → Cached → Cache
put_cached now c ns version m = elim (lookup text_discrete (cache_key ns version) c.table) [
  | none ↦ store c (cache_key ns version) (cell_put now m empty_cell)
  | some cell ↦ store c (cache_key ns version) (cell_put now m cell)
]

unfoldable pub cached_list : Cached → List Metric
cached_list (one m) = m ∷ []
cached_list (many ms) = ms

-- The loop of checkCache; `clock i` is what the clock reads in round `i`.
unfoldable pub check_from : (ℕ → ℕ) → ℕ → Cache → List Metric → Cache × List Metric × List Metric
unfolding cached_list
check_from clock i c [] = (c, [], [])
check_from clock i c (mt ∷ mts) =
    let (c', found) = get (clock i) c (to_string mt.namespace) mt.version in
    let (after, collect, cached) = check_from clock (i + 1) c' mts in
    elim found [
      | none ↦ (after, mt ∷ collect, cached)
      | some m ↦ (after, collect, cached_list m ++ cached)
    ]

unfoldable pub check_cache : (ℕ → ℕ) → Cache → List Metric → Cache × List Metric × List Metric
check_cache clock = check_from clock 0

pub record ListMetricInfo : Type 0 where
  pub metrics : List Metric
  pub namespace : Text
  pub version : ℤ

-- A copy of the namespace with "*" for the elements of the given indices.
unfoldable pub star_at : ℕ → Namespace → Namespace
star_at i [] = []
star_at i (e ∷ n) =
    ite (ℕ_discrete i 0) (record e { value = b'*' ∷ [] } ∷ n) (e ∷ star_at (i - 1) n)

unfoldable pub star_all : List ℕ → Namespace → Namespace
star_all [] n = n
star_all (i ∷ idx) n = star_all idx (star_at i n)

-- Adds a dynamic metric to the group of its starred namespace.
unfoldable pub group_dynamic :
    List (Text × ListMetricInfo) → Metric → List ℕ → List (Text × ListMetricInfo)
group_dynamic dc mt idx =
    let ns = to_string (star_all idx mt.namespace) in
    let key = cache_key ns mt.version in
    elim (lookup text_discrete key dc) [
      | none ↦
          put text_discrete key (record { metrics = mt ∷ []; namespace = ns; version = mt.version })
            dc
      | some info ↦ put text_discrete key (record info { metrics = info.metrics ++ mt ∷ [] }) dc
    ]

-- The first loop of updateCache: static metrics are stored, dynamic ones are grouped.
unfoldable pub update_from :
    (ℕ → ℕ)
    → ℕ
    → Cache
    → List (Text × ListMetricInfo)
    → List Metric
    → ℕ × Cache × List (Text × ListMetricInfo)
update_from clock i c dc [] = (i, c, dc)
update_from clock i c dc (mt ∷ mts) =
    let (dynamic, idx) = is_dynamic mt.namespace in
    let grouped = update_from clock i c (group_dynamic dc mt idx) mts in
    let stored =
      update_from clock (i + 1)
        (put_cached (clock i) c (to_string mt.namespace) mt.version (one mt)) dc mts in
    if dynamic then grouped else stored

-- The second loop stores the groups.
unfoldable pub put_groups : (ℕ → ℕ) → ℕ → Cache → List (Text × ListMetricInfo) → Cache
put_groups clock i c [] = c
put_groups clock i c ((key, v) ∷ dc) =
    put_groups clock (i + 1) (put_cached (clock i) c v.namespace v.version (many v.metrics)) dc

unfoldable pub update_cache : (ℕ → ℕ) → Cache → List Metric → Cache
unfolding update_from put_groups
update_cache clock c mts =
    let (i, c', dc) = update_from clock 0 c [] mts in put_groups clock i c' dc

-- Sums over the table in uint64.
unfoldable pub sum_cells : (CacheCell → ℕ) → ℕ → List (Text × CacheCell) → ℕ
sum_cells f acc [] = acc
sum_cells f acc ((key, cell) ∷ t) = sum_cells f ((acc + f cell) % 2 ^ 64) t

unfoldable pub all_cache_hits : Cache → ℕ
all_cache_hits c = sum_cells (λ cell. cell.hits) 0 c.table

unfoldable pub all_cache_misses : Cache → ℕ
all_cache_misses c = sum_cells (λ cell. cell.misses) 0 c.table

unfoldable pub cache_hits : Cache → Text → ℤ → Result ℕ
cache_hits c ns version = elim (lookup text_discrete (cache_key ns version) c.table) [
  | some v ↦ ok v.hits
  | none ↦ err cache_entry_does_not_exist
]

unfoldable pub cache_misses : Cache → Text → ℤ → Result ℕ
cache_misses c ns version = elim (lookup text_discrete (cache_key ns version) c.table) [
  | some v ↦ ok v.misses
  | none ↦ err cache_entry_does_not_exist
]
