-- ===== src/Strategy/Cache/Reads.antt =====
-- What `get` returns after a store and after other reads.
use mathlib.Core.Option.{get_or}
use snap.Base.{
  ℕ, ◌≡◌, ◌≢◌, refl, none, some, List, Text, text_discrete, if◌then◌else◌, arith, ◌∙◌, ap, sym,
}
use snap.Base.Int.{ℤ, ltb_ℤ}
use snap.Base.Map.{lookup-put_ne}
use snap.Strategy.Key.{cache_key, cache_key-injective}
use snap.Strategy.Cache.{
  Metric, Cached, one, many, Cache, empty_cell, time_sub, is_fresh, cell_content, get, cell_put,
  put_cached,
}
use snap.Strategy.Cache.Lookup.{
  cell_at, served, get-served, get-table, put_cached-table, cell_at-put_cached_self,
}

-- The time to live of the cache is no field that a store changes.
put_cached-ttl :
    (t : ℕ) (c : Cache) (ns : Text) (v : ℤ) (m : Cached) → (put_cached t c ns v m).ttl ≡ c.ttl
put_cached-ttl t c ns v m = ap (λ (d : Cache). d.ttl) (put_cached-table t c ns v m)

get-put_served :
    (c : Cache) (ns : Text) (v : ℤ) (t now : ℕ) (m : Cached)
    → (get now (put_cached t c ns v m) ns v).1
      ≡ served now c.ttl (some (cell_put t m (get_or (cell_at c ns v) empty_cell)))
get-put_served c ns v t now m =
    get-served now (put_cached t c ns v m) ns v
    ∙ rw (cell_at-put_cached_self t c ns v m, put_cached-ttl t c ns v m) refl

-- A single metric that was stored is returned for as long as its age is below the time to live,
-- and nothing is returned from then on.
pub get-put_one :
    (c : Cache) (ns : Text) (v : ℤ) (t now : ℕ) (m : Metric)
    → (get now (put_cached t c ns v (one m)) ns v).1
      ≡ (if ltb_ℤ (time_sub now t) c.ttl then some (one m) else none)
get-put_one c ns v t now m =
    get-put_served c ns v t now (one m) ∙ unfold is_fresh cell_put cell_content in refl

-- A list that was stored is returned for as long as its age is below the time to live; but where
-- the key held a single metric before, that one is returned in the list's place.
pub get-put_many :
    (c : Cache) (ns : Text) (v : ℤ) (t now : ℕ) (ms : List Metric)
    → (get now (put_cached t c ns v (many ms)) ns v).1 ≡ (
        if ltb_ℤ (time_sub now t) c.ttl
        then elim (get_or (cell_at c ns v) empty_cell).metric [
          | some m ↦ some (one m)
          | none ↦ some (many ms)
        ]
        else none)
get-put_many c ns v t now ms =
    get-put_served c ns v t now (many ms) ∙ unfold is_fresh cell_put cell_content in ground arith

module _ (c : Cache) (ns ms : Text) (v w : ℤ) (other : ¬ ((ns ≡ ms) × (v ≡ w))) where
  other_key : cache_key ns v ≢ cache_key ms w
  other_key e = other (cache_key-injective ns ms v w e)

  get-put_other :
      (now t : ℕ) (m : Cached) → (get now (put_cached t c ns v m) ms w).1 ≡ (get now c ms w).1
  get-put_other now t m =
      get-served now (put_cached t c ns v m) ms w
      ∙ rw (put_cached-table t c ns v m, lookup-put_ne text_discrete _ _ _ c.table other_key)
          (sym (get-served now c ms w))

  get-get_other : (now t : ℕ) → (get now (get t c ns v).0 ms w).1 ≡ (get now c ms w).1
  get-get_other now t =
      get-served now (get t c ns v).0 ms w
      ∙ rw (get-table t c ns v, lookup-put_ne text_discrete _ _ _ c.table other_key)
          (sym (get-served now c ms w))

-- Neither a store nor a read of one namespace and version changes what a read of another namespace
-- or version returns: the printed keys never collide.
pub get_other :
    (c : Cache) (ns ms : Text) (v w : ℤ) (now t : ℕ) (m : Cached)
    → ¬ ((ns ≡ ms) × (v ≡ w))
    → ((get now (put_cached t c ns v m) ms w).1 ≡ (get now c ms w).1)
      × ((get now (get t c ns v).0 ms w).1 ≡ (get now c ms w).1)
get_other c ns ms v w now t m other =
    (get-put_other c ns ms v w other now t m, get-get_other c ns ms v w other now t)
