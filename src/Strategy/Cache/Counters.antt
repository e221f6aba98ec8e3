-- ===== src/Strategy/Cache/Counters.antt =====
-- The hit and miss counters.
use mathlib.Core.List.{lookup}
use snap.Base.{
  ℕ, ◌+◌, ◌%◌, ◌^◌, ◌<◌, ◌≡◌, Option, none, some, List, [], ◌∷◌, Text, text_discrete, arith,
}
use snap.Base.Int.{ℤ}
use snap.Base.Map.{put}
use snap.Strategy.Key.{cache_key}
use snap.Strategy.Cache.{
  CacheCell, Cache, hit, miss, get, sum_cells, all_cache_hits, all_cache_misses,
}
use snap.Strategy.Cache.Lookup.{cell_at, after_get, get-table}

-- The plain sum, of which the program's is the remainder.
total : (CacheCell → ℕ) → List (Text × CacheCell) → ℕ
total f [] = 0
total f ((key, cell) ∷ t) = f cell + total f t

sum_cells-total :
    (f : CacheCell → ℕ) (acc : ℕ) (t : List (Text × CacheCell))
    → acc < 2 ^ 64
    → sum_cells f acc t ≡ (acc + total f t) % 2 ^ 64
unfolding sum_cells total
sum_cells-total f acc [] h = omega arith
sum_cells-total f acc ((key, cell) ∷ t) h =
    omega (arith, sum_cells-total f ((acc + f cell) % 2 ^ 64) t (omega arith))

-- What the cell of `key` contributes.
of_cell : (CacheCell → ℕ) → Option CacheCell → ℕ
of_cell f none = 0
of_cell f (some cell) = f cell

total-put :
    (f : CacheCell → ℕ) (key : Text) (cell : CacheCell) (t : List (Text × CacheCell))
    → total f (put text_discrete key cell t) + of_cell f (lookup text_discrete key t)
      ≡ total f t + f cell
unfolding total put lookup of_cell
total-put f key cell [] = omega arith
total-put f key cell ((k, d) ∷ t) = ground (arith, total-put f key cell t)

after_get-counts :
    (now : ℕ) (ttl : ℤ) (o : Option CacheCell)
    → ((after_get now ttl o).hits + (after_get now ttl o).misses) % 2 ^ 64
      ≡ (of_cell (λ cell. cell.hits) o + of_cell (λ cell. cell.misses) o + 1) % 2 ^ 64
unfolding hit miss of_cell
after_get-counts now ttl none = omega arith
after_get-counts now ttl (some cell) = ground arith

module _ (now : ℕ) (c : Cache) (ns : Text) (v : ℤ) where
  after : CacheCell
  after = after_get now c.ttl (cell_at c ns v)

  total-get :
      (f : CacheCell → ℕ)
      → sum_cells f 0 (get now c ns v).0.table
        ≡ total f (put text_discrete (cache_key ns v) after c.table) % 2 ^ 64
  unfolding after
  total-get f = rw (get-table now c ns v) (omega (arith, sum_cells-total f 0))

  -- Each read counts as one hit or one miss, over all cells together and modulo 2^64.
  pub get-counts :
      (all_cache_hits (get now c ns v).0 + all_cache_misses (get now c ns v).0) % 2 ^ 64
      ≡ (all_cache_hits c + all_cache_misses c + 1) % 2 ^ 64
  unfolding all_cache_hits all_cache_misses after
  get-counts = omega (
    arith,
    total-get (λ cell. cell.hits),
    total-get (λ cell. cell.misses),
    sum_cells-total (λ cell. cell.hits) 0 c.table,
    sum_cells-total (λ cell. cell.misses) 0 c.table,
    total-put (λ cell. cell.hits) (cache_key ns v) after c.table,
    total-put (λ cell. cell.misses) (cache_key ns v) after c.table,
    after_get-counts now c.ttl (cell_at c ns v),
  )
