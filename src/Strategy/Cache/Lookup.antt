-- ===== src/Strategy/Cache/Lookup.antt =====
-- What a lookup in the cache finds after a store.
use mathlib.Core.List.{lookup}
use mathlib.Core.Option.{get_or}
use snap.Base.{
  ℕ, ◌≡◌, ◌≢◌, refl, ◌⊎◌, inl, inr, Option, none, some, Text, text_discrete, if◌then◌else◌, arith,
  Option-cases, ◌∙◌, ap,
}
use snap.Base.Int.{ℤ}
use snap.Base.Map.{lookup-put_self, lookup-put_ne}
use snap.Strategy.Key.{cache_key}
use snap.Strategy.Cache.{
  Cached, CacheCell, Cache, empty_cell, is_fresh, cell_content, hit, miss, get, cell_put,
  put_cached,
}

abbrev pub cell_at : Cache → Text → ℤ → Option CacheCell
cell_at c ns v = lookup text_discrete (cache_key ns v) c.table

-- What a cell gives to a reader.
abbrev pub served : ℕ → ℤ → Option CacheCell → Option Cached
served now ttl none = none
served now ttl (some cell) = if is_fresh now ttl cell then some (cell_content cell) else none

-- The cell that a read leaves behind.
abbrev pub after_get : ℕ → ℤ → Option CacheCell → CacheCell
after_get now ttl none = miss empty_cell
after_get now ttl (some cell) = if is_fresh now ttl cell then hit cell else miss cell

pub get-served :
    (now : ℕ) (c : Cache) (ns : Text) (v : ℤ)
    → (get now c ns v).1 ≡ served now c.ttl (cell_at c ns v)
unfolding get
get-served now c ns v = elim (Option-cases (cell_at c ns v)) [
  | inl e ↦ rw (e, get)
  | inr (cell, e) ↦ rw (e, get) (ground arith)
]

pub get-table :
    (now : ℕ) (c : Cache) (ns : Text) (v : ℤ)
    → (get now c ns v).0 ≡ record c {
      table =
          snap.Base.Map.put text_discrete
            (cache_key ns v)
            (after_get now c.ttl (cell_at c ns v))
            c.table;
    }
unfolding get
get-table now c ns v = elim (Option-cases (cell_at c ns v)) [
  | inl e ↦ rw (e, get)
  | inr (cell, e) ↦ rw (e, get) (ground arith)
]

pub put_cached-table :
    (now : ℕ) (c : Cache) (ns : Text) (v : ℤ) (m : Cached)
    → put_cached now c ns v m ≡ record c {
      table =
          snap.Base.Map.put text_discrete
            (cache_key ns v)
            (cell_put now m (get_or (cell_at c ns v) empty_cell))
            c.table;
    }
unfolding put_cached
put_cached-table now c ns v m = elim (Option-cases (cell_at c ns v)) [
  | inl e ↦ rw (e, put_cached)
  | inr (cell, e) ↦ rw (e, put_cached)
]

pub cell_at-put_cached_self :
    (now : ℕ) (c : Cache) (ns : Text) (v : ℤ) (m : Cached)
    → cell_at (put_cached now c ns v m) ns v
      ≡ some (cell_put now m (get_or (cell_at c ns v) empty_cell))
cell_at-put_cached_self now c ns v m =
    ap (λ (d : Cache). cell_at d ns v) (put_cached-table now c ns v m)
    ∙ lookup-put_self text_discrete (cache_key ns v) _ c.table
