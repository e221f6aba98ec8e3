-- ===== src/Strategy/Lru.antt =====
-- control/strategy/lru.go: the least recently used plugin is selected.
use snap.Base.{
  ℕ, ◌≤◌, ◌<◌, ◌≡◌, refl, Bool, true, false, ◌||◌, List, [], ◌∷◌, ◌++◌, Option, none, some, All,
  ltb, if◌then◌else◌, arith, ◌⊎◌, inl, inr, Bool-cases,
}
use snap.Strategy.Cache.{Result, ok, err, could_not_select}
use snap.Strategy.Plugin.{Heap, Handle}

-- The loop's variables `t` and `index`; the handle stands for the index.
pub record Scan : Type 0 where
  pub t : ℕ
  pub best : Option Handle

abbrev is_unset : Option Handle → Bool
is_unset none = true
is_unset (some _) = false

unfoldable pub scan_step : Heap → Scan → Handle → Scan
scan_step heap s ap =
    if ltb (heap ap).last_hit s.t || is_unset s.best
    then record { t = (heap ap).last_hit; best = some ap }
    else s

unfoldable pub scan : Heap → Scan → List Handle → Scan
unfolding scan_step
scan heap s [] = s
scan heap s (ap ∷ aps) = scan heap (scan_step heap s ap) aps

-- The strategy's only state is its cache, which a selection leaves alone.
unfoldable pub select : Heap → ℕ → List Handle → Result Handle
unfolding scan
select heap now aps = elim (scan heap (record { t = now; best = none }) aps).best [
  | some ap ↦ ok ap
  | none ↦ err could_not_select
]

-- Remove has no state to clean up.
unfoldable pub remove : Heap → ℕ → List Handle → Result Handle
remove = select

module _ (heap : Heap) where
  abbrev hit_time : Handle → ℕ
  hit_time ap = (heap ap).last_hit

  -- `ap` is the first of the plugins whose last use is the earliest.
  pub record IsFirstOldest (aps : List Handle) (ap : Handle) : Type 0 where
    pub before : List Handle
    pub after : List Handle
    pub split : aps ≡ before ++ (ap ∷ after)
    pub newer_before : All (λ b. hit_time ap < hit_time b) before
    pub not_older_after : All (λ b. hit_time ap ≤ hit_time b) after

  push_newer :
      (b c ap : Handle) (aps before after : List Handle)
      → hit_time c < hit_time b
      → c ∷ aps ≡ before ++ (ap ∷ after)
      → All (λ d. hit_time ap < hit_time d) before
      → hit_time ap < hit_time b
  push_newer b c ap aps [] after h e newer = ground arith
  push_newer b c ap aps (d ∷ before) after h e newer = ground arith

  insert_second :
      (b c ap : Handle) (aps before after : List Handle)
      → hit_time b ≤ hit_time c
      → b ∷ aps ≡ before ++ (ap ∷ after)
      → All (λ d. hit_time ap < hit_time d) before
      → All (λ d. hit_time ap ≤ hit_time d) after
      → IsFirstOldest (b ∷ c ∷ aps) ap
  insert_second b c ap aps [] after h e newer older = record {
    before = [];
    after = c ∷ after;
    split = cc;
    newer_before = tt;
    not_older_after = (ground arith, older);
  }
  insert_second b c ap aps (d ∷ before) after h e newer older = record {
    before = d ∷ c ∷ before;
    after = after;
    split = cc;
    newer_before = (newer.0, (ground arith, newer.1));
    not_older_after = older;
  }

  abbrev seen : Handle → Scan
  seen b = record { t = hit_time b; best = some b }

  step_older :
      (b c : Handle) → ltb (hit_time c) (hit_time b) ≡ true → scan_step heap (seen b) c ≡ seen c
  unfolding scan_step
  step_older b c h = ground arith

  step_newer :
      (b c : Handle) → ltb (hit_time c) (hit_time b) ≡ false → scan_step heap (seen b) c ≡ seen b
  unfolding scan_step
  step_newer b c h = ground arith

  step_first : (now : ℕ) (b : Handle) → scan_step heap (record { t = now; best = none }) b ≡ seen b
  unfolding scan_step
  step_first now b = ground arith

  Found : List Handle → Scan → Type 0
  Found aps s = (ap : Handle) × (s.best ≡ some ap) × IsFirstOldest aps ap

  -- With `b` the best so far the loop ends at the first oldest of `b` and the rest.
  scan-seen : (b : Handle) (aps : List Handle) → Found (b ∷ aps) (scan heap (seen b) aps)
  unfolding scan Found
  scan-seen b [] = (
    b,
    refl,
    record { before = []; after = []; split = refl; newer_before = tt; not_older_after = tt },
  )
  scan-seen b (c ∷ aps) = elim (Bool-cases (ltb (hit_time c) (hit_time b))) [
    | inl older ↦
        let (ap, found, f) = scan-seen c aps in
        rw (step_older b c older, scan)
          (
            ap,
            found,
            record {
              before = b ∷ f.before;
              after = f.after;
              split = ap_cons f.split;
              newer_before = (
                push_newer b c ap aps f.before f.after (ground arith) f.split f.newer_before,
                f.newer_before,
              );
              not_older_after = f.not_older_after;
            },
          )
    | inr kept ↦
        let (ap, found, f) = scan-seen b aps in
        rw (step_newer b c kept, scan)
          (
            ap,
            found,
            insert_second b c ap aps f.before f.after (ground arith) f.split f.newer_before
                f.not_older_after,
          )
  ]
    where
      ap_cons : {xs ys : List Handle} → xs ≡ ys → b ∷ xs ≡ b ∷ ys
      ap_cons e = cc

  -- From a nonempty list the least recently used plugin is selected, the first of those with equal
  -- times, whatever the clock reads; from an empty list none is.
  pub select-IsFirstOldest :
      (now : ℕ) (aps : List Handle)
      → ((aps ≡ []) × (select heap now aps ≡ err could_not_select))
        ⊎ ((ap : Handle) × (select heap now aps ≡ ok ap) × IsFirstOldest aps ap)
  unfolding select scan Found
  select-IsFirstOldest now [] = inl (refl, refl)
  select-IsFirstOldest now (b ∷ aps) =
      let (ap, found, f) = scan-seen b aps in
      inr (ap, rw (step_first now b, scan, select, found), f)
