-- ===== src/Strategy/ConfigBased/AsSticky.antt =====
-- Routing by configuration is sticky routing with the configuration's id in the place of the task's.
use snap.Base.{ℕ, ◌≡◌, refl, List, [], ◌∷◌, Text, arith}
use snap.Strategy.Cache.{Metric, Result, ok, err}
use snap.Strategy.Plugin.{Handle}
use snap.Strategy.Sticky
use snap.Strategy.Sticky.{Sticky}
use snap.Strategy.ConfigBased
use snap.Strategy.ConfigBased.{ConfigBased}

pub as_sticky : ConfigBased → Sticky
as_sticky cb = record {
  plugins = cb.plugins;
  metric_cache = cb.metric_cache;
  cache_ttl = cb.cache_ttl;
}

abbrev pub both : ConfigBased × Result Handle → Sticky × Result Handle
both r = (as_sticky r.0, r.1)

is_busy-as_sticky :
    (ap : Handle) (m : List (Text × Handle)) → ConfigBased.is_busy ap m ≡ Sticky.is_busy ap m
unfolding ConfigBased.is_busy Sticky.is_busy
is_busy-as_sticky ap [] = refl
is_busy-as_sticky ap ((t, b) ∷ m) = ground (arith, is_busy-as_sticky ap m)

first_available-as_sticky :
    (aps : List Handle) (m : List (Text × Handle))
    → ConfigBased.first_available aps m ≡ Sticky.first_available aps m
unfolding ConfigBased.first_available Sticky.first_available
first_available-as_sticky [] m = refl
first_available-as_sticky (ap ∷ aps) m =
    ground (arith, is_busy-as_sticky ap m, first_available-as_sticky aps m)

select-as_sticky :
    (cb : ConfigBased) (aps : List Handle) (id : Text)
    → both (ConfigBased.select cb aps id) ≡ Sticky.select (as_sticky cb) aps id
unfolding ConfigBased.select ConfigBased.add_first Sticky.select Sticky.select_plugin as_sticky
select-as_sticky cb aps id = ground (arith, first_available-as_sticky aps cb.plugins)

finish_remove-as_sticky :
    (id : Text) (cb : ConfigBased) (r : Result Handle)
    → both (ConfigBased.finish_remove id cb r) ≡ Sticky.finish_remove id (as_sticky cb) r
unfolding ConfigBased.finish_remove Sticky.finish_remove ConfigBased.release Sticky.release
    as_sticky
finish_remove-as_sticky id cb (ok ap) = refl
finish_remove-as_sticky id cb (err e) = refl

remove-as_sticky :
    (cb : ConfigBased) (aps : List Handle) (id : Text)
    → both (ConfigBased.remove cb aps id) ≡ Sticky.remove (as_sticky cb) aps id
unfolding ConfigBased.remove Sticky.remove
remove-as_sticky cb aps id =
    let r = ConfigBased.select cb aps id in
    rw (← select-as_sticky cb aps id) (finish_remove-as_sticky id r.0 r.1)

-- Selection, removal and both cache calls of the configuration strategy give what the sticky
-- strategy gives at the same state, and leave the same state.
pub calls-as_sticky :
    (cb : ConfigBased) (aps : List Handle) (id : Text) (clock : ℕ → ℕ) (mts : List Metric)
    → (both (ConfigBased.select cb aps id) ≡ Sticky.select (as_sticky cb) aps id)
      × (both (ConfigBased.remove cb aps id) ≡ Sticky.remove (as_sticky cb) aps id)
      × ((let (cb', collect, cached) = ConfigBased.check_cache clock cb mts id in
            (as_sticky cb', collect, cached))
          ≡ Sticky.check_cache clock (as_sticky cb) mts id)
      × (as_sticky (ConfigBased.update_cache clock cb mts id)
          ≡ Sticky.update_cache clock (as_sticky cb) mts id)
calls-as_sticky cb aps id clock mts = (
  select-as_sticky cb aps id,
  remove-as_sticky cb aps id,
  unfold ConfigBased.check_cache Sticky.check_cache ConfigBased.id_cache Sticky.task_cache
        as_sticky in
      refl,
  unfold ConfigBased.update_cache Sticky.update_cache ConfigBased.id_cache Sticky.task_cache
        as_sticky in
      refl,
)
