-- ===== src/Control/Unloading.antt =====
-- control/subscription_group.go: whether a plugin may be unloaded while tasks need it. Which plugins
-- expose a metric is what GetPlugins of the metric catalog gives, and an argument here.
use mathlib.Core.List.{Memᴰ}
use snap.Base.{Bool, false, ◌&&◌, ◌||◌, if◌then◌else◌, List, [], ◌∷◌, Text}
use snap.Base.Int.{ℤ, pos, ltb_ℤ, leb_ℤ}
use snap.Control.{SubscribedPlugin, LoadedPlugin, loaded_key, same_key}

pub record RequestedMetric : Type 0 where
  pub namespace : List Text
  pub version : ℤ

abbrev same_version : ℤ → ℤ → Bool
same_version v w = leb_ℤ v w && leb_ℤ w v

unfoldable pub plugin_is_subscribed : List SubscribedPlugin → LoadedPlugin → Bool
plugin_is_subscribed [] plg = false
plugin_is_subscribed (p ∷ ps) plg =
    (same_key p.type_name plg.type_name
      && same_key p.name plg.name
      && same_version p.version plg.version)
    || plugin_is_subscribed ps plg

unfoldable pub of_version : ℤ → List LoadedPlugin → List LoadedPlugin
of_version v [] = []
of_version v (p ∷ ps) =
    let rest = of_version v ps in if same_version p.version v then p ∷ rest else rest

-- The plugins that are taken into account for a metric.
unfoldable pub in_play : RequestedMetric → LoadedPlugin → List LoadedPlugin → List LoadedPlugin
in_play m plg plgs =
    if ltb_ℤ (pos 0) m.version && same_version m.version plg.version
    then of_version m.version plgs
    else plgs

unfoldable pub is_only : LoadedPlugin → List LoadedPlugin → Bool
is_only plg [] = false
is_only plg (p ∷ []) = same_key (loaded_key p) (loaded_key plg)
is_only plg (p ∷ q ∷ ps) = false

module _ (exposing : List Text → List LoadedPlugin) where
  unfoldable pub is_impacted : List RequestedMetric → LoadedPlugin → Bool
  is_impacted [] plg = false
  is_impacted (m ∷ ms) plg =
      is_only plg (in_play m plg (exposing m.namespace)) || is_impacted ms plg

  -- Whether the group of a task forbids the unloading.
  unfoldable pub forbids_unloading :
      List RequestedMetric → List SubscribedPlugin → LoadedPlugin → Bool
  forbids_unloading metrics plugins plg =
      plugin_is_subscribed plugins plg && is_impacted metrics plg
