-- ===== src/Strategy/Plugin.antt =====
-- A running plugin as the routing code sees it (control/strategy/pool.go, AvailablePlugin). The
-- plugins are objects on a heap and a handle is an address, since the code compares pointers and
-- sets a plugin's id after others may hold it.
use snap.Base.{ℕ, Bool, ite, ℕ_discrete}
use snap.Base.Int.{ℤ}

pub data PluginType : Type 0 where
  collector processor publisher stream_collector : PluginType
  other_type : ℕ → PluginType

pub data RoutingStrategyType : Type 0 where
  default_routing sticky_routing config_routing : RoutingStrategyType
  other_routing : ℕ → RoutingStrategyType

pub record AvailablePlugin : Type 0 where
  pub id : ℕ
  pub type : PluginType
  pub exclusive : Bool
  pub cache_ttl : ℤ
  pub concurrency_count : ℕ
  pub routing_strategy : RoutingStrategyType
  pub last_hit : ℕ

abbrev pub Handle : Type 0
Handle = ℕ

abbrev pub Heap : Type 0
Heap = Handle → AvailablePlugin

unfoldable pub set_id : Heap → Handle → ℕ → Heap
unfolding ℕ_discrete
set_id heap a id b = ite (ℕ_discrete a b) (record (heap a) { id = id }) (heap b)
