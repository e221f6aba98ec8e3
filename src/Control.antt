-- ===== src/Control.antt =====
-- control/subscription_group.go, with the tables that it works on: the loaded plugins of
-- control/plugin_manager.go and the pools of control/available_plugin.go. A method holds its table's
-- mutex to the end, so it is one step.
pub mod Loaded
pub mod Available
pub mod Groups
pub mod Latest
pub mod Failing
pub mod Unloading
pub mod Comparing
pub mod Subscribing
pub mod Keys
pub mod Releasing
pub mod Finding
pub mod Coverage
mod Samples
use snap.Base.{ℕ, Bool, List, [], ◌∷◌, ◌++◌, Text, ite, text_discrete, true, false}
use snap.Base.Int.{ℤ}
use snap.Base.Decimal.{show_int}
use snap.Namespace.{separator}

-- A plugin of a task. Its configuration is left out.
pub record SubscribedPlugin : Type 0 where
  pub type_name : Text
  pub name : Text
  pub version : ℤ

-- A plugin that is loaded: whether it has a configuration policy and whether it runs on another host.
pub record LoadedPlugin : Type 0 where
  pub type_name : Text
  pub name : Text
  pub version : ℤ
  pub has_policy : Bool
  pub is_remote : Bool

unfoldable pub type_name_version : Text → Text → ℤ → Text
type_name_version type_name name version =
    type_name ++ (separator ∷ (name ++ (separator ∷ show_int version)))

unfoldable pub subscribed_key : SubscribedPlugin → Text
subscribed_key p = type_name_version p.type_name p.name p.version

unfoldable pub loaded_key : LoadedPlugin → Text
loaded_key p = type_name_version p.type_name p.name p.version

pub data GroupError : Type 0 where
  plugin_not_found bad_key pool_failed plugin_failed event_failed metric_failed : GroupError
  group_already_exists group_does_not_exist : GroupError

abbrev pub same_key : Text → Text → Bool
same_key s t = ite (text_discrete s t) true false
