-- ===== src/Tribe.antt =====
-- mgmt/tribe: one node's copy of the agreements that the nodes of a tribe share. It changes by the
-- messages that reach the node in any order, repeated or late. A handler holds the lock to its end,
-- so it is one step. Agreements are objects that members point to also after the map has lost them.
-- Left out: tags, nodes and broadcasts of the memberlist library, and logging.
pub mod Membership
pub mod Intents
pub mod Handlers
pub mod Calls
pub mod Delivery
pub mod Buffer
pub mod Settling
pub mod Endings
pub mod Absorbing
pub mod Ordering
pub mod Hearing
pub mod Stuck
pub mod Departure
pub mod Frame
pub mod Consistency
pub mod Pointers
pub mod Upkeep
pub mod Invariant
mod Samples
use mathlib.Core.List.{lookup}
use snap.Base.{
  ℕ, suc, ◌+◌, ◌-◌, ◌%◌, ◌^◌, Bool, true, false, ◌&&◌, List, [], ◌∷◌, Option, none, some, Text,
  text_discrete, ℕ_discrete, ltb, if◌then◌else◌, ite,
}
use snap.Base.Map.{put}
use snap.Agreement.{Agreement, PluginItem, TaskItem, new_agreement}

-- What clock.go does: a Lamport clock of 64 bits.
unfoldable pub increment_clock : ℕ → ℕ
increment_clock inc = (inc + 1) % 2 ^ 64

unfoldable pub update_clock : ℕ → ℕ → ℕ
update_clock inc lt = if ltb lt inc then inc else (lt + 1) % 2 ^ 64

pub record PluginMsg : Type 0 where
  pub time : ℕ
  pub plugin : PluginItem
  pub uuid : Text
  pub agreement_name : Text

pub record AgreementMsg : Type 0 where
  pub time : ℕ
  pub uuid : Text
  pub agreement_name : Text
  pub member_name : Text

pub record TaskMsg : Type 0 where
  pub time : ℕ
  pub uuid : Text
  pub task_id : Text
  pub start_on_create : Bool
  pub agreement_name : Text

-- A message with its type; every sender sets the type that goes with the struct.
pub data Message : Type 0 where
  add_plugin_msg remove_plugin_msg : PluginMsg → Message
  add_agreement_msg remove_agreement_msg : AgreementMsg → Message
  join_agreement_msg leave_agreement_msg : AgreementMsg → Message
  add_task_msg remove_task_msg stop_task_msg start_task_msg : TaskMsg → Message

unfoldable pub time_of : Message → ℕ
time_of (add_plugin_msg m) = m.time
time_of (remove_plugin_msg m) = m.time
time_of (add_agreement_msg m) = m.time
time_of (remove_agreement_msg m) = m.time
time_of (join_agreement_msg m) = m.time
time_of (leave_agreement_msg m) = m.time
time_of (add_task_msg m) = m.time
time_of (remove_task_msg m) = m.time
time_of (stop_task_msg m) = m.time
time_of (start_task_msg m) = m.time

unfoldable pub uuid_of : Message → Text
uuid_of (add_plugin_msg m) = m.uuid
uuid_of (remove_plugin_msg m) = m.uuid
uuid_of (add_agreement_msg m) = m.uuid
uuid_of (remove_agreement_msg m) = m.uuid
uuid_of (join_agreement_msg m) = m.uuid
uuid_of (leave_agreement_msg m) = m.uuid
uuid_of (add_task_msg m) = m.uuid
uuid_of (remove_task_msg m) = m.uuid
uuid_of (stop_task_msg m) = m.uuid
uuid_of (start_task_msg m) = m.uuid

-- The members of an agreement are pointers of the members map, known by their key.
pub data Present : Type 0 where
  is_listed : Present

-- An agreement object: what Agreement holds, and the names of its members.
pub record Roster : Type 0 where
  pub items : Agreement
  pub members : List (Text × Present)

-- The address of an agreement object.
abbrev pub Address : Type 0
Address = ℕ

pub record Member : Type 0 where
  pub name : Text
  pub plugin_agreement : Option Address
  pub task_agreements : List (Text × Address)

unfoldable pub new_member : Text → Member
new_member name = record { name = name; plugin_agreement = none; task_agreements = [] }

pub data PluginRequest : Type 0 where
  plugin_loaded : PluginItem → PluginRequest

pub data TaskRequest : Type 0 where
  task_created : Text → Bool → TaskRequest
  task_removed task_started task_stopped : Text → TaskRequest

-- The part of the state that the bodies of the handlers change. `heap` tells what stands at each
-- address, and addresses from `next` on are free. The two caches are the start-stop cache, whose keys
-- begin with the type of the message. `unloads` are the calls of the plugin catalog and
-- `joins` the agreements for which this node has started to fetch plugins and tasks.
pub record Replica : Type 0 where
  pub agreements : List (Text × Address)
  pub heap : Address → Roster
  pub next : Address
  pub members : List (Text × Member)
  pub intent_buffer : List Message
  pub started_cache : List (Text × Present)
  pub stopped_cache : List (Text × Present)
  pub plugin_work : List PluginRequest
  pub task_work : List TaskRequest
  pub has_catalog : Bool
  pub unloads : List PluginItem
  pub joins : List Address

pub record Tribe : Type 0 where
  pub clock : ℕ
  pub msg_buffer : List (ℕ × Message)
  pub replica : Replica

unfoldable pub agreement_at : Replica → Text → Option Address
agreement_at r name = lookup text_discrete name r.agreements

unfoldable pub find_member : Replica → Text → Option Member
find_member r name = lookup text_discrete name r.members

unfoldable pub write : (Address → Roster) → Address → Roster → Address → Roster
write heap a v b = ite (ℕ_discrete a b) v (heap b)

unfoldable pub set_items : Replica → Address → Agreement → Replica
set_items r a items = record r { heap = write r.heap a (record (r.heap a) { items = items }) }

unfoldable pub create_agreement : Replica → Text → Replica
create_agreement r name = record r {
  agreements = put text_discrete name r.next r.agreements;
  heap = write r.heap r.next (record { items = new_agreement name; members = [] });
  next = suc r.next;
}

abbrev pub buffer_length : ℕ
buffer_length = 512

abbrev same_uuid : Message → Message → Bool
same_uuid seen m = ite (text_discrete (uuid_of seen) (uuid_of m)) true false

unfoldable pub is_duplicate : Tribe → Message → Bool
is_duplicate t m =
    if ltb buffer_length t.clock && ltb (time_of m) (t.clock - buffer_length)
    then true
    else elim (lookup ℕ_discrete (time_of m % buffer_length) t.msg_buffer) [
      | some seen ↦ same_uuid seen m
      | none ↦ false
    ]

-- What all handlers begin with. `none` is a panic or a handler that does not come to its end.
unfoldable pub accept :
    Message → (Replica → Option (Bool × Replica)) → Tribe → Option (Bool × Tribe)
accept m body t =
    let t1 : Tribe = record t { clock = update_clock t.clock (time_of m) } in
    let t2 : Tribe = record t1 {
      msg_buffer = put ℕ_discrete (time_of m % buffer_length) m t1.msg_buffer;
    } in
    if is_duplicate t1 m then some (false, t1) else elim (body t2.replica) [
      | some (rebroadcast, r) ↦ some (rebroadcast, record t2 { replica = r })
      | none ↦ none
    ]
