-- ===== src/Tribe/Intents.antt =====
-- mgmt/tribe/tribe.go: the messages that came too early and wait in the intent buffer.
-- processIntents runs until no waiting message can be applied; the fuel bounds its rounds.
use snap.Base.{
  ℕ, zero, suc, Bool, true, if◌then◌else◌, false, List, [], ◌∷◌, ◌++◌, Option, none, some, take,
  drop, Text, text_discrete,
}
use mathlib.Core.List.{lookup}
use snap.Base.Map.{delete}
use snap.Agreement.{PluginItem, TaskItem, index_of, same_plugin, same_task}
use snap.Tribe.{
  Replica, Message, add_plugin_msg, remove_plugin_msg, add_agreement_msg, remove_agreement_msg,
  join_agreement_msg, add_task_msg, remove_task_msg, plugin_loaded, task_created, agreement_at,
  find_member, set_items, create_agreement,
}
use snap.Tribe.Membership.{join_agreement, leave_agreement}

-- What one of the eight loops does about one waiting message: `none` goes on to the next message,
-- and otherwise the loop ends with this state, and with the message removed if the flag says so.
abbrev pub Attempt : Type 0
Attempt = Replica → Message → Option (Bool × Replica)

unfoldable pub task_of : Text → TaskItem
task_of id = record { id = id; start_on_create = false }

unfoldable pub try_add_plugin : Attempt
try_add_plugin r (add_plugin_msg m) = elim (agreement_at r m.agreement_name) [
  | none ↦ none
  | some a ↦
      let items = (r.heap a).items in
      elim (index_of same_plugin m.plugin items.plugins) [
        | some _ ↦ none
        | none ↦
            let r1 : Replica =
              set_items r a (record items { plugins = items.plugins ++ m.plugin ∷ [] }) in
            some (true, record r1 { plugin_work = r1.plugin_work ++ plugin_loaded m.plugin ∷ [] })
      ]
]
try_add_plugin r _ = none

-- Here the items before the removed one stay in front of those after it.
unfoldable pub try_remove_plugin : Attempt
try_remove_plugin r (remove_plugin_msg m) = elim (agreement_at r m.agreement_name) [
  | none ↦ none
  | some a ↦
      let items = (r.heap a).items in
      elim (index_of same_plugin m.plugin items.plugins) [
        | none ↦ none
        | some idx ↦
            let rest : List PluginItem = take idx items.plugins ++ drop (suc idx) items.plugins in
            some (true, set_items r a (record items { plugins = rest }))
      ]
]
try_remove_plugin r _ = none

unfoldable pub try_add_task : Attempt
try_add_task r (add_task_msg m) = elim (agreement_at r m.agreement_name) [
  | none ↦ none
  | some a ↦
      let items = (r.heap a).items in
      elim (index_of same_task (task_of m.task_id) items.tasks) [
        | some _ ↦ none
        | none ↦
            let r1 : Replica =
              set_items r a (record items { tasks = items.tasks ++ task_of m.task_id ∷ [] }) in
            let work = task_created m.task_id m.start_on_create in
            some (true, record r1 { task_work = r1.task_work ++ work ∷ [] })
      ]
]
try_add_task r _ = none

unfoldable pub try_remove_task : Attempt
try_remove_task r (remove_task_msg m) = elim (agreement_at r m.agreement_name) [
  | none ↦ none
  | some a ↦
      let items = (r.heap a).items in
      elim (index_of same_task (task_of m.task_id) items.tasks) [
        | none ↦ none
        | some idx ↦
            let rest : List TaskItem = take idx items.tasks ++ drop (suc idx) items.tasks in
            some (true, set_items r a (record items { tasks = rest }))
      ]
]
try_remove_task r _ = none

unfoldable pub try_add_agreement : Attempt
try_add_agreement r (add_agreement_msg m) = elim (agreement_at r m.agreement_name) [
  | some _ ↦ none
  | none ↦ some (true, create_agreement r m.agreement_name)
]
try_add_agreement r _ = none

unfoldable pub try_remove_agreement : Attempt
try_remove_agreement r (remove_agreement_msg m) = elim (agreement_at r m.agreement_name) [
  | none ↦ none
  | some _ ↦
      some (true, record r { agreements = delete text_discrete m.agreement_name r.agreements })
]
try_remove_agreement r _ = none

unfoldable pub try_join : Text → Attempt
try_join local_name r (join_agreement_msg m) = elim (find_member r m.member_name) [
  | none ↦ none
  | some _ ↦ elim (agreement_at r m.agreement_name) [
    | none ↦ none
    | some _ ↦ elim (join_agreement local_name r m) [
      | none ↦ some (false, r)
      | some r1 ↦ some (true, r1)
    ]
  ]
]
try_join local_name r _ = none

-- The loop that is to serve leave messages looks at join messages, as the source does.
unfoldable pub try_leave : Attempt
try_leave r (join_agreement_msg m) = elim (find_member r m.member_name) [
  | none ↦ none
  | some _ ↦ elim (agreement_at r m.agreement_name) [
    | none ↦ none
    | some a ↦ elim (lookup text_discrete m.member_name (r.heap a).members) [
      | none ↦ none
      | some _ ↦ elim (leave_agreement r m) [ none ↦ some (false, r) | some r1 ↦ some (true, r1) ]
    ]
  ]
]
try_leave r _ = none

-- The first message about which something is done, and the buffer after that.
unfoldable pub first_applied : Attempt → Replica → List Message → Option (Replica × List Message)
first_applied attempt r [] = none
first_applied attempt r (v ∷ vs) =
    let further : Option (Replica × List Message) = elim (first_applied attempt r vs) [
      | none ↦ none
      | some (r1, left) ↦ some (r1, v ∷ left)
    ] in
    elim (attempt r v) [
      | some (true, r1) ↦ some (r1, vs)
      | some (false, r1) ↦ some (r1, v ∷ vs)
      | none ↦ further
    ]

-- One of the eight loops: `true` when no message can be applied.
unfoldable pub process_loop : Attempt → Replica → Bool × Replica
process_loop attempt r = elim (first_applied attempt r r.intent_buffer) [
  | none ↦ (true, r)
  | some (r1, left) ↦ (false, record r1 { intent_buffer = left })
]

-- The loops one after another, until one has applied a message.
unfoldable pub process_each : List Attempt → Replica → Bool × Replica
process_each [] r = (true, r)
process_each (attempt ∷ attempts) r =
    let (settled, r1) = process_loop attempt r in
    let further : Bool × Replica = process_each attempts r1 in
    if settled then further else (false, r1)

unfoldable pub attempts : Text → List Attempt
attempts local_name =
    try_add_plugin
    ∷ try_remove_plugin
    ∷ try_add_agreement
    ∷ try_remove_agreement
    ∷ try_join local_name
    ∷ try_leave
    ∷ try_add_task
    ∷ try_remove_task
    ∷ []

unfoldable pub process_intents : Text → ℕ → Replica → Option Replica
process_intents local_name zero r = none
process_intents local_name (suc fuel) r =
    let (settled, r1) = process_each (attempts local_name) r in
    let further : Option Replica = process_intents local_name fuel r1 in
    if settled then some r1 else further
