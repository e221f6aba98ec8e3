-- ===== src/Tribe/Handlers.antt =====
-- mgmt/tribe/tribe.go: the handlers of the messages, and NotifyMsg of mgmt/tribe/delegate.go, which
-- hands a message to its handler. The work queues are taken to have room; the clock of the cache's
-- timers is left out, and `expire` is what a timer does.
use mathlib.Core.List.{lookup}
use snap.Base.{
  ℕ, Bool, true, false, if◌then◌else◌, List, [], ◌∷◌, ◌++◌, Option, none, some, Text, text_discrete,
}
use snap.Base.Map.{put, delete}
use snap.Agreement.{PluginItem, add_plugin, remove_plugin, add_task, remove_task}
use snap.Tribe.{
  Replica, Tribe, Message, PluginMsg, AgreementMsg, TaskMsg, Present, is_listed, add_plugin_msg,
  remove_plugin_msg, add_agreement_msg, remove_agreement_msg, join_agreement_msg,
  leave_agreement_msg, add_task_msg, remove_task_msg, stop_task_msg, start_task_msg, plugin_loaded,
  task_created, task_removed, task_started, task_stopped, agreement_at, set_items, create_agreement,
  accept,
}
use snap.Tribe.Membership.{add_member, join_agreement, leave_agreement}
use snap.Tribe.Intents.{process_intents, task_of}

abbrev pub Result : Type 0
Result = Option (Bool × Replica)

-- addPluginIntent, addAgreementIntent and addTaskIntent.
unfoldable pub add_intent : Replica → Message → Replica
add_intent r m = record r { intent_buffer = r.intent_buffer ++ m ∷ [] }

-- The work that a handler does after processIntents, and its answer to broadcast the message.
unfoldable pub after_intents : Option Replica → (Replica → Replica) → Result
after_intents none work = none
after_intents (some r) work = some (true, work r)

abbrev as_is : Replica → Replica
as_is r = r

unfoldable pub unload : PluginItem → Replica → Replica
unload p r = if r.has_catalog then record r { unloads = r.unloads ++ p ∷ [] } else r

-- `none` when the cache holds the key already.
unfoldable pub put_cache : Text → List (Text × Present) → Option (List (Text × Present))
put_cache uuid table = elim (lookup text_discrete uuid table) [
  | some _ ↦ none
  | none ↦ some (put text_discrete uuid is_listed table)
]

unfoldable pub expire : Text → List (Text × Present) → List (Text × Present)
expire uuid table = delete text_discrete uuid table

module _ (local_name : Text) (fuel : ℕ) where
  unfoldable pub add_plugin_body : PluginMsg → Replica → Result
  add_plugin_body m r =
      let intent : Result = some (true, add_intent r (add_plugin_msg m)) in
      elim (agreement_at r m.agreement_name) [
        | none ↦ intent
        | some a ↦
            let (items, added) = add_plugin (r.heap a).items m.plugin in
            let r1 : Replica = set_items r a items in
            let r2 : Replica = record r1 {
              plugin_work = r1.plugin_work ++ plugin_loaded m.plugin ∷ [];
            } in
            if added then after_intents (process_intents local_name fuel r2) as_is else intent
      ]

  unfoldable pub remove_plugin_body : PluginMsg → Replica → Result
  remove_plugin_body m r =
      let intent : Result = some (true, add_intent r (remove_plugin_msg m)) in
      elim (agreement_at r m.agreement_name) [
        | none ↦ intent
        | some a ↦
            let (items, removed) = remove_plugin (r.heap a).items m.plugin in
            let r1 : Replica = set_items r a items in
            if removed
            then after_intents (process_intents local_name fuel r1) (unload m.plugin)
            else intent
      ]

  unfoldable pub add_task_body : TaskMsg → Replica → Result
  add_task_body m r =
      let intent : Result = some (true, add_intent r (add_task_msg m)) in
      elim (agreement_at r m.agreement_name) [
        | none ↦ intent
        | some a ↦
            let (items, added) = add_task (r.heap a).items (task_of m.task_id) in
            let r1 : Replica = set_items r a items in
            let work = task_created m.task_id m.start_on_create in
            let r2 : Replica = record r1 { task_work = r1.task_work ++ work ∷ [] } in
            if added then after_intents (process_intents local_name fuel r2) as_is else intent
      ]

  unfoldable pub remove_task_body : TaskMsg → Replica → Result
  remove_task_body m r =
      let intent : Result = some (true, add_intent r (remove_task_msg m)) in
      elim (agreement_at r m.agreement_name) [
        | none ↦ intent
        | some a ↦
            let (items, removed) = remove_task (r.heap a).items (task_of m.task_id) in
            let r1 : Replica = set_items r a items in
            let r2 : Replica = record r1 {
              task_work = r1.task_work ++ task_removed m.task_id ∷ [];
            } in
            if removed then after_intents (process_intents local_name fuel r2) as_is else intent
      ]

  unfoldable pub add_agreement_body : AgreementMsg → Replica → Result
  add_agreement_body m r = elim (agreement_at r m.agreement_name) [
    | some _ ↦ some (true, add_intent r (add_agreement_msg m))
    | none ↦
        after_intents (process_intents local_name fuel (create_agreement r m.agreement_name)) as_is
  ]

  unfoldable pub remove_agreement_body : AgreementMsg → Replica → Result
  remove_agreement_body m r = elim (agreement_at r m.agreement_name) [
    | none ↦ some (true, r)
    | some _ ↦
        let r1 : Replica = record r {
          agreements = delete text_discrete m.agreement_name r.agreements;
        } in
        after_intents (process_intents local_name fuel r1) as_is
  ]

  unfoldable pub join_agreement_body : AgreementMsg → Replica → Result
  join_agreement_body m r = elim (join_agreement local_name r m) [
    | some r1 ↦ after_intents (process_intents local_name fuel r1) as_is
    | none ↦ some (true, add_intent r (join_agreement_msg m))
  ]

  unfoldable pub leave_agreement_body : AgreementMsg → Replica → Result
  leave_agreement_body m r = elim (leave_agreement r m) [
    | some r1 ↦ after_intents (process_intents local_name fuel r1) as_is
    | none ↦ some (true, add_intent r (leave_agreement_msg m))
  ]

  unfoldable pub start_task_body : TaskMsg → Replica → Result
  start_task_body m r = elim (agreement_at r m.agreement_name) [
    | none ↦ some (true, r)
    | some _ ↦ elim (put_cache m.uuid r.started_cache) [
      | none ↦ some (false, r)
      | some table ↦ some (
        true,
        record r { started_cache = table; task_work = r.task_work ++ task_started m.task_id ∷ [] },
      )
    ]
  ]

  unfoldable pub stop_task_body : TaskMsg → Replica → Result
  stop_task_body m r = elim (agreement_at r m.agreement_name) [
    | none ↦ some (true, r)
    | some _ ↦ elim (put_cache m.uuid r.stopped_cache) [
      | none ↦ some (false, r)
      | some table ↦ some (
        true,
        record r { stopped_cache = table; task_work = r.task_work ++ task_stopped m.task_id ∷ [] },
      )
    ]
  ]

  -- handleMemberJoin: a node has joined the tribe.
  unfoldable pub handle_member_join : Text → Replica → Option Replica
  handle_member_join name r = process_intents local_name fuel (add_member r name)

  -- What the handler of a message does once the message counts as new.
  unfoldable pub body : Message → Replica → Result
  body (add_plugin_msg m) = add_plugin_body m
  body (remove_plugin_msg m) = remove_plugin_body m
  body (add_agreement_msg m) = add_agreement_body m
  body (remove_agreement_msg m) = remove_agreement_body m
  body (join_agreement_msg m) = join_agreement_body m
  body (leave_agreement_msg m) = leave_agreement_body m
  body (add_task_msg m) = add_task_body m
  body (remove_task_msg m) = remove_task_body m
  body (stop_task_msg m) = stop_task_body m
  body (start_task_msg m) = start_task_body m

  -- The flag tells whether the node broadcasts the message again.
  unfoldable pub handle_message : Message → Tribe → Option (Bool × Tribe)
  handle_message m t = accept m (body m) t
