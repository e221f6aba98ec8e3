-- ===== src/Tribe/Calls.antt =====
-- mgmt/tribe/tribe.go: the calls by which the node itself changes an agreement. A call makes a
-- message with the next time and hands it to the handler that the others' messages go to.
use snap.Base.{ℕ, true, false, List, [], ◌∷◌, Option, none, some, Text}
use snap.Agreement.{PluginItem, TaskItem}
use snap.Tribe.{
  Replica, Tribe, Message, TaskMsg, add_plugin_msg, remove_plugin_msg, add_agreement_msg,
  remove_agreement_msg, join_agreement_msg, leave_agreement_msg, add_task_msg, remove_task_msg,
  stop_task_msg, start_task_msg, agreement_at, increment_clock,
}
use snap.Tribe.Membership.{
  TribeError, agreement_does_not_exist, agreement_already_exists, can_join_agreement,
  can_leave_agreement, can_add_task, can_start_stop_remove_task,
}
use snap.Tribe.Handlers.{handle_message}

-- A refused call returns its error; any other returns none of it, the state after it and the
-- messages it has queued for broadcast.
pub data Reply : Type 0 where
  refused : TribeError → Reply
  done : Tribe → List Message → Reply

abbrev exists : Replica → Text → Option TribeError
exists r name = elim (agreement_at r name) [ none ↦ some agreement_does_not_exist | some _ ↦ none ]

abbrev is_new : Replica → Text → Option TribeError
is_new r name = elim (agreement_at r name) [ some _ ↦ some agreement_already_exists | none ↦ none ]

-- What the calls share: the check, then the handler, then the broadcast if the handler says so.
unfoldable pub issue : Text → ℕ → Tribe → Option TribeError → (ℕ → Message) → Option Reply
issue local_name fuel t (some e) make = some (refused e)
issue local_name fuel t none make =
    let now : ℕ = increment_clock t.clock in
    elim (handle_message local_name fuel (make now) (record t { clock = now })) [
      | none ↦ none
      | some (true, t1) ↦ some (done t1 (make now ∷ []))
      | some (false, t1) ↦ some (done t1 [])
    ]

-- `uuid` is the identifier that the call draws.
module _ (local_name : Text) (fuel : ℕ) (t : Tribe) (uuid : Text) where
  unfoldable pub call_leave_agreement : Text → Text → Option Reply
  call_leave_agreement name member =
      issue local_name fuel t (can_leave_agreement t.replica name member) λ now.
        leave_agreement_msg
          (record { time = now; uuid = uuid; agreement_name = name; member_name = member })

  unfoldable pub call_join_agreement : Text → Text → Option Reply
  call_join_agreement name member =
      issue local_name fuel t (can_join_agreement t.replica name member) λ now.
        join_agreement_msg
          (record { time = now; uuid = uuid; agreement_name = name; member_name = member })

  unfoldable pub call_add_plugin : Text → PluginItem → Option Reply
  call_add_plugin name p =
      issue local_name fuel t (exists t.replica name) λ now.
        add_plugin_msg (record { time = now; plugin = p; uuid = uuid; agreement_name = name })

  unfoldable pub call_remove_plugin : Text → PluginItem → Option Reply
  call_remove_plugin name p = issue local_name fuel t (exists t.replica name) λ now.
      remove_plugin_msg (record { time = now; plugin = p; uuid = uuid; agreement_name = name })

  unfoldable pub call_add_task : Text → TaskItem → Option Reply
  call_add_task name task = issue local_name fuel t (can_add_task t.replica task name) λ now.
      add_task_msg (record {
        time = now;
        uuid = uuid;
        task_id = task.id;
        start_on_create = task.start_on_create;
        agreement_name = name;
      })

  abbrev make_task_msg : TaskItem → Text → ℕ → TaskMsg
  make_task_msg task name now = record {
    time = now;
    uuid = uuid;
    task_id = task.id;
    start_on_create = false;
    agreement_name = name;
  }

  unfoldable pub call_remove_task : Text → TaskItem → Option Reply
  call_remove_task name task =
      issue local_name fuel t (can_start_stop_remove_task t.replica task name)
        λ now. remove_task_msg (make_task_msg task name now)

  unfoldable pub call_stop_task : Text → TaskItem → Option Reply
  call_stop_task name task =
      issue local_name fuel t (can_start_stop_remove_task t.replica task name)
        λ now. stop_task_msg (make_task_msg task name now)

  unfoldable pub call_start_task : Text → TaskItem → Option Reply
  call_start_task name task =
      issue local_name fuel t (can_start_stop_remove_task t.replica task name)
        λ now. start_task_msg (make_task_msg task name now)

  unfoldable pub call_add_agreement : Text → Option Reply
  call_add_agreement name = issue local_name fuel t (is_new t.replica name) λ now.
      add_agreement_msg
        (record { time = now; uuid = uuid; agreement_name = name; member_name = [] })

  unfoldable pub call_remove_agreement : Text → Option Reply
  call_remove_agreement name = issue local_name fuel t (exists t.replica name) λ now.
      remove_agreement_msg
        (record { time = now; uuid = uuid; agreement_name = name; member_name = [] })
