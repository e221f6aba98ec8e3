-- ===== src/Tribe/Invariant.antt =====
-- Every handler keeps a node's state consistent.
use snap.Base.{ℕ, ◌≡◌, inl, inr, subst, Bool, some, Text, Option-cases, Bool-cases}
use snap.Agreement.{PluginItem, add_plugin, remove_plugin, add_task, remove_task}
use snap.Tribe.{
  Replica, Tribe, Message, PluginMsg, AgreementMsg, TaskMsg, agreement_at, add_plugin_msg,
  remove_plugin_msg, add_agreement_msg, remove_agreement_msg, join_agreement_msg,
  leave_agreement_msg, add_task_msg, remove_task_msg, stop_task_msg, start_task_msg,
}
use snap.Tribe.Membership.{join_agreement, leave_agreement}
use snap.Tribe.Intents.{process_intents, task_of}
use snap.Tribe.Handlers.{
  add_intent, after_intents, unload, put_cache, add_plugin_body, remove_plugin_body, add_task_body,
  remove_task_body, add_agreement_body, remove_agreement_body, join_agreement_body,
  leave_agreement_body, start_task_body, stop_task_body, body, handle_message,
}
use snap.Tribe.Delivery.{accept-cases}
use snap.Tribe.Frame.{After, AfterIntents}
use snap.Tribe.Consistency.{IsConsistent, delete-IsSound}
use snap.Tribe.Upkeep.{
  set_items-IsConsistent, create_agreement-IsConsistent, join_agreement-IsConsistent,
  leave_agreement-IsConsistent, add_plugin-name, remove_plugin-name, add_task-name,
  remove_task-name, process_intents-IsConsistent,
}

after_intents-keeps :
    (local_name : Text) (fuel : ℕ) (r : Replica) (work : Replica → Replica)
    → ((r1 : Replica) → IsConsistent r1 → IsConsistent (work r1))
    → IsConsistent r
    → After IsConsistent (after_intents (process_intents local_name fuel r) work)
unfolding after_intents
after_intents-keeps local_name fuel r work k s =
    let p = process_intents-IsConsistent local_name fuel r s in
    elim (Option-cases (process_intents local_name fuel r)) [
      | inl e ↦ rw (e, after_intents) tt
      | inr (r1, e) ↦ rw (e, after_intents) (k r1 (subst (AfterIntents IsConsistent) e p))
    ]

unload-IsConsistent : (p : PluginItem) (r : Replica) → IsConsistent r → IsConsistent (unload p r)
unfolding unload
unload-IsConsistent p r s = elim (Bool-cases r.has_catalog) [
  | inl e ↦ rw (e, unload) s
  | inr e ↦ rw (e, unload) s
]

module _ (local_name : Text) (fuel : ℕ) (r : Replica) (s : IsConsistent r) where
  add_plugin_body-keeps : (m : PluginMsg) → After IsConsistent (add_plugin_body local_name fuel m r)
  unfolding add_plugin_body add_intent
  add_plugin_body-keeps m = elim (Option-cases (agreement_at r m.agreement_name)) [
    | inl e ↦ rw (e, add_plugin_body) s
    | inr (a, e) ↦
        let items = (r.heap a).items in
        let set = set_items-IsConsistent r a _ s (add_plugin-name items m.plugin) in
        elim (Bool-cases (add_plugin items m.plugin).1) [
          | inl p ↦
              rw (e, add_plugin_body, p)
                (after_intents-keeps local_name fuel _ (λ r1. r1) (λ r1 q. q) set)
          | inr p ↦ rw (e, add_plugin_body, p) s
        ]
  ]

  remove_plugin_body-keeps :
      (m : PluginMsg) → After IsConsistent (remove_plugin_body local_name fuel m r)
  unfolding remove_plugin_body add_intent
  remove_plugin_body-keeps m = elim (Option-cases (agreement_at r m.agreement_name)) [
    | inl e ↦ rw (e, remove_plugin_body) s
    | inr (a, e) ↦
        let items = (r.heap a).items in
        let set = set_items-IsConsistent r a _ s (remove_plugin-name items m.plugin) in
        elim (Bool-cases (remove_plugin items m.plugin).1) [
          | inl p ↦
              rw (e, remove_plugin_body, p)
                (after_intents-keeps local_name fuel _ (unload m.plugin)
                  (unload-IsConsistent m.plugin) set)
          | inr p ↦ rw (e, remove_plugin_body, p) s
        ]
  ]

  add_task_body-keeps : (m : TaskMsg) → After IsConsistent (add_task_body local_name fuel m r)
  unfolding add_task_body add_intent
  add_task_body-keeps m = elim (Option-cases (agreement_at r m.agreement_name)) [
    | inl e ↦ rw (e, add_task_body) s
    | inr (a, e) ↦
        let items = (r.heap a).items in
        let set = set_items-IsConsistent r a _ s (add_task-name items (task_of m.task_id)) in
        elim (Bool-cases (add_task items (task_of m.task_id)).1) [
          | inl p ↦
              rw (e, add_task_body, p)
                (after_intents-keeps local_name fuel _ (λ r1. r1) (λ r1 q. q) set)
          | inr p ↦ rw (e, add_task_body, p) s
        ]
  ]

  remove_task_body-keeps : (m : TaskMsg) → After IsConsistent (remove_task_body local_name fuel m r)
  unfolding remove_task_body add_intent
  remove_task_body-keeps m = elim (Option-cases (agreement_at r m.agreement_name)) [
    | inl e ↦ rw (e, remove_task_body) s
    | inr (a, e) ↦
        let items = (r.heap a).items in
        let set = set_items-IsConsistent r a _ s (remove_task-name items (task_of m.task_id)) in
        elim (Bool-cases (remove_task items (task_of m.task_id)).1) [
          | inl p ↦
              rw (e, remove_task_body, p)
                (after_intents-keeps local_name fuel _ (λ r1. r1) (λ r1 q. q) set)
          | inr p ↦ rw (e, remove_task_body, p) s
        ]
  ]

  add_agreement_body-keeps :
      (m : AgreementMsg) → After IsConsistent (add_agreement_body local_name fuel m r)
  unfolding add_agreement_body add_intent
  add_agreement_body-keeps m = elim (Option-cases (agreement_at r m.agreement_name)) [
    | inl e ↦
        rw (e, add_agreement_body)
          (after_intents-keeps local_name fuel _ (λ r1. r1) (λ r1 q. q)
            (create_agreement-IsConsistent r m.agreement_name s))
    | inr (a, e) ↦ rw (e, add_agreement_body) s
  ]

  remove_agreement_body-keeps :
      (m : AgreementMsg) → After IsConsistent (remove_agreement_body local_name fuel m r)
  unfolding remove_agreement_body
  remove_agreement_body-keeps m = elim (Option-cases (agreement_at r m.agreement_name)) [
    | inl e ↦ rw (e, remove_agreement_body) s
    | inr (a, e) ↦
        rw (e, remove_agreement_body)
          (after_intents-keeps local_name fuel _ (λ r1. r1) (λ r1 q. q)
            (delete-IsSound s m.agreement_name))
  ]

  join_agreement_body-keeps :
      (m : AgreementMsg) → After IsConsistent (join_agreement_body local_name fuel m r)
  unfolding join_agreement_body add_intent
  join_agreement_body-keeps m = elim (Option-cases (join_agreement local_name r m)) [
    | inl e ↦ rw (e, join_agreement_body) s
    | inr (r1, e) ↦
        rw (e, join_agreement_body)
          (after_intents-keeps local_name fuel r1 (λ r1. r1) (λ r1 q. q)
            (subst (AfterIntents IsConsistent) e (join_agreement-IsConsistent local_name r m s)))
  ]

  leave_agreement_body-keeps :
      (m : AgreementMsg) → After IsConsistent (leave_agreement_body local_name fuel m r)
  unfolding leave_agreement_body add_intent
  leave_agreement_body-keeps m = elim (Option-cases (leave_agreement r m)) [
    | inl e ↦ rw (e, leave_agreement_body) s
    | inr (r1, e) ↦
        rw (e, leave_agreement_body)
          (after_intents-keeps local_name fuel r1 (λ r1. r1) (λ r1 q. q)
            (subst (AfterIntents IsConsistent) e (leave_agreement-IsConsistent r m s)))
  ]

  start_task_body-keeps : (m : TaskMsg) → After IsConsistent (start_task_body local_name fuel m r)
  unfolding start_task_body
  start_task_body-keeps m = elim (Option-cases (agreement_at r m.agreement_name)) [
    | inl e ↦ rw (e, start_task_body) s
    | inr (a, e) ↦ elim (Option-cases (put_cache m.uuid r.started_cache)) [
      | inl q ↦ rw (e, start_task_body, q) s
      | inr (table, q) ↦ rw (e, start_task_body, q) s
    ]
  ]

  stop_task_body-keeps : (m : TaskMsg) → After IsConsistent (stop_task_body local_name fuel m r)
  unfolding stop_task_body
  stop_task_body-keeps m = elim (Option-cases (agreement_at r m.agreement_name)) [
    | inl e ↦ rw (e, stop_task_body) s
    | inr (a, e) ↦ elim (Option-cases (put_cache m.uuid r.stopped_cache)) [
      | inl q ↦ rw (e, stop_task_body, q) s
      | inr (table, q) ↦ rw (e, stop_task_body, q) s
    ]
  ]

  body-keeps : (m : Message) → After IsConsistent (body local_name fuel m r)
  unfolding body
  body-keeps (add_plugin_msg m) = add_plugin_body-keeps m
  body-keeps (remove_plugin_msg m) = remove_plugin_body-keeps m
  body-keeps (add_agreement_msg m) = add_agreement_body-keeps m
  body-keeps (remove_agreement_msg m) = remove_agreement_body-keeps m
  body-keeps (join_agreement_msg m) = join_agreement_body-keeps m
  body-keeps (leave_agreement_msg m) = leave_agreement_body-keeps m
  body-keeps (add_task_msg m) = add_task_body-keeps m
  body-keeps (remove_task_msg m) = remove_task_body-keeps m
  body-keeps (stop_task_msg m) = stop_task_body-keeps m
  body-keeps (start_task_msg m) = start_task_body-keeps m

-- Whatever message a node handles, its state stays consistent: every agreement in the map is an
-- allocated object under its own name, so that no two share an object; every object that a member's
-- task agreements name is allocated, has that name and lists the member; and a member's plugin
-- agreement is allocated and one of its task agreements. The objects of a member need not be in the
-- map any more.
pub handle_message-IsConsistent :
    (local_name : Text) (fuel : ℕ) (m : Message) (t t1 : Tribe) (b : Bool)
    → IsConsistent t.replica
    → handle_message local_name fuel m t ≡ some (b, t1)
    → IsConsistent t1.replica
unfolding handle_message
handle_message-IsConsistent local_name fuel m t t1 b s h =
    accept-cases (λ u. IsConsistent u.replica) m (body local_name fuel m) t t1 b (λ _. s)
      (λ b1 r e. subst (After IsConsistent) e (body-keeps local_name fuel t.replica s m)) h
