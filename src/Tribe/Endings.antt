-- ===== src/Tribe/Endings.antt =====
-- That the handlers come to their end when no join message waits.
use snap.Base.{
  ℕ, ◌<◌, ◌≡◌, inl, inr, refl, sym, subst, Bool, true, false, Option, some, Text, arith, length,
  Option-cases, Bool-cases,
}
use snap.Tribe.{
  Replica, Message, add_plugin_msg, remove_plugin_msg, add_agreement_msg, remove_agreement_msg,
  join_agreement_msg, leave_agreement_msg, add_task_msg, remove_task_msg, stop_task_msg,
  start_task_msg, PluginMsg, AgreementMsg, TaskMsg, Tribe, agreement_at, set_items,
  create_agreement, is_duplicate,
}
use snap.Tribe.Intents.{process_intents, task_of}
use snap.Tribe.Membership.{join_agreement, leave_agreement, enter, quit}
use snap.Tribe.Handlers.{
  after_intents, add_plugin_body, remove_plugin_body, add_task_body, remove_task_body,
  add_agreement_body, remove_agreement_body, join_agreement_body, leave_agreement_body,
  start_task_body, stop_task_body, body, put_cache, handle_message,
}
use snap.Agreement.{add_plugin, remove_plugin, add_task, remove_task}
use snap.Tribe.Delivery.{ticked, remembered, accept-duplicate, accept-new}
use snap.Tribe.Settling.{NoJoin, process_intents-settles}

-- The handler's body comes to its end.
abbrev Ends : Option (Bool × Replica) → Type 0
Ends o = (out : Bool × Replica) × (o ≡ some out)

after_intents-Ends :
    (local_name : Text) (fuel : ℕ) (r : Replica) (work : Replica → Replica)
    → NoJoin r.intent_buffer
    → length r.intent_buffer < fuel
    → Ends (after_intents (process_intents local_name fuel r) work)
unfolding after_intents
after_intents-Ends local_name fuel r work n l =
    let (s, e) = process_intents-settles local_name fuel r n l in
    ((true, work s), rw (e, after_intents) refl)

join_agreement-buffer :
    (local_name : Text) (r r1 : Replica) (m : AgreementMsg)
    → join_agreement local_name r m ≡ some r1
    → r1.intent_buffer ≡ r.intent_buffer
unfolding join_agreement enter
join_agreement-buffer local_name r r1 m h = ground arith

leave_agreement-buffer :
    (r r1 : Replica) (m : AgreementMsg)
    → leave_agreement r m ≡ some r1
    → r1.intent_buffer ≡ r.intent_buffer
unfolding leave_agreement quit
leave_agreement-buffer r r1 m h = ground arith

module _ (local_name : Text) (fuel : ℕ) (r : Replica) (n : NoJoin r.intent_buffer)
    (l : length r.intent_buffer < fuel) where
  add_plugin_body-Ends : (m : PluginMsg) → Ends (add_plugin_body local_name fuel m r)
  unfolding add_plugin_body set_items
  add_plugin_body-Ends m = elim (Option-cases (agreement_at r m.agreement_name)) [
    | inl e ↦ rw (e, add_plugin_body) ((true, _), refl)
    | inr (a, e) ↦ elim (Bool-cases (add_plugin (r.heap a).items m.plugin).1) [
      | inl p ↦ rw (e, p, add_plugin_body) (after_intents-Ends local_name fuel _ _ n l)
      | inr p ↦ rw (e, p, add_plugin_body) ((true, _), refl)
    ]
  ]

  remove_plugin_body-Ends : (m : PluginMsg) → Ends (remove_plugin_body local_name fuel m r)
  unfolding remove_plugin_body set_items
  remove_plugin_body-Ends m = elim (Option-cases (agreement_at r m.agreement_name)) [
    | inl e ↦ rw (e, remove_plugin_body) ((true, _), refl)
    | inr (a, e) ↦ elim (Bool-cases (remove_plugin (r.heap a).items m.plugin).1) [
      | inl p ↦ rw (e, p, remove_plugin_body) (after_intents-Ends local_name fuel _ _ n l)
      | inr p ↦ rw (e, p, remove_plugin_body) ((true, _), refl)
    ]
  ]

  add_task_body-Ends : (m : TaskMsg) → Ends (add_task_body local_name fuel m r)
  unfolding add_task_body set_items
  add_task_body-Ends m = elim (Option-cases (agreement_at r m.agreement_name)) [
    | inl e ↦ rw (e, add_task_body) ((true, _), refl)
    | inr (a, e) ↦ elim (Bool-cases (add_task (r.heap a).items (task_of m.task_id)).1) [
      | inl p ↦ rw (e, p, add_task_body) (after_intents-Ends local_name fuel _ _ n l)
      | inr p ↦ rw (e, p, add_task_body) ((true, _), refl)
    ]
  ]

  remove_task_body-Ends : (m : TaskMsg) → Ends (remove_task_body local_name fuel m r)
  unfolding remove_task_body set_items
  remove_task_body-Ends m = elim (Option-cases (agreement_at r m.agreement_name)) [
    | inl e ↦ rw (e, remove_task_body) ((true, _), refl)
    | inr (a, e) ↦ elim (Bool-cases (remove_task (r.heap a).items (task_of m.task_id)).1) [
      | inl p ↦ rw (e, p, remove_task_body) (after_intents-Ends local_name fuel _ _ n l)
      | inr p ↦ rw (e, p, remove_task_body) ((true, _), refl)
    ]
  ]

  add_agreement_body-Ends : (m : AgreementMsg) → Ends (add_agreement_body local_name fuel m r)
  unfolding add_agreement_body create_agreement
  add_agreement_body-Ends m = elim (Option-cases (agreement_at r m.agreement_name)) [
    | inl e ↦ rw (e, add_agreement_body) (after_intents-Ends local_name fuel _ _ n l)
    | inr (a, e) ↦ rw (e, add_agreement_body) ((true, _), refl)
  ]

  remove_agreement_body-Ends : (m : AgreementMsg) → Ends (remove_agreement_body local_name fuel m r)
  unfolding remove_agreement_body
  remove_agreement_body-Ends m = elim (Option-cases (agreement_at r m.agreement_name)) [
    | inl e ↦ rw (e, remove_agreement_body) ((true, _), refl)
    | inr (a, e) ↦ rw (e, remove_agreement_body) (after_intents-Ends local_name fuel _ _ n l)
  ]

  join_agreement_body-Ends : (m : AgreementMsg) → Ends (join_agreement_body local_name fuel m r)
  unfolding join_agreement_body
  join_agreement_body-Ends m = elim (Option-cases (join_agreement local_name r m)) [
    | inl e ↦ rw (e, join_agreement_body) ((true, _), refl)
    | inr (r1, e) ↦
        let same = sym (join_agreement-buffer local_name r r1 m e) in
        rw (e, join_agreement_body)
          (after_intents-Ends local_name fuel r1 _ (subst NoJoin same n)
            (subst (λ b. length b < fuel) same l))
  ]

  leave_agreement_body-Ends : (m : AgreementMsg) → Ends (leave_agreement_body local_name fuel m r)
  unfolding leave_agreement_body
  leave_agreement_body-Ends m = elim (Option-cases (leave_agreement r m)) [
    | inl e ↦ rw (e, leave_agreement_body) ((true, _), refl)
    | inr (r1, e) ↦
        let same = sym (leave_agreement-buffer r r1 m e) in
        rw (e, leave_agreement_body)
          (after_intents-Ends local_name fuel r1 _ (subst NoJoin same n)
            (subst (λ b. length b < fuel) same l))
  ]

  start_task_body-Ends : (m : TaskMsg) → Ends (start_task_body local_name fuel m r)
  unfolding start_task_body
  start_task_body-Ends m = elim (Option-cases (agreement_at r m.agreement_name)) [
    | inl e ↦ rw (e, start_task_body) ((true, _), refl)
    | inr (a, e) ↦ elim (Option-cases (put_cache m.uuid r.started_cache)) [
      | inl q ↦ rw (e, q, start_task_body) ((false, _), refl)
      | inr (table, q) ↦ rw (e, q, start_task_body) ((true, _), refl)
    ]
  ]

  stop_task_body-Ends : (m : TaskMsg) → Ends (stop_task_body local_name fuel m r)
  unfolding stop_task_body
  stop_task_body-Ends m = elim (Option-cases (agreement_at r m.agreement_name)) [
    | inl e ↦ rw (e, stop_task_body) ((true, _), refl)
    | inr (a, e) ↦ elim (Option-cases (put_cache m.uuid r.stopped_cache)) [
      | inl q ↦ rw (e, q, stop_task_body) ((false, _), refl)
      | inr (table, q) ↦ rw (e, q, stop_task_body) ((true, _), refl)
    ]
  ]

  body-Ends : (m : Message) → Ends (body local_name fuel m r)
  unfolding body
  body-Ends (add_plugin_msg m) = add_plugin_body-Ends m
  body-Ends (remove_plugin_msg m) = remove_plugin_body-Ends m
  body-Ends (add_agreement_msg m) = add_agreement_body-Ends m
  body-Ends (remove_agreement_msg m) = remove_agreement_body-Ends m
  body-Ends (join_agreement_msg m) = join_agreement_body-Ends m
  body-Ends (leave_agreement_msg m) = leave_agreement_body-Ends m
  body-Ends (add_task_msg m) = add_task_body-Ends m
  body-Ends (remove_task_msg m) = remove_task_body-Ends m
  body-Ends (stop_task_msg m) = stop_task_body-Ends m
  body-Ends (start_task_msg m) = start_task_body-Ends m

-- While no join message waits in the intent buffer, the handler of a message of any type comes to
-- its end: a round more than there are waiting messages is enough fuel for it.
pub handle_message-ends :
    (local_name : Text) (fuel : ℕ) (m : Message) (t : Tribe)
    → NoJoin t.replica.intent_buffer
    → length t.replica.intent_buffer < fuel
    → (b : Bool) × (t1 : Tribe) × (handle_message local_name fuel m t ≡ some (b, t1))
unfolding handle_message
handle_message-ends local_name fuel m t n l = elim (Bool-cases (is_duplicate (ticked t m) m)) [
  | inl d ↦ (false, ticked t m, accept-duplicate m (body local_name fuel m) t d)
  | inr d ↦
      let ((b, r), e) = body-Ends local_name fuel t.replica n l m in
      let q : handle_message local_name fuel m t
          ≡ some (b, record (remembered t m) { replica = r }) =
        rw (accept-new m (body local_name fuel m) t d, e) refl in
      (b, record (remembered t m) { replica = r }, q)
]
