-- ===== src/Tribe/Upkeep.antt =====
-- Every attempt of processIntents and every handler keeps a node's state consistent.
use mathlib.Core.List.{lookup}
use snap.Base.{ℕ, ◌≡◌, inl, inr, refl, subst, Text, text_discrete, All, Option-cases}
use snap.Agreement.{
  Agreement, PluginItem, TaskItem, index_of, same_plugin, same_task, add_plugin, remove_plugin,
  add_task, remove_task,
}
use snap.Tribe.{
  Replica, AgreementMsg, Address, agreement_at, find_member, set_items, create_agreement,
  add_plugin_msg, remove_plugin_msg, add_agreement_msg, remove_agreement_msg, join_agreement_msg,
  add_task_msg, remove_task_msg,
}
use snap.Tribe.Membership.{join_agreement, leave_agreement, can_join_agreement, can_leave_agreement}
use snap.Tribe.Intents.{
  try_add_plugin, try_remove_plugin, try_add_agreement, try_remove_agreement, try_join, try_leave,
  try_add_task, try_remove_task, attempts, process_intents, task_of,
}
use snap.Tribe.Frame.{AfterIntents, Keeps, process_intents-Keeps}
use snap.Tribe.Pointers.{enter-IsConsistent, quit-IsConsistent}
use snap.Tribe.Consistency.{IsConsistent, write-IsSound, delete-IsSound, create-IsSound}

pub set_items-IsConsistent :
    (r : Replica) (a : Address) (items : Agreement)
    → IsConsistent r
    → items.name ≡ (r.heap a).items.name
    → IsConsistent (set_items r a items)
unfolding set_items
set_items-IsConsistent r a items s e =
    write-IsSound s a (record (r.heap a) { items = items }) e
      (λ x name m h t. (s.lists_member x name m a h t).2)

pub create_agreement-IsConsistent :
    (r : Replica) (name : Text) → IsConsistent r → IsConsistent (create_agreement r name)
unfolding create_agreement
create_agreement-IsConsistent r name s = create-IsSound s name

pub join_agreement-IsConsistent :
    (local_name : Text) (r : Replica) (m : AgreementMsg)
    → IsConsistent r
    → AfterIntents IsConsistent (join_agreement local_name r m)
unfolding join_agreement
join_agreement-IsConsistent local_name r m s =
    elim (Option-cases (can_join_agreement r m.agreement_name m.member_name)) [
      | inr (err, e) ↦ rw (e, join_agreement) tt
      | inl e ↦ elim (Option-cases (agreement_at r m.agreement_name)) [
        | inl f ↦ rw (e, join_agreement, f) tt
        | inr (a, f) ↦ elim (Option-cases (find_member r m.member_name)) [
          | inl g ↦ rw (e, join_agreement, f, g) tt
          | inr (member, g) ↦
              rw (e, join_agreement, f, g) (enter-IsConsistent r m a member s f g local_name)
        ]
      ]
    ]

pub leave_agreement-IsConsistent :
    (r : Replica) (m : AgreementMsg)
    → IsConsistent r
    → AfterIntents IsConsistent (leave_agreement r m)
unfolding leave_agreement
leave_agreement-IsConsistent r m s =
    elim (Option-cases (can_leave_agreement r m.agreement_name m.member_name)) [
      | inr (err, e) ↦ rw (e, leave_agreement) tt
      | inl e ↦ elim (Option-cases (agreement_at r m.agreement_name)) [
        | inl f ↦ rw (e, leave_agreement, f) tt
        | inr (a, f) ↦ elim (Option-cases (find_member r m.member_name)) [
          | inl g ↦ rw (e, leave_agreement, f, g) tt
          | inr (member, g) ↦ rw (e, leave_agreement, f, g) (quit-IsConsistent r m a member s f g)
        ]
      ]
    ]

pub add_plugin-name :
    (items : Agreement) (p : PluginItem) → (add_plugin items p).0.name ≡ items.name
unfolding add_plugin
add_plugin-name items p = refl

pub remove_plugin-name :
    (items : Agreement) (p : PluginItem) → (remove_plugin items p).0.name ≡ items.name
unfolding remove_plugin
remove_plugin-name items p = refl

pub add_task-name : (items : Agreement) (t : TaskItem) → (add_task items t).0.name ≡ items.name
unfolding add_task
add_task-name items t = refl

pub remove_task-name :
    (items : Agreement) (t : TaskItem) → (remove_task items t).0.name ≡ items.name
unfolding remove_task
remove_task-name items t = refl

try_add_plugin-Keeps : Keeps IsConsistent try_add_plugin
unfolding try_add_plugin
try_add_plugin-Keeps r (add_plugin_msg m) s =
    elim (Option-cases (agreement_at r m.agreement_name)) [
      | inl e ↦ rw (e, try_add_plugin) tt
      | inr (a, e) ↦ elim (Option-cases (index_of same_plugin m.plugin (r.heap a).items.plugins)) [
        | inl h ↦ rw (e, try_add_plugin, h) (set_items-IsConsistent r a _ s refl)
        | inr (n, h) ↦ rw (e, try_add_plugin, h) tt
      ]
    ]
try_add_plugin-Keeps r _ s = tt

try_remove_plugin-Keeps : Keeps IsConsistent try_remove_plugin
unfolding try_remove_plugin
try_remove_plugin-Keeps r (remove_plugin_msg m) s =
    elim (Option-cases (agreement_at r m.agreement_name)) [
      | inl e ↦ rw (e, try_remove_plugin) tt
      | inr (a, e) ↦ elim (Option-cases (index_of same_plugin m.plugin (r.heap a).items.plugins)) [
        | inl h ↦ rw (e, try_remove_plugin, h) tt
        | inr (n, h) ↦ rw (e, try_remove_plugin, h) (set_items-IsConsistent r a _ s refl)
      ]
    ]
try_remove_plugin-Keeps r _ s = tt

try_add_task-Keeps : Keeps IsConsistent try_add_task
unfolding try_add_task
try_add_task-Keeps r (add_task_msg m) s = elim (Option-cases (agreement_at r m.agreement_name)) [
  | inl e ↦ rw (e, try_add_task) tt
  | inr (a, e) ↦
      elim (Option-cases (index_of same_task (task_of m.task_id) (r.heap a).items.tasks)) [
        | inl h ↦ rw (e, try_add_task, h) (set_items-IsConsistent r a _ s refl)
        | inr (n, h) ↦ rw (e, try_add_task, h) tt
      ]
]
try_add_task-Keeps r _ s = tt

try_remove_task-Keeps : Keeps IsConsistent try_remove_task
unfolding try_remove_task
try_remove_task-Keeps r (remove_task_msg m) s =
    elim (Option-cases (agreement_at r m.agreement_name)) [
      | inl e ↦ rw (e, try_remove_task) tt
      | inr (a, e) ↦
          elim (Option-cases (index_of same_task (task_of m.task_id) (r.heap a).items.tasks)) [
            | inl h ↦ rw (e, try_remove_task, h) tt
            | inr (n, h) ↦ rw (e, try_remove_task, h) (set_items-IsConsistent r a _ s refl)
          ]
    ]
try_remove_task-Keeps r _ s = tt

try_add_agreement-Keeps : Keeps IsConsistent try_add_agreement
unfolding try_add_agreement
try_add_agreement-Keeps r (add_agreement_msg m) s =
    elim (Option-cases (agreement_at r m.agreement_name)) [
      | inl e ↦ rw (e, try_add_agreement) (create_agreement-IsConsistent r m.agreement_name s)
      | inr (a, e) ↦ rw (e, try_add_agreement) tt
    ]
try_add_agreement-Keeps r _ s = tt

try_remove_agreement-Keeps : Keeps IsConsistent try_remove_agreement
unfolding try_remove_agreement
try_remove_agreement-Keeps r (remove_agreement_msg m) s =
    elim (Option-cases (agreement_at r m.agreement_name)) [
      | inl e ↦ rw (e, try_remove_agreement) tt
      | inr (a, e) ↦ rw (e, try_remove_agreement) (delete-IsSound s m.agreement_name)
    ]
try_remove_agreement-Keeps r _ s = tt

try_join-Keeps : (local_name : Text) → Keeps IsConsistent (try_join local_name)
unfolding try_join
try_join-Keeps local_name r (join_agreement_msg m) s =
    elim (Option-cases (find_member r m.member_name)) [
      | inl e ↦ rw (e, try_join) tt
      | inr (member, e) ↦ elim (Option-cases (agreement_at r m.agreement_name)) [
        | inl f ↦ rw (e, try_join, f) tt
        | inr (a, f) ↦ elim (Option-cases (join_agreement local_name r m)) [
          | inl g ↦ rw (e, try_join, f, g) s
          | inr (r1, g) ↦
              rw (e, try_join, f, g)
                (subst (AfterIntents IsConsistent) g (join_agreement-IsConsistent local_name r m s))
        ]
      ]
    ]
try_join-Keeps local_name r _ s = tt

try_leave-Keeps : Keeps IsConsistent try_leave
unfolding try_leave
try_leave-Keeps r (join_agreement_msg m) s = elim (Option-cases (find_member r m.member_name)) [
  | inl e ↦ rw (e, try_leave) tt
  | inr (member, e) ↦ elim (Option-cases (agreement_at r m.agreement_name)) [
    | inl f ↦ rw (e, try_leave, f) tt
    | inr (a, f) ↦ elim (Option-cases (lookup text_discrete m.member_name (r.heap a).members)) [
      | inl k ↦ rw (e, try_leave, f, k) tt
      | inr (_, k) ↦ elim (Option-cases (leave_agreement r m)) [
        | inl g ↦ rw (e, try_leave, f, k, g) s
        | inr (r1, g) ↦
            rw (e, try_leave, f, k, g)
              (subst (AfterIntents IsConsistent) g (leave_agreement-IsConsistent r m s))
      ]
    ]
  ]
]
try_leave-Keeps r _ s = tt

attempts-Keeps : (local_name : Text) → All (Keeps IsConsistent) (attempts local_name)
unfolding attempts
attempts-Keeps local_name = (
  try_add_plugin-Keeps,
  (
    try_remove_plugin-Keeps,
    (
      try_add_agreement-Keeps,
      (
        try_remove_agreement-Keeps,
        (
          try_join-Keeps local_name,
          (try_leave-Keeps, (try_add_task-Keeps, (try_remove_task-Keeps, tt))),
        ),
      ),
    ),
  ),
)

pub process_intents-IsConsistent :
    (local_name : Text) (fuel : ℕ) (r : Replica)
    → IsConsistent r
    → AfterIntents IsConsistent (process_intents local_name fuel r)
process_intents-IsConsistent local_name fuel r s =
    process_intents-Keeps IsConsistent local_name fuel r (attempts-Keeps local_name) (λ r1 vs p. p)
      s
