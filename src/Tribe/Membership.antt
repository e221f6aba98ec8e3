-- ===== src/Tribe/Membership.antt =====
-- mgmt/tribe/tribe.go: who may join and leave an agreement, and what joining and leaving do.
use mathlib.Core.List.{lookup}
use snap.Base.{Bool, true, false, List, [], ◌∷◌, ◌++◌, Option, none, some, Text, text_discrete, ite}
use snap.Base.Map.{put, delete}
use snap.Agreement.{TaskItem, index_of, same_task}
use snap.Tribe.{
  Replica, AgreementMsg, Member, Address, agreement_at, find_member, write, new_member, is_listed,
}

pub data TribeError : Type 0 where
  agreement_does_not_exist agreement_already_exists unknown_member : TribeError
  already_member_of_plugin_agreement not_a_member : TribeError
  task_already_exists task_does_not_exist : TribeError

-- `none` is a call without an error.
unfoldable pub can_leave_agreement : Replica → Text → Text → Option TribeError
can_leave_agreement r name member = elim (agreement_at r name) [
  | none ↦ some agreement_does_not_exist
  | some _ ↦ elim (find_member r member) [
    | none ↦ some unknown_member
    | some m ↦ elim m.plugin_agreement [ none ↦ some not_a_member | some _ ↦ none ]
  ]
]

unfoldable pub can_join_agreement : Replica → Text → Text → Option TribeError
can_join_agreement r name member = elim (agreement_at r name) [
  | none ↦ some agreement_does_not_exist
  | some _ ↦ elim (find_member r member) [
    | none ↦ some unknown_member
    | some m ↦ elim m.plugin_agreement [
      | none ↦ none
      | some a ↦ elim (r.heap a).items.plugins [
        | [] ↦ none
        | _ ∷ _ ↦ some already_member_of_plugin_agreement
      ]
    ]
  ]
]

abbrev has_task : Replica → Address → TaskItem → Bool
has_task r a task = elim (index_of same_task task (r.heap a).items.tasks) [
  | some _ ↦ true
  | none ↦ false
]

unfoldable pub can_add_task : Replica → TaskItem → Text → Option TribeError
can_add_task r task name = elim (agreement_at r name) [
  | none ↦ some agreement_does_not_exist
  | some a ↦ elim (has_task r a task) [ true ↦ some task_already_exists | false ↦ none ]
]

unfoldable pub can_start_stop_remove_task : Replica → TaskItem → Text → Option TribeError
can_start_stop_remove_task r task name = elim (agreement_at r name) [
  | none ↦ some agreement_does_not_exist
  | some a ↦ elim (has_task r a task) [ true ↦ none | false ↦ some task_does_not_exist ]
]

-- What a member is after it has joined the agreement at `a`.
unfoldable pub joined : Member → Text → Address → Member
joined m name a = record m {
  plugin_agreement = some a;
  task_agreements = put text_discrete name a m.task_agreements;
}

-- `local_name` is the node itself.
unfoldable pub enter : Text → Replica → AgreementMsg → Address → Member → Replica
enter local_name r msg a m = record r {
  members = put text_discrete msg.member_name (joined m msg.agreement_name a) r.members;
  heap = write r.heap a (record (r.heap a) {
    members = put text_discrete msg.member_name is_listed (r.heap a).members;
  });
  joins = r.joins ++ ite (text_discrete msg.member_name local_name) (a ∷ []) [];
}

-- `none` is an error of canJoinAgreement, with which nothing changes.
unfoldable pub join_agreement : Text → Replica → AgreementMsg → Option Replica
join_agreement local_name r msg = elim (can_join_agreement r msg.agreement_name msg.member_name) [
  | some _ ↦ none
  | none ↦ elim (agreement_at r msg.agreement_name) [
    | none ↦ none
    | some a ↦ elim (find_member r msg.member_name) [
      | none ↦ none
      | some m ↦ some (enter local_name r msg a m)
    ]
  ]
]

unfoldable pub left : Member → Text → Member
left m name = record m {
  plugin_agreement = none;
  task_agreements = delete text_discrete name m.task_agreements;
}

unfoldable pub quit : Replica → AgreementMsg → Address → Member → Replica
quit r msg a m = record r {
  members = put text_discrete msg.member_name (left m msg.agreement_name) r.members;
  heap =
      write r.heap a
        (record (r.heap a) { members = delete text_discrete msg.member_name (r.heap a).members });
}

unfoldable pub leave_agreement : Replica → AgreementMsg → Option Replica
leave_agreement r msg = elim (can_leave_agreement r msg.agreement_name msg.member_name) [
  | some _ ↦ none
  | none ↦ elim (agreement_at r msg.agreement_name) [
    | none ↦ none
    | some a ↦ elim (find_member r msg.member_name) [ none ↦ none | some m ↦ some (quit r msg a m) ]
  ]
]

unfoldable pub is_member_of_agreement : Text → Replica → Text → Bool
is_member_of_agreement local_name r name = elim (agreement_at r name) [
  | none ↦ false
  | some a ↦ elim (lookup text_discrete local_name (r.heap a).members) [
    | some _ ↦ true
    | none ↦ false
  ]
]

-- What handleMemberJoin does before it processes the intents; the tags are left out.
unfoldable pub add_member : Replica → Text → Replica
add_member r name = elim (find_member r name) [
  | some _ ↦ r
  | none ↦ record r { members = put text_discrete name (new_member name) r.members }
]

-- Taking a member from the agreement of a name is a panic when no agreement has the name.
unfoldable pub drop_from : Replica → Text → Text → Option Replica
drop_from r name member = elim (agreement_at r name) [
  | none ↦ none
  | some a ↦ some (record r {
    heap =
        write r.heap a
          (record (r.heap a) { members = delete text_discrete member (r.heap a).members });
  })
]

unfoldable pub drop_from_all : Replica → List (Text × Address) → Text → Option Replica
drop_from_all r [] member = some r
drop_from_all r ((name, _) ∷ names) member = elim (drop_from r name member) [
  | none ↦ none
  | some r1 ↦ drop_from_all r1 names member
]

unfoldable pub handle_member_leave : Replica → Text → Option Replica
handle_member_leave r name = elim (find_member r name) [
  | none ↦ some r
  | some m ↦
      let plugins_left : Option Replica = elim m.plugin_agreement [
        | none ↦ some r
        | some a ↦ drop_from r (r.heap a).items.name name
      ] in
      let all_left : Option Replica = elim plugins_left [
        | none ↦ none
        | some r1 ↦ drop_from_all r1 m.task_agreements name
      ] in
      elim all_left [
        | none ↦ none
        | some r2 ↦ some (record r2 { members = delete text_discrete name r2.members })
      ]
]
