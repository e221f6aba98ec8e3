-- ===== src/Tribe/Samples.antt =====
-- Small tribes: an empty one, and one with a member in an agreement that has a plugin.
use mathlib.Core.List.{lookup}
use snap.Base.{
  ℕ, ◌≢◌, ◌≤◌, ite, ◌+◌, ◌⊎◌, ◌<◌, ◌≡◌, refl, Bool, true, false, [], ◌∷◌, none, some, Text,
  text_discrete, ℕ_discrete, arith,
}
use snap.Base.Int.{pos}
use snap.Base.Map.{put}
use snap.Agreement.{PluginItem}
use snap.Tribe.{
  Replica, Tribe, AgreementMsg, PluginMsg, Member, Roster, Address, add_agreement_msg,
  add_plugin_msg, agreement_at, find_member, create_agreement, time_of, update_clock, uuid_of,
  is_duplicate, accept, new_member, is_listed,
}
use snap.Tribe.Membership.{
  can_join_agreement, join_agreement, leave_agreement, handle_member_leave, is_member_of_agreement,
  not_a_member, can_leave_agreement,
}
use snap.Tribe.Intents.{process_intents, process_each, process_loop, first_applied, attempts}
use snap.Tribe.Handlers.{
  handle_message, body, add_agreement_body, remove_agreement_body, after_intents,
}
use snap.Tribe.Delivery.{handle_again, handle_message-clock}
use snap.Tribe.Endings.{handle_message-ends}
use snap.Tribe.Hearing.{hear, late_agreement}
use snap.Tribe.Departure.{join_then_leave, departure_after_removal}
use snap.Tribe.Consistency.{IsConsistent}
use snap.Tribe.Invariant.{handle_message-IsConsistent}

abbrev us : Text
us = 97 ∷ []

abbrev them : Text
them = 98 ∷ 98 ∷ []

abbrev disk : Text
disk = 100 ∷ []

abbrev net : Text
net = 110 ∷ 110 ∷ []

abbrev nowhere : Address → Roster
nowhere a = record { items = record { name = []; plugins = []; tasks = [] }; members = [] }

abbrev empty : Replica
empty = record {
  agreements = [];
  heap = nowhere;
  next = 0;
  members = [];
  intent_buffer = [];
  started_cache = [];
  stopped_cache = [];
  plugin_work = [];
  task_work = [];
  has_catalog = true;
  unloads = [];
  joins = [];
}

abbrev start : Tribe
start = record { clock = 0; msg_buffer = []; replica = empty }

abbrev about : Text → AgreementMsg
about name = record { time = 4; uuid = 1 ∷ []; agreement_name = name; member_name = them }

abbrev psutil : PluginItem
psutil = record { name = 112 ∷ []; version = pos 3; type = 0 }

abbrev announced : Text → PluginMsg
announced uuid = record { time = 3; plugin = psutil; uuid = uuid; agreement_name = disk }

abbrev started : Tribe
started = record {
  clock = 5;
  msg_buffer = (4, add_agreement_msg (about disk)) ∷ [];
  replica = create_agreement empty disk;
}

started_handled : handle_message us 1 (add_agreement_msg (about disk)) start ≡ some (true, started)
unfolding handle_message accept body add_agreement_body after_intents process_intents process_each
    process_loop first_applied attempts agreement_at is_duplicate update_clock time_of
    create_agreement put lookup
started_handled = refl

handle_again_example :
    handle_message us 7 (add_agreement_msg (about disk)) started ≡ some (false, started)
handle_again_example =
    handle_again us 1 7 (add_agreement_msg (about disk)) start started true started_handled

handle_message-clock_example :
    (4 < started.clock)
    × (start.clock ≤ started.clock)
    × ((started.clock ≡ start.clock) ⊎ (started.clock ≡ 4 + 1))
unfolding time_of
handle_message-clock_example =
    handle_message-clock us 1 (add_agreement_msg (about disk)) start started true (omega arith)
      started_handled

handle_message-ends_example :
    (b : Bool) × (t1 : Tribe) × (handle_message us 1 (add_agreement_msg (about disk)) start
      ≡ some (b, t1))
handle_message-ends_example =
    handle_message-ends us 1 (add_agreement_msg (about disk)) start tt (omega arith)

empty-IsConsistent : IsConsistent empty
unfolding lookup
empty-IsConsistent = record {
  in_use = λ name a h. absurd (cc h);
  own_name = λ name a h. absurd (cc h);
  lists_member = λ member name m a h t. absurd (cc h);
  both_pointers = λ member m a h p. absurd (cc h);
}

handle_message-IsConsistent_example : IsConsistent started.replica
handle_message-IsConsistent_example =
    handle_message-IsConsistent us 1 (add_agreement_msg (about disk)) start started true
      empty-IsConsistent started_handled

first_differs : (a b : ℕ) → a ≢ b → Path Text (a ∷ []) (b ∷ []) → ⊥
first_differs a b n e = ground arith

late_agreement_example :
    (u : Tribe) × (v : Tribe) × (hear us 3
        (add_agreement_msg (about disk)
          ∷ add_plugin_msg (announced (2 ∷ []))
          ∷ add_plugin_msg (announced (3 ∷ []))
          ∷ [])
        start
      ≡ some u)
    × (hear us 3
          (add_plugin_msg (announced (2 ∷ []))
            ∷ add_plugin_msg (announced (3 ∷ []))
            ∷ add_agreement_msg (about disk)
            ∷ [])
          start
        ≡ some v)
    × (u.replica ≡ v.replica)
    × (u.clock ≡ v.clock)
unfolding agreement_at lookup time_of uuid_of
late_agreement_example =
    late_agreement us 3 3 (about disk) (announced (2 ∷ []) ∷ announced (3 ∷ []) ∷ []) start refl
      refl (refl, (refl, tt)) (omega arith) (omega arith) (omega arith)
      ((omega arith, omega arith), ((omega arith, omega arith), ((omega arith, omega arith), tt)))
      (
        λ slot seen h. absurd (cc h),
        (λ slot seen h. absurd (cc h), (λ slot seen h. absurd (cc h), tt)),
      )
      (
        (
          λ e. absurd (first_differs 1 2 (λ k. omega (arith, k)) e),
          (λ e. absurd (first_differs 1 3 (λ k. omega (arith, k)) e), tt),
        ),
        ((λ e. absurd (first_differs 2 3 (λ k. omega (arith, k)) e), tt), (tt, tt)),
      )

-- A tribe in which another node is a member of the agreement `disk`.
abbrev disk_member : Member
disk_member = record { name = them; plugin_agreement = some 0; task_agreements = (disk, 0) ∷ [] }

abbrev occupied : Replica
occupied = record empty {
  agreements = (disk, 0) ∷ (net, 1) ∷ [];
  heap = λ a. record {
    items = record { name = disk; plugins = psutil ∷ []; tasks = [] };
    members = (them, is_listed) ∷ [];
  };
  next = 2;
  members = (them, disk_member) ∷ (us, new_member us) ∷ [];
}

departure_after_removal_example :
    (r1 : Replica) × (remove_agreement_body us 1 (about disk) occupied ≡ some (true, r1))
    × (handle_member_leave r1 them ≡ none)
unfolding agreement_at find_member lookup text_discrete ℕ_discrete
departure_after_removal_example =
    departure_after_removal us them 0 occupied (about disk) disk_member 0 refl refl refl refl refl

abbrev joining : AgreementMsg
joining = record { time = 6; uuid = 5 ∷ []; agreement_name = net; member_name = us }

join_then_leave_example :
    (r1 : Replica) × (r2 : Replica) × (m1 : Member) × (m2 : Member) × (join_agreement us occupied
        joining
      ≡ some r1)
    × (leave_agreement r1 joining ≡ some r2)
    × (is_member_of_agreement us r1 net ≡ true)
    × (is_member_of_agreement us r2 net ≡ false)
    × (can_leave_agreement r2 net us ≡ some not_a_member)
    × ((r2.heap 1).items ≡ (occupied.heap 1).items)
    × (find_member r1 us ≡ some m1)
    × (m1.plugin_agreement ≡ some 1)
    × (lookup text_discrete net m1.task_agreements ≡ some 1)
    × (find_member r2 us ≡ some m2)
    × (m2.plugin_agreement ≡ none)
    × ((other : Text)
        → lookup text_discrete other m2.task_agreements
          ≡ ite
              (text_discrete net other)
              none
              (lookup text_discrete other (new_member us).task_agreements))
unfolding agreement_at find_member lookup text_discrete ℕ_discrete can_join_agreement new_member
join_then_leave_example = join_then_leave us occupied joining 1 (new_member us) refl refl refl
