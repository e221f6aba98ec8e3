-- ===== src/Tribe/Departure.antt =====
-- What is left of a member that leaves an agreement or the tribe.
use mathlib.Core.List.{lookup}
use snap.Base.{
  ℕ, suc, ◌≡◌, arith, refl, sym, subst, ap, ◌∙◌, true, false, List, [], ◌∷◌, none, some, Text,
  text_discrete, ℕ_discrete, if_pos, ite, All,
}
use snap.Base.Map.{put, delete, lookup-put, lookup-delete, lookup-put_self, lookup-delete_self}
use snap.Tribe.{
  Replica, AgreementMsg, Member, Roster, Address, agreement_at, find_member, write, Present,
  is_listed,
}
use snap.Tribe.Membership.{
  join_agreement, leave_agreement, enter, quit, joined, left, can_join_agreement,
  can_leave_agreement, drop_from, handle_member_leave, is_member_of_agreement, not_a_member,
}
use snap.Tribe.Intents.{Attempt, attempts, process_intents}
use snap.Tribe.Buffer.{PassesOver, process_intents-settled, process_each-settled}
use snap.Tribe.Handlers.{remove_agreement_body, after_intents}

can_leave :
    (r : Replica) (name member_name : Text) (a : Address) (member : Member)
    → agreement_at r name ≡ some a
    → find_member r member_name ≡ some member
    → can_leave_agreement r name member_name
      ≡ elim member.plugin_agreement [ none ↦ some not_a_member | some _ ↦ none ]
unfolding can_leave_agreement
can_leave r name member_name a member e f = rw (e, can_leave_agreement, f) refl

leave_agreement-some :
    (r : Replica) (m : AgreementMsg) (a current : Address) (member : Member)
    → agreement_at r m.agreement_name ≡ some a
    → find_member r m.member_name ≡ some member
    → member.plugin_agreement ≡ some current
    → leave_agreement r m ≡ some (quit r m a member)
unfolding leave_agreement
leave_agreement-some r m a current member e f g =
    let allowed =
      can_leave r m.agreement_name m.member_name a member e f
      ∙ ap (elim [ none ↦ some not_a_member | some _ ↦ none ]) g in
    rw (allowed, leave_agreement, e, f) refl

join_agreement-some :
    (local_name : Text) (r : Replica) (m : AgreementMsg) (a : Address) (member : Member)
    → agreement_at r m.agreement_name ≡ some a
    → find_member r m.member_name ≡ some member
    → can_join_agreement r m.agreement_name m.member_name ≡ none
    → join_agreement local_name r m ≡ some (enter local_name r m a member)
unfolding join_agreement
join_agreement-some local_name r m a member e f g = rw (g, join_agreement, e, f) refl

is_member-true :
    (r : Replica) (name member_name : Text) (a : Address) (p : Present)
    → agreement_at r name ≡ some a
    → lookup text_discrete member_name (r.heap a).members ≡ some p
    → is_member_of_agreement member_name r name ≡ true
unfolding is_member_of_agreement
is_member-true r name member_name a p e f = rw (e, is_member_of_agreement, f) refl

is_member-false :
    (r : Replica) (name member_name : Text) (a : Address)
    → agreement_at r name ≡ some a
    → lookup text_discrete member_name (r.heap a).members ≡ none
    → is_member_of_agreement member_name r name ≡ false
unfolding is_member_of_agreement
is_member-false r name member_name a e f = rw (e, is_member_of_agreement, f) refl

write_self : (heap : Address → Roster) (a : Address) (o : Roster) → write heap a o a ≡ o
unfolding write
write_self heap a o = if_pos (ℕ_discrete a a) refl o (heap a)

forgotten :
    (name other : Text) (a : Address) (table : List (Text × Address))
    → lookup text_discrete other (delete text_discrete name (put text_discrete name a table))
      ≡ ite (text_discrete name other) none (lookup text_discrete other table)
forgotten name other a table = ground (
  arith,
  lookup-delete text_discrete name other (put text_discrete name a table),
  lookup-put text_discrete name other a table,
)

-- Whoever may join an agreement may leave it again. In between, the member is one of the members of
-- the agreement, and its plugin agreement and its task agreement of that name are both this
-- agreement's object. After that it is none of the members, has no plugin agreement and no task
-- agreement of that name, and its other task agreements are as they were before, and so are the
-- agreement's name, plugins and tasks.
pub join_then_leave :
    (local_name : Text) (r : Replica) (m : AgreementMsg) (a : Address) (member : Member)
    → agreement_at r m.agreement_name ≡ some a
    → find_member r m.member_name ≡ some member
    → can_join_agreement r m.agreement_name m.member_name ≡ none
    → (r1 r2 : Replica) × (m1 m2 : Member) × (join_agreement local_name r m ≡ some r1)
      × (leave_agreement r1 m ≡ some r2)
      × (is_member_of_agreement m.member_name r1 m.agreement_name ≡ true)
      × (is_member_of_agreement m.member_name r2 m.agreement_name ≡ false)
      × (can_leave_agreement r2 m.agreement_name m.member_name ≡ some not_a_member)
      × ((r2.heap a).items ≡ (r.heap a).items)
      × (find_member r1 m.member_name ≡ some m1)
      × (m1.plugin_agreement ≡ some a)
      × (lookup text_discrete m.agreement_name m1.task_agreements ≡ some a)
      × (find_member r2 m.member_name ≡ some m2)
      × (m2.plugin_agreement ≡ none)
      × ((other : Text)
          → lookup text_discrete other m2.task_agreements
            ≡ ite
                (text_discrete m.agreement_name other)
                none
                (lookup text_discrete other member.task_agreements))
unfolding enter quit joined left agreement_at find_member
join_then_leave local_name r m a member e f g =
    let r1 : Replica = enter local_name r m a member in
    let member1 : Member = joined member m.agreement_name a in
    let r2 : Replica = quit r1 m a member1 in
    let here1 : find_member r1 m.member_name ≡ some member1 =
      lookup-put_self text_discrete m.member_name member1 r.members in
    let here2 : find_member r2 m.member_name ≡ some (left member1 m.agreement_name) =
      lookup-put_self text_discrete m.member_name (left member1 m.agreement_name) r1.members in
    let entered : (r1.heap a).members
        ≡ put text_discrete m.member_name is_listed (r.heap a).members =
      ap (λ (o : Roster). o.members) (write_self r.heap a _) in
    let gone : (r2.heap a).members ≡ delete text_discrete m.member_name (r1.heap a).members =
      ap (λ (o : Roster). o.members) (write_self r1.heap a _) in
    let kept : (r2.heap a).items ≡ (r.heap a).items =
      ap (λ (o : Roster). o.items) (write_self r1.heap a _)
      ∙ ap (λ (o : Roster). o.items) (write_self r.heap a _) in
    (
      r1,
      r2,
      member1,
      left member1 m.agreement_name,
      join_agreement-some local_name r m a member e f g,
      leave_agreement-some r1 m a a member1 e here1 refl,
      is_member-true r1 m.agreement_name m.member_name a is_listed e (
          ap (lookup text_discrete m.member_name) entered
          ∙ lookup-put_self text_discrete m.member_name is_listed (r.heap a).members),
      is_member-false r2 m.agreement_name m.member_name a e (
          ap (lookup text_discrete m.member_name) gone
          ∙ lookup-delete_self text_discrete m.member_name (r1.heap a).members),
      can_leave r2 m.agreement_name m.member_name a (left member1 m.agreement_name) e here2,
      kept,
      here1,
      refl,
      lookup-put_self text_discrete m.agreement_name a member.task_agreements,
      here2,
      refl,
      λ other. forgotten m.agreement_name other a member.task_agreements,
    )

-- A member that points to an agreement is struck from the members of the agreement that now has the
-- name, which is a panic when there is none.
drop_from-missing :
    (r : Replica) (name member : Text) → agreement_at r name ≡ none → drop_from r name member ≡ none
unfolding drop_from
drop_from-missing r name member e = rw (e, drop_from) refl

leave-panics :
    (r : Replica) (name : Text) (member : Member) (a : Address)
    → find_member r name ≡ some member
    → member.plugin_agreement ≡ some a
    → drop_from r (r.heap a).items.name name ≡ none
    → handle_member_leave r name ≡ none
unfolding handle_member_leave
leave-panics r name member a f g d = simp (f, g, d, handle_member_leave) refl

none_pass :
    (r : Replica) (todo : List Attempt)
    → r.intent_buffer ≡ []
    → All (λ attempt. PassesOver attempt r r.intent_buffer) todo
none_pass r [] b = tt
none_pass r (attempt ∷ todo) b = (subst (PassesOver attempt r) (sym b) tt, none_pass r todo b)

process_intents-empty :
    (local_name : Text) (fuel : ℕ) (r : Replica)
    → r.intent_buffer ≡ []
    → process_intents local_name (suc fuel) r ≡ some r
process_intents-empty local_name fuel r b =
    process_intents-settled local_name fuel r r
      (process_each-settled (attempts local_name) r (none_pass r (attempts local_name) b))

-- A node removes an agreement, and then a member that was in it leaves the tribe. The handler of the
-- departure panics: the member still points to the agreement, which the map has lost. Nothing waits
-- in the buffer.
pub departure_after_removal :
    (local_name name : Text) (fuel : ℕ) (r : Replica) (n : AgreementMsg) (member : Member)
    (a : Address)
    → r.intent_buffer ≡ []
    → agreement_at r n.agreement_name ≡ some a
    → (r.heap a).items.name ≡ n.agreement_name
    → find_member r name ≡ some member
    → member.plugin_agreement ≡ some a
    → (r1 : Replica) × (remove_agreement_body local_name (suc fuel) n r ≡ some (true, r1))
      × (handle_member_leave r1 name ≡ none)
unfolding remove_agreement_body after_intents agreement_at find_member
departure_after_removal local_name name fuel r n member a b e o f g =
    let r1 : Replica = record r {
      agreements = delete text_discrete n.agreement_name r.agreements;
    } in
    let empty : process_intents local_name (suc fuel) r1 ≡ some r1 =
      process_intents-empty local_name fuel r1 b in
    let lost : agreement_at r1 (r1.heap a).items.name ≡ none =
      ap (agreement_at r1) o ∙ lookup-delete_self text_discrete n.agreement_name r.agreements in
    (
      r1,
      rw (e, remove_agreement_body, empty) refl,
      leave-panics r1 name member a f g (drop_from-missing r1 _ name lost),
    )
