-- ===== src/Tribe/Pointers.antt =====
-- What joining and leaving an agreement keep of a member's pointers.
use mathlib.Core.List.{lookup}
use snap.Base.{◌<◌, List, ◌≡◌, refl, sym, subst, inl, inr, ap, ◌∙◌, some, Text, text_discrete}
use snap.Base.Map.{
  put, lookup-put_cases, lookup-delete_cases, lookup-put_self, lookup-put_ne, lookup-delete_ne,
}
use snap.Tribe.{
  Replica, AgreementMsg, Member, Address, Roster, Present, agreement_at, find_member, write,
  is_listed,
}
use snap.Tribe.Membership.{enter, quit, joined, left}
use snap.Tribe.Consistency.{
  IsSound, IsConsistent, write_cases, write-IsSound, put-IsSound, kept_name,
}

listed_still :
    (x y : Text) (table : List (Text × Present))
    → lookup text_discrete y table ≡ some is_listed
    → lookup text_discrete y (put text_discrete x is_listed table) ≡ some is_listed
listed_still x y table h = elim (text_discrete x y) [
  | yes p ↦
      subst (λ z. lookup text_discrete z (put text_discrete x is_listed table) ≡ some is_listed) p
        (lookup-put_self text_discrete x is_listed table)
  | no n ↦ lookup-put_ne text_discrete x y is_listed table n ∙ h
]

module _ (r : Replica) (m : AgreementMsg) (a : Address) (member : Member) (s : IsConsistent r)
    (e : agreement_at r m.agreement_name ≡ some a)
    (g : find_member r m.member_name ≡ some member) where
  owned : (r.heap a).items.name ≡ m.agreement_name
  unfolding agreement_at
  owned = s.own_name m.agreement_name a e

  -- Joining writes the object, and then the member that points to it.
  pub enter-IsConsistent : (local_name : Text) → IsConsistent (enter local_name r m a member)
  unfolding enter joined find_member agreement_at
  enter-IsConsistent local_name =
      let o : Roster = record (r.heap a) {
        members = put text_discrete m.member_name is_listed (r.heap a).members;
      } in
      let written : IsSound r.agreements (write r.heap a o) r.next r.members =
        write-IsSound s a o refl (λ x name k h t.
          listed_still m.member_name x (r.heap a).members (s.lists_member x name k a h t).2) in
      let self = lookup-put_self text_discrete m.member_name is_listed (r.heap a).members in
      let here = s.in_use m.agreement_name a e in
      let name_kept = kept_name s a o refl in
      put-IsSound written m.member_name (joined member m.agreement_name a)
        (λ name b t.
          elim (lookup-put_cases text_discrete m.agreement_name name a b member.task_agreements t) [
            | inl (p, q) ↦ (
              subst (λ c. c < r.next) q here,
              name_kept b ∙ ap (λ c. (r.heap c).items.name) (sym q) ∙ owned ∙ p,
              write_cases (λ z. lookup text_discrete m.member_name z.members ≡ some is_listed)
                  r.heap a b o (λ _. self) (λ n. absurd (n q)),
            )
            | inr (_, h) ↦ written.lists_member m.member_name name member b g h
          ])
        (λ b p.
          let q : a ≡ b = cc p in
          (
            subst (λ c. c < r.next) q here,
            ap
                  (λ n.
                    lookup text_discrete n
                      (put text_discrete m.agreement_name a member.task_agreements))
                  (name_kept b ∙ ap (λ c. (r.heap c).items.name) (sym q) ∙ owned)
                ∙ lookup-put_self text_discrete m.agreement_name a member.task_agreements
                ∙ ap (λ c. some c) q,
          ))

  -- Leaving strikes the member from the object, which it points to no more.
  pub quit-IsConsistent : IsConsistent (quit r m a member)
  unfolding quit left find_member
  quit-IsConsistent =
      let after : Member = left member m.agreement_name in
      let moved : IsSound r.agreements r.heap r.next
          (put text_discrete m.member_name after r.members) =
        put-IsSound s m.member_name after
          (λ name b t.
            s.lists_member m.member_name name member b g
              (lookup-delete_cases text_discrete m.agreement_name name b member.task_agreements
                t).1)
          (λ b p. absurd (cc p)) in
      write-IsSound moved a _ refl (λ x name k h t.
        elim (lookup-put_cases text_discrete m.member_name x after k r.members h) [
          | inl (_, q) ↦
              let (other, t1) =
                lookup-delete_cases text_discrete m.agreement_name name a member.task_agreements
                  (ap (λ (z : Member). lookup text_discrete name z.task_agreements) q ∙ t) in
              let (_, named, _) = s.lists_member m.member_name name member a g t1 in
              absurd (other (sym owned ∙ named))
          | inr (n, h1) ↦
              lookup-delete_ne text_discrete m.member_name x (r.heap a).members n
              ∙ (s.lists_member x name k a h1 t).2
        ])
