-- ===== src/Tribe/Consistency.antt =====
-- What stays true of the agreements and the pointers to them, whatever messages arrive.
use mathlib.Core.List.{lookup}
use snap.Base.{
  suc, ◌<◌, ◌≡◌, ◌≢◌, refl, sym, subst, inl, inr, ap, ◌∙◌, List, [], some, Text, text_discrete,
  ℕ_discrete, arith, if_pos, if_neg,
}
use snap.Base.Map.{put, delete, lookup-put_cases, lookup-delete_cases}
use snap.Agreement.{new_agreement}
use snap.Tribe.{Replica, Member, Roster, Address, is_listed, write}

-- An agreement stands under its own name at an address where an object has been allocated. An object
-- that a member's task agreements name is allocated, has that name and lists the member, and the
-- plugin agreement of a member is allocated and one of the member's task agreements. Such an object
-- need not be in the map of agreements any more.
pub record IsSound (agreements : List (Text × Address)) (heap : Address → Roster) (next : Address)
    (members : List (Text × Member)) : Type 0 where
  pub in_use :
      (name : Text) (a : Address) → lookup text_discrete name agreements ≡ some a → a < next
  pub own_name :
      (name : Text) (a : Address)
      → lookup text_discrete name agreements ≡ some a
      → (heap a).items.name ≡ name
  pub lists_member :
      (member name : Text) (m : Member) (a : Address)
      → lookup text_discrete member members ≡ some m
      → lookup text_discrete name m.task_agreements ≡ some a
      → (a < next)
        × ((heap a).items.name ≡ name)
        × (lookup text_discrete member (heap a).members ≡ some is_listed)
  pub both_pointers :
      (member : Text) (m : Member) (a : Address)
      → lookup text_discrete member members ≡ some m
      → m.plugin_agreement ≡ some a
      → (a < next) × (lookup text_discrete (heap a).items.name m.task_agreements ≡ some a)

abbrev pub IsConsistent : Replica → Type 0
IsConsistent r = IsSound r.agreements r.heap r.next r.members

pub write_cases {κ} :
    (P : Roster → Type κ) (heap : Address → Roster) (a b : Address) (o : Roster)
    → (a ≡ b → P o)
    → (a ≢ b → P (heap b))
    → P (write heap a o b)
unfolding write
write_cases P heap a b o f g = elim (ℕ_discrete a b) [
  | yes p ↦ subst P (sym (if_pos (ℕ_discrete a b) p o (heap b))) (f p)
  | no n ↦ subst P (sym (if_neg (ℕ_discrete a b) n o (heap b))) (g n)
]

module _ {agreements : List (Text × Address)} {heap : Address → Roster} {next : Address}
    {members : List (Text × Member)} (s : IsSound agreements heap next members) where
  pub kept_name :
      (a : Address) (o : Roster)
      → o.items.name ≡ (heap a).items.name
      → (b : Address) → (write heap a o b).items.name ≡ (heap b).items.name
  kept_name a o e b =
      write_cases (λ q. q.items.name ≡ (heap b).items.name) heap a b o
        (λ p. e ∙ ap (λ c. (heap c).items.name) p) (λ _. refl)

  -- A write that keeps the name and the members that point to the object.
  pub write-IsSound :
      (a : Address) (o : Roster)
      → o.items.name ≡ (heap a).items.name
      → ((member name : Text) (m : Member)
          → lookup text_discrete member members ≡ some m
          → lookup text_discrete name m.task_agreements ≡ some a
          → lookup text_discrete member o.members ≡ some is_listed)
      → IsSound agreements (write heap a o) next members
  write-IsSound a o e k = record {
    in_use = s.in_use;
    own_name = λ name b h. kept_name a o e b ∙ s.own_name name b h;
    lists_member = λ member name m b h t.
        let (l, n, i) = s.lists_member member name m b h t in
        (
          l,
          kept_name a o e b ∙ n,
          write_cases (λ q. lookup text_discrete member q.members ≡ some is_listed) heap a b o
              (λ p. k member name m h (t ∙ ap (λ c. some c) (sym p))) (λ _. i),
        );
    both_pointers = λ member m b h p.
        let (l, t) = s.both_pointers member m b h p in
        (
          l,
          subst (λ n. lookup text_discrete n m.task_agreements ≡ some b) (sym (kept_name a o e b))
              t,
        );
  }

  pub delete-IsSound :
      (name : Text) → IsSound (delete text_discrete name agreements) heap next members
  delete-IsSound name = record {
    in_use = λ name1 a h.
        s.in_use name1 a (lookup-delete_cases text_discrete name name1 a agreements h).1;
    own_name = λ name1 a h.
        s.own_name name1 a (lookup-delete_cases text_discrete name name1 a agreements h).1;
    lists_member = s.lists_member;
    both_pointers = s.both_pointers;
  }

  untouched : (a : Address) (o : Roster) → a < next → write heap next o a ≡ heap a
  untouched a o l =
      write_cases (λ q. q ≡ heap a) heap next a o (λ p. absurd (omega arith)) (λ _. refl)

  pub create-IsSound :
      (name : Text)
      → IsSound
          (put text_discrete name next agreements)
          (write heap next (record { items = new_agreement name; members = [] }))
          (suc next)
          members
  unfolding new_agreement
  create-IsSound name = record {
    in_use = λ name1 a h. elim (lookup-put_cases text_discrete name name1 next a agreements h) [
      | inl (_, e) ↦ omega (arith, e)
      | inr (_, h1) ↦ omega (arith, s.in_use name1 a h1)
    ];
    own_name = λ name1 a h. elim (lookup-put_cases text_discrete name name1 next a agreements h) [
      | inl (p, e) ↦
          write_cases (λ q. q.items.name ≡ name1) heap next a _ (λ _. p) (λ n. absurd (n e))
      | inr (_, h1) ↦
          ap (λ (q : Roster). q.items.name) (untouched a _ (s.in_use name1 a h1))
          ∙ s.own_name name1 a h1
    ];
    lists_member = λ member name1 m a h t.
        let (l, n, i) = s.lists_member member name1 m a h t in
        (
          omega (arith, l),
          ap (λ (q : Roster). q.items.name) (untouched a _ l) ∙ n,
          ap (λ (q : Roster). lookup text_discrete member q.members) (untouched a _ l) ∙ i,
        );
    both_pointers = λ member m a h p.
        let (l, t) = s.both_pointers member m a h p in
        (
          omega (arith, l),
          ap (λ (q : Roster). lookup text_discrete q.items.name m.task_agreements) (untouched a _ l)
              ∙ t,
        );
  }

  -- A member whose pointers are right.
  pub put-IsSound :
      (member : Text) (m : Member)
      → ((name : Text) (a : Address)
          → lookup text_discrete name m.task_agreements ≡ some a
          → (a < next)
            × ((heap a).items.name ≡ name)
            × (lookup text_discrete member (heap a).members ≡ some is_listed))
      → ((a : Address)
          → m.plugin_agreement ≡ some a
          → (a < next) × (lookup text_discrete (heap a).items.name m.task_agreements ≡ some a))
      → IsSound agreements heap next (put text_discrete member m members)
  put-IsSound member m tasks plugins = record {
    in_use = s.in_use;
    own_name = s.own_name;
    lists_member = λ member1 name m1 a h t.
        elim (lookup-put_cases text_discrete member member1 m m1 members h) [
          | inl (p, q) ↦
              let (l, n, i) =
                tasks name a
                  (ap (λ (x : Member). lookup text_discrete name x.task_agreements) q ∙ t) in
              (l, n, ap (λ x. lookup text_discrete x (heap a).members) (sym p) ∙ i)
          | inr (_, h1) ↦ s.lists_member member1 name m1 a h1 t
        ];
    both_pointers = λ member1 m1 a h p.
        elim (lookup-put_cases text_discrete member member1 m m1 members h) [
          | inl (_, q) ↦
              let (l, t) = plugins a (ap (λ (x : Member). x.plugin_agreement) q ∙ p) in
              (
                l,
                ap (λ (x : Member). lookup text_discrete (heap a).items.name x.task_agreements)
                      (sym q)
                    ∙ t,
              )
          | inr (_, h1) ↦ s.both_pointers member1 m1 a h1 p
        ];
  }
