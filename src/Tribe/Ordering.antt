-- ===== src/Tribe/Ordering.antt =====
-- Messages about an agreement that arrive before the message that creates it.
use mathlib.Core.List.{map-append}
use snap.Base.{
  ℕ, zero, suc, ◌<◌, ◌≡◌, refl, sym, subst, ap, ◌∙◌, inl, inr, true, false, List, [], ◌∷◌, ◌++◌,
  map, append-nil, append_assoc, Option, none, some, Text, text_discrete, arith, All, All-append,
  length, Option-cases,
}
use snap.Base.Map.{lookup-put_self}
use snap.Agreement.{Agreement, PluginItem, add_plugin, add}
use snap.Tribe.{
  Replica, Message, AgreementMsg, PluginMsg, Address, add_plugin_msg, add_agreement_msg,
  agreement_at, create_agreement, set_items,
}
use snap.Tribe.Intents.{process_intents}
use snap.Tribe.Handlers.{add_intent, after_intents, add_plugin_body, add_agreement_body, body}
use snap.Tribe.Absorbing.{
  has, added, absorb_one, absorb, Waits, still_waiting, waiting-settled, absorb_one-has,
  absorb_one-new, process_intents-absorb,
}

-- The bodies of the handlers, run for one message after another.
unfoldable pub run : Text → ℕ → List Message → Replica → Option Replica
run local_name fuel [] r = some r
run local_name fuel (m ∷ ms) r = elim (body local_name fuel m r) [
  | none ↦ none
  | some (_, r1) ↦ run local_name fuel ms r1
]

module _ (name : Text) (a : Address) where
  agreement_at-added :
      (s : Replica) (m : PluginMsg)
      → agreement_at s name ≡ some a
      → agreement_at (added a s m) name ≡ some a
  unfolding agreement_at
  agreement_at-added s m e = e

  add_plugin-new :
      (items : Agreement) (p : PluginItem)
      → has p items.plugins ≡ none
      → add_plugin items p ≡ (record items { plugins = items.plugins ++ p ∷ [] }, true)
  unfolding add_plugin add
  add_plugin-new items p h = rw (h, add_plugin, add) refl

  add_plugin-old :
      (items : Agreement) (p : PluginItem) (n : ℕ)
      → has p items.plugins ≡ some n
      → add_plugin items p ≡ (items, false)
  unfolding add_plugin add
  add_plugin-old items p n h = rw (h, add_plugin, add) refl

  body-absorb_one :
      (local_name : Text) (fuel : ℕ) (ds : List PluginMsg) (s : Replica) (m : PluginMsg)
      → agreement_at s name ≡ some a
      → All (Waits name a s) ds
      → s.intent_buffer ≡ map add_plugin_msg ds
      → m.agreement_name ≡ name
      → body local_name (suc fuel) (add_plugin_msg m) s ≡ some (true, absorb_one a s m)
  unfolding body add_plugin_body set_items after_intents
  body-absorb_one local_name fuel ds s m e w b p =
      let found : agreement_at s m.agreement_name ≡ some a = ap (agreement_at s) p ∙ e in
      elim (Option-cases (has m.plugin (s.heap a).items.plugins)) [
        | inl h ↦
            let settled =
              waiting-settled name a local_name fuel (added a s m) ds (agreement_at-added s m e)
                (still_waiting name a s m ds w) b in
            rw (found, add_plugin_body, add_plugin-new (s.heap a).items m.plugin h, settled)
              (ap (λ s1. some (true, s1)) (sym (absorb_one-new name a s m h)))
        | inr (n, h) ↦
            rw (found, add_plugin_body, add_plugin-old (s.heap a).items m.plugin n h)
              (ap (λ s1. some (true, s1)) (sym (absorb_one-has name a s m n h)))
      ]

  run-absorb :
      (local_name : Text) (fuel : ℕ) (ms ds : List PluginMsg) (s : Replica)
      → agreement_at s name ≡ some a
      → All (λ m. m.agreement_name ≡ name) ms
      → All (Waits name a s) ds
      → s.intent_buffer ≡ map add_plugin_msg ds
      → run local_name (suc fuel) (map add_plugin_msg ms) s ≡ some (absorb a ms s)
  unfolding run agreement_at add_intent
  run-absorb local_name fuel [] ds s e p w b = refl
  run-absorb local_name fuel (m ∷ ms) ds s e p w b =
      let one = body-absorb_one local_name fuel ds s m e w b p.0 in
      rw (one, run)
        (elim (Option-cases (has m.plugin (s.heap a).items.plugins)) [
          | inl h ↦
              subst
                (λ s1. run local_name (suc fuel) (map add_plugin_msg ms) s1 ≡ some (absorb a ms s1))
                (sym (absorb_one-new name a s m h))
                (run-absorb local_name fuel ms ds (added a s m) e p.1
                  (still_waiting name a s m ds w) b)
          | inr (n, h) ↦
              subst
                (λ s1. run local_name (suc fuel) (map add_plugin_msg ms) s1 ≡ some (absorb a ms s1))
                (sym (absorb_one-has name a s m n h))
                (run-absorb local_name fuel ms (ds ++ m ∷ []) (add_intent s (add_plugin_msg m)) e
                  p.1 (All-append (Waits name a s) ds (m ∷ []) w ((p.0, (n, h)), tt))
                  (ap (λ vs. vs ++ add_plugin_msg m ∷ []) b
                    ∙ sym (map-append add_plugin_msg ds (m ∷ []))))
        ])

agreement_at-buffer :
    (r : Replica) (name : Text) (vs : List Message)
    → agreement_at r name ≡ none
    → agreement_at (record r { intent_buffer = vs }) name ≡ none
unfolding agreement_at
agreement_at-buffer r name vs e = e

body-missing :
    (local_name : Text) (fuel : ℕ) (r : Replica) (m : PluginMsg)
    → agreement_at r m.agreement_name ≡ none
    → body local_name fuel (add_plugin_msg m) r ≡ some (true, add_intent r (add_plugin_msg m))
unfolding body add_plugin_body
body-missing local_name fuel r m e = rw (e, add_plugin_body) refl

body-create :
    (local_name : Text) (fuel : ℕ) (r s : Replica) (n : AgreementMsg)
    → agreement_at r n.agreement_name ≡ none
    → process_intents local_name fuel (create_agreement r n.agreement_name) ≡ some s
    → body local_name fuel (add_agreement_msg n) r ≡ some (true, s)
unfolding body add_agreement_body after_intents
body-create local_name fuel r s n e q = rw (e, add_agreement_body, q) refl

agreement_at-created :
    (r : Replica) (name : Text) → agreement_at (create_agreement r name) name ≡ some r.next
unfolding agreement_at create_agreement
agreement_at-created r name = lookup-put_self text_discrete name r.next r.agreements

-- While no agreement has the name, the messages only wait.
run-waiting :
    (local_name name : Text) (fuel : ℕ) (ms : List PluginMsg) (rest : List Message) (r : Replica)
    → agreement_at r name ≡ none
    → All (λ m. m.agreement_name ≡ name) ms
    → run local_name fuel (map add_plugin_msg ms ++ rest) r
      ≡ run local_name fuel rest
          (record r { intent_buffer = r.intent_buffer ++ map add_plugin_msg ms })
unfolding run add_intent
run-waiting local_name name fuel [] rest r e p =
    ap (λ vs. run local_name fuel rest (record r { intent_buffer = vs }))
      (sym (append-nil r.intent_buffer))
run-waiting local_name name fuel (m ∷ ms) rest r e p =
    let r1 : Replica = add_intent r (add_plugin_msg m) in
    let regrouped = append_assoc r.intent_buffer (add_plugin_msg m ∷ []) (map add_plugin_msg ms) in
    rw (body-missing local_name fuel r m (ap (agreement_at r) p.0 ∙ e), run)
      (run-waiting local_name name fuel ms rest r1 (agreement_at-buffer r name _ e) p.1
        ∙ ap (λ vs. run local_name fuel rest (record r { intent_buffer = vs })) regrouped)

-- The bodies for new plugins of an agreement end in the same state whether the body that creates the
-- agreement is run before them or after them.
pub run_late :
    (local_name : Text) (fuel : ℕ) (n : AgreementMsg) (ms : List PluginMsg) (r : Replica)
    → agreement_at r n.agreement_name ≡ none
    → r.intent_buffer ≡ []
    → All (λ m. m.agreement_name ≡ n.agreement_name) ms
    → length ms < fuel
    → (s : Replica) × (run local_name fuel (add_agreement_msg n ∷ map add_plugin_msg ms) r ≡ some s)
      × (run local_name fuel (map add_plugin_msg ms ++ add_agreement_msg n ∷ []) r ≡ some s)
unfolding run create_agreement
run_late local_name zero n ms r e b p l = absurd (omega arith)
run_late local_name (suc fuel) n ms r e b p l =
    let name : Text = n.agreement_name in
    let r0 : Replica = create_agreement r name in
    let found = agreement_at-created r name in
    let early =
      body-create local_name (suc fuel) r r0 n e
        (waiting-settled name r.next local_name fuel r0 [] found tt b) in
    let all_wait : Replica = record r {
      intent_buffer = r.intent_buffer ++ map add_plugin_msg ms;
    } in
    let late =
      body-create local_name (suc fuel) all_wait (absorb r.next ms r0) n
        (agreement_at-buffer r name _ e)
        (process_intents-absorb name r.next local_name (suc fuel) ms [] r0 found p tt b l) in
    (
      absorb r.next ms r0,
      rw (early, run) (run-absorb name r.next local_name fuel ms [] r0 found p tt b),
      run-waiting local_name name (suc fuel) ms (add_agreement_msg n ∷ []) r e p
          ∙ rw (late, run) refl,
    )
