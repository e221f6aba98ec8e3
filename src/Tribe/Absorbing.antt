-- ===== src/Tribe/Absorbing.antt =====
-- What messages to add plugins leave behind when they are taken from the buffer.
use mathlib.Core.List.{map-append}
use snap.Base.{
  ℕ, zero, suc, ◌<◌, ◌≡◌, refl, sym, subst, ap, ◌∙◌, inl, inr, true, false, List, [], ◌∷◌, ◌++◌,
  map, append-nil, append_assoc, Option, none, some, Text, ℕ_discrete, arith, if_pos, All,
  All-append, length, Option-cases,
}
use snap.Agreement.{PluginItem, index_of, same_plugin}
use snap.Tribe.{
  Replica, Message, PluginMsg, Address, add_plugin_msg, plugin_loaded, agreement_at, set_items,
  write, Roster,
}
use snap.Tribe.Intents.{
  Attempt, try_add_plugin, try_remove_plugin, try_add_agreement, try_remove_agreement, try_join,
  try_leave, try_add_task, try_remove_task, process_each, attempts, process_intents,
}
use snap.Tribe.Buffer.{
  PassesOver, first_applied-after, process_each-here, process_each-settled, process_intents-settled,
  process_intents-round,
}
use snap.Tribe.Handlers.{add_intent}

abbrev pub has : PluginItem → List PluginItem → Option ℕ
has p ps = index_of same_plugin p ps

has-append :
    (p : PluginItem) (ps qs : List PluginItem) (n : ℕ)
    → has p ps ≡ some n
    → has p (ps ++ qs) ≡ some n
unfolding index_of
has-append p [] qs n h = absurd (cc h)
has-append p (q ∷ ps) qs zero h = ground arith
has-append p (q ∷ ps) qs (suc n) h = ground (arith, has-append p ps qs n)

-- What a message to add a plugin does to the agreement at `a`.
abbrev pub added : Address → Replica → PluginMsg → Replica
added a s m = record s {
  heap = write s.heap a (record (s.heap a) {
    items = record (s.heap a).items { plugins = (s.heap a).items.plugins ++ m.plugin ∷ [] };
  });
  plugin_work = s.plugin_work ++ plugin_loaded m.plugin ∷ [];
}

-- A plugin that the agreement has already goes to the buffer.
abbrev pub absorb_one : Address → Replica → PluginMsg → Replica
absorb_one a s m = elim (has m.plugin (s.heap a).items.plugins) [
  | some _ ↦ record s { intent_buffer = s.intent_buffer ++ add_plugin_msg m ∷ [] }
  | none ↦ added a s m
]

abbrev pub absorb : Address → List PluginMsg → Replica → Replica
absorb a [] s = s
absorb a (m ∷ ms) s = absorb a ms (absorb_one a s m)

module _ (name : Text) (a : Address) where
  -- The message is about the agreement at `a`, which has its plugin.
  abbrev pub Waits : Replica → PluginMsg → Type 0
  Waits s m =
      (m.agreement_name ≡ name) × ((n : ℕ) × (has m.plugin (s.heap a).items.plugins ≡ some n))

  heap-added :
      (s : Replica) (m : PluginMsg)
      → ((added a s m).heap a).items.plugins ≡ (s.heap a).items.plugins ++ m.plugin ∷ []
  unfolding write
  heap-added s m = ap (λ (o : Roster). o.items.plugins) (if_pos (ℕ_discrete a a) refl _ _)

  Waits-added : (s : Replica) (m w : PluginMsg) → Waits s w → Waits (added a s m) w
  Waits-added s m w (e, (n, h)) =
      (e, (n, ap (has w.plugin) (heap-added s m) ∙ has-append w.plugin _ (m.plugin ∷ []) n h))

  pub still_waiting :
      (s : Replica) (m : PluginMsg) (ds : List PluginMsg)
      → All (Waits s) ds
      → All (Waits (added a s m)) ds
  still_waiting s m [] w = tt
  still_waiting s m (d ∷ ds) w = (Waits-added s m d w.0, still_waiting s m ds w.1)

  try-Waits :
      (s : Replica) (m : PluginMsg)
      → agreement_at s name ≡ some a
      → Waits s m
      → try_add_plugin s (add_plugin_msg m) ≡ none
  unfolding try_add_plugin
  try-Waits s m e (p, (n, h)) = rw (p, try_add_plugin, e, h) refl

  try-added :
      (s : Replica) (m : PluginMsg)
      → agreement_at s name ≡ some a
      → m.agreement_name ≡ name
      → has m.plugin (s.heap a).items.plugins ≡ none
      → try_add_plugin s (add_plugin_msg m) ≡ some (true, added a s m)
  unfolding try_add_plugin set_items
  try-added s m e p h = rw (p, try_add_plugin, e, h) refl

  abbrev pub adds : List PluginMsg → List Message
  adds = map add_plugin_msg

  passes-Waits :
      (s : Replica) (ds : List PluginMsg)
      → agreement_at s name ≡ some a
      → All (Waits s) ds
      → PassesOver try_add_plugin s (adds ds)
  passes-Waits s [] e w = tt
  passes-Waits s (d ∷ ds) e w = (try-Waits s d e w.0, passes-Waits s ds e w.1)

  passes_others :
      (attempt : Attempt) (s : Replica) (ds : List PluginMsg)
      → ((m : PluginMsg) → attempt s (add_plugin_msg m) ≡ none)
      → PassesOver attempt s (adds ds)
  passes_others attempt s [] e = tt
  passes_others attempt s (d ∷ ds) e = (e d, passes_others attempt s ds e)

  pub waiting-settled :
      (local_name : Text) (fuel : ℕ) (s : Replica) (ds : List PluginMsg)
      → agreement_at s name ≡ some a
      → All (Waits s) ds
      → s.intent_buffer ≡ adds ds
      → process_intents local_name (suc fuel) s ≡ some s
  unfolding attempts try_remove_plugin try_add_agreement try_remove_agreement try_join try_leave
      try_add_task try_remove_task
  waiting-settled local_name fuel s ds e w b =
      let pass : (attempt : Attempt)
          → PassesOver attempt s (adds ds)
          → PassesOver attempt s s.intent_buffer =
        λ attempt p. subst (PassesOver attempt s) (sym b) p in
      process_intents-settled local_name fuel s s (
        process_each-settled (attempts local_name) s (
          pass try_add_plugin (passes-Waits s ds e w),
          (
            pass try_remove_plugin (passes_others try_remove_plugin s ds (λ m. refl)),
            (
              pass try_add_agreement (passes_others try_add_agreement s ds (λ m. refl)),
              (
                pass try_remove_agreement (passes_others try_remove_agreement s ds (λ m. refl)),
                (
                  pass (try_join local_name) (passes_others (try_join local_name) s ds (λ m. refl)),
                  (
                    pass try_leave (passes_others try_leave s ds (λ m. refl)),
                    (
                      pass try_add_task (passes_others try_add_task s ds (λ m. refl)),
                      (pass try_remove_task (passes_others try_remove_task s ds (λ m. refl)), tt),
                    ),
                  ),
                ),
              ),
            ),
          ),
        ))

  pub absorb_one-has :
      (s : Replica) (m : PluginMsg) (n : ℕ)
      → has m.plugin (s.heap a).items.plugins ≡ some n
      → absorb_one a s m ≡ add_intent s (add_plugin_msg m)
  unfolding add_intent
  absorb_one-has s m n h = rw (h, absorb_one) refl

  pub absorb_one-new :
      (s : Replica) (m : PluginMsg)
      → has m.plugin (s.heap a).items.plugins ≡ none
      → absorb_one a s m ≡ added a s m
  absorb_one-new s m h = rw (h, absorb_one) refl

  -- The whole buffer when `ms` wait behind the messages that `s` has in it.
  abbrev pub followed : Replica → List PluginMsg → Replica
  followed s ms = record s { intent_buffer = s.intent_buffer ++ adds ms }

  pub process_intents-absorb :
      (local_name : Text) (fuel : ℕ) (ms ds : List PluginMsg) (s : Replica)
      → agreement_at s name ≡ some a
      → All (λ m. m.agreement_name ≡ name) ms
      → All (Waits s) ds
      → s.intent_buffer ≡ adds ds
      → length ms < fuel
      → process_intents local_name fuel (followed s ms) ≡ some (absorb a ms s)
  unfolding agreement_at attempts add_intent
  process_intents-absorb local_name zero ms ds s e p w b l = absurd (omega arith)
  process_intents-absorb local_name (suc fuel) [] ds s e p w b l =
      let q : followed s [] ≡ s = ap (λ vs. record s { intent_buffer = vs }) (append-nil _) in
      ap (process_intents local_name (suc fuel)) q ∙ waiting-settled local_name fuel s ds e w b
  process_intents-absorb local_name (suc fuel) (m ∷ ms) ds s e p w b l =
      elim (Option-cases (has m.plugin (s.heap a).items.plugins)) [
        | inl h ↦
            let s1 : Replica = added a s m in
            let whole : Replica = followed s (m ∷ ms) in
            let waiting : PassesOver try_add_plugin whole s.intent_buffer =
              subst (PassesOver try_add_plugin whole) (sym b) (passes-Waits whole ds e w) in
            let first =
              first_applied-after try_add_plugin whole (added a whole m) s.intent_buffer (adds ms)
                (add_plugin_msg m) waiting (try-added whole m e p.0 h) in
            let round : process_each (attempts local_name) whole ≡ (false, followed s1 ms) =
              process_each-here try_add_plugin _ whole (added a whole m)
                (s.intent_buffer ++ adds ms) first in
            process_intents-round local_name fuel whole (followed s1 ms) round
            ∙ process_intents-absorb local_name fuel ms ds s1 e p.1 (still_waiting s m ds w) b
                (omega arith)
            ∙ ap (λ s2. some (absorb a ms s2)) (sym (absorb_one-new s m h))
        | inr (n, h) ↦
            let s1 : Replica = add_intent s (add_plugin_msg m) in
            let regrouped : followed s (m ∷ ms) ≡ followed s1 ms =
              ap (λ vs. record s { intent_buffer = vs })
                (sym (append_assoc s.intent_buffer (add_plugin_msg m ∷ []) (adds ms))) in
            let b1 : s1.intent_buffer ≡ adds (ds ++ m ∷ []) =
              ap (λ vs. vs ++ add_plugin_msg m ∷ []) b
              ∙ sym (map-append add_plugin_msg ds (m ∷ [])) in
            let w1 : All (Waits s1) (ds ++ m ∷ []) =
              All-append (Waits s1) ds (m ∷ []) w ((p.0, (n, h)), tt) in
            ap (process_intents local_name (suc fuel)) regrouped
            ∙ process_intents-absorb local_name (suc fuel) ms (ds ++ m ∷ []) s1 e p.1 w1 b1
                (omega arith)
            ∙ ap (λ s2. some (absorb a ms s2)) (sym (absorb_one-has s m n h))
      ]
