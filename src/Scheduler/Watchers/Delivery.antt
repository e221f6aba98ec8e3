-- ===== src/Scheduler/Watchers/Delivery.antt =====
-- The collection against the list of the watchers that were made and not closed, in their order.
use mathlib.Core.Path.{ap₂}
use mathlib.Core.List.{lookup}
use snap.Base.{
  ℕ, suc, ◌≡◌, ◌≢◌, refl, sym, ap, ◌∙◌, subst, List, [], ◌∷◌, ◌++◌, Option, none, some, Text,
  text_discrete, ite, if_pos, if_neg, length, get_elem?, All-append, arith, Option-cases, inl, inr,
}
use snap.Base.Map.{put, lookup-put}
use snap.Scheduler.Watchers.{
  Collection, TaskWatchers, new_task_watchers, watchers_of, add_watcher, close, Event,
  metric_collected, task_started, task_stopped, task_ended, task_disabled, handle, called,
}
use snap.Scheduler.Watchers.Slices.{NotIn, Unique, without, without_absent}
use snap.Scheduler.Watchers.Lifetimes.{
  rm-IsWithout, ite-ext, watching, drop_id, watching-drop_id, watching-append, Owned,
  NotIn-watching, Unique-without, Unique-append, Owned-drop_id, Owned-snoc, get_elem?-last,
  get_elem?-length, length-snoc,
}

pub data Call : Type 0 where
  watch : Text → Call
  shut : ℕ → Call

-- `none` is a panic.
unfoldable pub run : List Call → TaskWatchers → Option TaskWatchers
run [] t = some t
run (watch task_id ∷ calls) t = run calls (add_watcher task_id t).0
run (shut w ∷ calls) t = elim (close w t) [ none ↦ none | some t' ↦ run calls t' ]

-- The watchers that were made and not closed, with their tasks; `n` is the next one's number.
abbrev pub open_watchers : List Call → ℕ → List (ℕ × Text) → List (ℕ × Text)
open_watchers [] n act = act
open_watchers (watch task_id ∷ calls) n act = open_watchers calls (suc n) (act ++ (n, task_id) ∷ [])
open_watchers (shut w ∷ calls) n act = open_watchers calls n (drop_id w act)

abbrev IsTracked : ℕ → List (ℕ × Text) → TaskWatchers → Type 0
IsTracked n act t =
    (t.created ≡ n)
    × (length t.task_ids ≡ n)
    × Owned t.task_ids act
    × ((j : Text) → watchers_of j t.coll ≡ watching j act)
    × ((j : Text) → Unique (watching j act))

none-some : {x : Text} → (let o : Option Text = none in o) ≡ some x → ⊥
none-some e = cc

some-cancel : {x y : Text} → some x ≡ some y → x ≡ y
some-cancel e = cc

watchers_of-put :
    (t j : Text) (ws : List ℕ) (coll : Collection)
    → watchers_of j (put text_discrete t ws coll) ≡ ite (text_discrete t j) ws (watchers_of j coll)
watchers_of-put t j ws coll = ground (arith, lookup-put text_discrete t j ws coll)

Unique-ite : {P : Type 0} (d : Dec P) (a b : List ℕ) → Unique a → Unique b → Unique (ite d a b)
Unique-ite (yes p) a b u v = subst Unique (sym (if_pos (yes p) p a b)) u
Unique-ite (no n) a b u v = subst Unique (sym (if_neg (no n) n a b)) v

Unique-drop_id :
    (w : ℕ) (act : List (ℕ × Text)) (j : Text)
    → Unique (watching j act)
    → Unique (watching j (drop_id w act))
Unique-drop_id w act j u =
    subst Unique (sym (watching-drop_id j w act)) (Unique-without w (watching j act) u)

-- A watcher that is not one of the task's is dropped without effect on the task.
watching-drop_id_other :
    (tids : List Text) (w : ℕ) (act : List (ℕ × Text)) (j : Text)
    → Owned tids act
    → get_elem? tids w ≢ some j
    → watching j (drop_id w act) ≡ watching j act
watching-drop_id_other tids w act j owned ne =
    watching-drop_id j w act
    ∙ without_absent w (watching j act) (NotIn-watching tids act w j owned ne)

dropped_one :
    (tids : List Text) (w : ℕ) (task_id : Text) (act : List (ℕ × Text)) (j : Text)
    → Owned tids act
    → get_elem? tids w ≡ some task_id
    → (ws : List ℕ) → ws ≡ watching j act
    → ite (text_discrete task_id j) (without w ws) ws ≡ watching j (drop_id w act)
dropped_one tids w task_id act j owned e ws same = elim (text_discrete task_id j) [
  | yes k ↦
      if_pos (text_discrete task_id j) k (without w ws) ws
      ∙ ap (without w) same
      ∙ sym (watching-drop_id j w act)
  | no n ↦
      if_neg (text_discrete task_id j) n (without w ws) ws
      ∙ same
      ∙ sym (watching-drop_id_other tids w act j owned (λ x. n (some-cancel (sym e ∙ x))))
]

fresh_NotIn :
    (n : ℕ) (act : List (ℕ × Text)) (t : TaskWatchers) (j : Text)
    → IsTracked n act t
    → NotIn n (watching j act)
fresh_NotIn n act t j (made, len, owned, same, unique) =
    NotIn-watching t.task_ids act n j owned
      (λ e. none-some (sym (get_elem?-length t.task_ids) ∙ ap (get_elem? t.task_ids) len ∙ e))

add_watcher-IsTracked :
    (n : ℕ) (act : List (ℕ × Text)) (t : TaskWatchers) (task_id : Text)
    → IsTracked n act t
    → IsTracked (suc n) (act ++ (n, task_id) ∷ []) (add_watcher task_id t).0
unfolding add_watcher
add_watcher-IsTracked n act t task_id (made, len, owned, same, unique) = (
  omega (arith, made),
  length-snoc t.task_ids task_id ∙ ap suc len,
  All-append (λ e. get_elem? (t.task_ids ++ task_id ∷ []) e.0 ≡ some e.1) act ((n, task_id) ∷ [])
      (Owned-snoc t.task_ids task_id act owned)
      (
        ap (get_elem? (t.task_ids ++ task_id ∷ [])) (sym len) ∙ get_elem?-last t.task_ids task_id,
        tt,
      ),
  (λ j.
      watchers_of-put task_id j (watchers_of task_id t.coll ++ t.created ∷ []) t.coll
      ∙ ite-ext (text_discrete task_id j) (watchers_of task_id t.coll ++ t.created ∷ [])
          (watching j act ++ n ∷ []) (watchers_of j t.coll)
          (λ k. ap₂ (λ ws c. ws ++ c ∷ []) (ap (λ i. watchers_of i t.coll) k ∙ same j) made)
      ∙ ap (ite (text_discrete task_id j) (watching j act ++ n ∷ [])) (same j)
      ∙ sym (watching-append j task_id n act)),
  (λ j. subst Unique (sym (watching-append j task_id n act)) (
      Unique-ite (text_discrete task_id j) (watching j act ++ n ∷ []) (watching j act)
        (Unique-append n (watching j act) (fresh_NotIn n act t j (made, len, owned, same, unique))
          (unique j))
        (unique j))),
)

close-IsTracked :
    (n : ℕ) (act : List (ℕ × Text)) (t : TaskWatchers) (w : ℕ)
    → IsTracked n act t
    → (t' : TaskWatchers) × (close w t ≡ some t') × IsTracked n (drop_id w act) t'
unfolding close
close-IsTracked n act t w (made, len, owned, same, unique) =
    elim (Option-cases (get_elem? t.task_ids w)) [
      | inl e ↦ (
        t,
        ground arith,
        (
          made,
          len,
          Owned-drop_id t.task_ids w act owned,
          (λ j.
              same j
              ∙ sym (watching-drop_id_other t.task_ids w act j owned (λ x. none-some (sym e ∙ x)))),
          (λ j. Unique-drop_id w act j (unique j)),
        ),
      )
      | inr (task_id, e) ↦
          let (coll', h, dropped) =
            rm-IsWithout task_id w t.coll (subst Unique (sym (same task_id)) (unique task_id)) in
          (
            record t { coll = coll' },
            ground arith,
            (
              made,
              len,
              Owned-drop_id t.task_ids w act owned,
              (λ j.
                  dropped j
                  ∙ dropped_one t.task_ids w task_id act j owned e (watchers_of j t.coll) (same j)),
              (λ j. Unique-drop_id w act j (unique j)),
            ),
          )
    ]

run-shut :
    (w : ℕ) (calls : List Call) (t t' : TaskWatchers)
    → close w t ≡ some t'
    → run (shut w ∷ calls) t ≡ run calls t'
unfolding run
run-shut w calls t t' e = ground arith

run-IsTracked :
    (calls : List Call) (n : ℕ) (act : List (ℕ × Text)) (t : TaskWatchers)
    → IsTracked n act t
    → (t' : TaskWatchers) × (run calls t ≡ some t')
      × ((j : Text) → watchers_of j t'.coll ≡ watching j (open_watchers calls n act))
unfolding run
run-IsTracked [] n act t h = (t, refl, h.3)
run-IsTracked (watch task_id ∷ calls) n act t h =
    run-IsTracked calls (suc n) (act ++ (n, task_id) ∷ []) (add_watcher task_id t).0
      (add_watcher-IsTracked n act t task_id h)
run-IsTracked (shut w ∷ calls) n act t h =
    let (t1, e, h1) = close-IsTracked n act t w h in
    let (t', r, same) = run-IsTracked calls n (drop_id w act) t1 h1 in
    (t', run-shut w calls t t1 e ∙ r, same)

handle-called :
    (e : Event) (task_id : Text) (t : TaskWatchers)
    → handle e task_id t ≡ called e (watchers_of task_id t.coll)
unfolding handle
handle-called metric_collected task_id t = refl
handle-called task_started task_id t = refl
handle-called task_stopped task_id t = refl
handle-called task_ended task_id t = refl
handle-called task_disabled task_id t = refl

-- After any calls of add and Close on a new collection, none of which panics, an event of a task is
-- delivered to the watchers of the task that were made and not closed, in the order of creation.
pub handle-run :
    (calls : List Call) (e : Event) (task_id : Text)
    → (t : TaskWatchers) × (run calls new_task_watchers ≡ some t)
      × (handle e task_id t ≡ called e (watching task_id (open_watchers calls 0 [])))
handle-run calls e task_id =
    let (t, h, same) =
      run-IsTracked calls 0 [] new_task_watchers
        (unfold new_task_watchers lookup in (refl, refl, tt, (λ j. refl), (λ j. tt))) in
    (t, h, handle-called e task_id t ∙ ap (called e) (same task_id))
