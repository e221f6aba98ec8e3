-- ===== src/Scheduler/Watchers.antt =====
-- scheduler/watcher.go: the watchers of tasks. A pointer to a watcher is its number in the order of
-- creation, and the handlers' calls are the list of the watchers that were called.
pub mod Slices
pub mod Lifetimes
pub mod Delivery
use mathlib.Core.List.{lookup}
use snap.Base.{
  ℕ, zero, suc, ◌+◌, ◌-◌, ◌%◌, ◌^◌, List, [], ◌∷◌, ◌++◌, Option, none, some, Text, text_discrete,
  length, get_elem?, take, drop, leb, ◌==◌, if◌then◌else◌,
}
use snap.Base.Map.{put, delete}

abbrev pub Collection : Type 0
Collection = List (Text × List ℕ)

-- `created` counts the watchers that were made; the field tIDCounter, a uint64, follows it.
pub record TaskWatchers : Type 0 where
  pub coll : Collection
  pub created : ℕ
  pub id_counter : ℕ
  pub task_ids : List (Text)

unfoldable pub new_task_watchers : TaskWatchers
new_task_watchers = record { coll = []; created = 0; id_counter = 1; task_ids = [] }

abbrev pub watchers_of : Text → Collection → List ℕ
watchers_of task_id coll = elim (lookup text_discrete task_id coll) [ none ↦ [] | some ws ↦ ws ]

-- append(s[:i], s[i+1:]...) moves the cells after `i` of a slice of length `len` one down in the
-- slice's own array.
unfoldable pub cut : ℕ → ℕ → List ℕ → List ℕ
cut i len cells = take i cells ++ (drop (suc i) (take len cells) ++ drop (len - 1) cells)

-- The loop goes over the cells of the slice as it was, in the array as it is. `none` is a panic.
unfoldable pub rm_loop : ℕ → ℕ → ℕ → List ℕ → ℕ → Option (List ℕ × ℕ)
unfolding cut
rm_loop tw i zero cells len = some (cells, len)
rm_loop tw i (suc n) cells len = elim (get_elem? cells i) [
  | none ↦ none
  | some w ↦
      if w == tw
      then (if leb (suc i) len then rm_loop tw (suc i) n (cut i len cells) (len - 1) else none)
      else rm_loop tw (suc i) n cells len
]

abbrev stored : Text → List ℕ → Collection → Collection
stored task_id [] coll = delete text_discrete task_id coll
stored task_id (w ∷ ws) coll = put text_discrete task_id (w ∷ ws) coll

unfoldable pub rm : Text → ℕ → Collection → Option Collection
unfolding rm_loop
rm task_id tw coll = elim (lookup text_discrete task_id coll) [
  | none ↦ some coll
  | some ws ↦ elim (rm_loop tw 0 (length ws) ws (length ws)) [
    | none ↦ none
    | some (cells, len) ↦ some (stored task_id (take len cells) coll)
  ]
]

-- The new watcher watches one task.
unfoldable pub add_watcher : Text → TaskWatchers → TaskWatchers × ℕ
add_watcher task_id t = (
  record {
    coll = put text_discrete task_id (watchers_of task_id t.coll ++ t.created ∷ []) t.coll;
    created = t.created + 1;
    id_counter = (t.id_counter + 1) % 2 ^ 64;
    task_ids = t.task_ids ++ task_id ∷ [];
  },
  t.created,
)

-- Close of a watcher: rm for the task that it watches.
unfoldable pub close : ℕ → TaskWatchers → Option TaskWatchers
unfolding rm
close tw t = elim (get_elem? t.task_ids tw) [
  | none ↦ some t
  | some task_id ↦ elim (rm task_id tw t.coll) [
    | none ↦ none
    | some coll ↦ some (record t { coll = coll })
  ]
]

pub data Event : Type 0 where
  metric_collected task_started task_stopped task_ended task_disabled : Event

abbrev pub called : Event → List ℕ → List (ℕ × Event)
called e [] = []
called e (w ∷ ws) = (w, e) ∷ called e ws

-- The handlers of events differ in the method that they call. The metrics and the reason that they
-- pass on are left out.
unfoldable pub handle_metric_collected : Text → TaskWatchers → List (ℕ × Event)
handle_metric_collected task_id t = called metric_collected (watchers_of task_id t.coll)

unfoldable pub handle_task_started : Text → TaskWatchers → List (ℕ × Event)
handle_task_started task_id t = called task_started (watchers_of task_id t.coll)

unfoldable pub handle_task_stopped : Text → TaskWatchers → List (ℕ × Event)
handle_task_stopped task_id t = called task_stopped (watchers_of task_id t.coll)

unfoldable pub handle_task_ended : Text → TaskWatchers → List (ℕ × Event)
handle_task_ended task_id t = called task_ended (watchers_of task_id t.coll)

unfoldable pub handle_task_disabled : Text → TaskWatchers → List (ℕ × Event)
handle_task_disabled task_id t = called task_disabled (watchers_of task_id t.coll)

unfoldable pub handle : Event → Text → TaskWatchers → List (ℕ × Event)
unfolding handle_metric_collected handle_task_started handle_task_stopped handle_task_ended
    handle_task_disabled
handle metric_collected task_id t = handle_metric_collected task_id t
handle task_started task_id t = handle_task_started task_id t
handle task_stopped task_id t = handle_task_stopped task_id t
handle task_ended task_id t = handle_task_ended task_id t
handle task_disabled task_id t = handle_task_disabled task_id t
