-- ===== src/Scheduler/Queue.antt =====
-- scheduler/queue.go: a bounded job queue. Its loop takes jobs from the channel Event and starts a
-- handler goroutine, which works the items off. What a goroutine does under the mutex is one step,
-- and a goroutine's program counter says which such step is next.
pub mod Order
pub mod Wakeup
use snap.Base.{
  ℕ, ◌+◌, ◌≡◌, Bool, true, false, ◌||◌, List, [], ◌∷◌, ◌++◌, Option, none, some, length, leb, ◌==◌,
  if◌then◌else◌,
}

pub data QueueStatus : Type 0 where
  queue_stopped queue_running queue_working : QueueStatus

-- A job is known by its number.
abbrev pub Job : Type 0
Job = ℕ

-- Where the goroutine of `start` is: not begun, at its select, between push and the status check,
-- or returned.
pub data LoopPc : Type 0 where
  unstarted selecting checking returned : LoopPc

-- Where a goroutine of `handle` is: before pop, in the handler with a job, or past an empty pop.
pub data HandlerPc : Type 0 where
  popping : HandlerPc
  handling : Job → HandlerPc
  emptied : HandlerPc

-- The queue's fields, its goroutines, and the history: the jobs that push took and refused, and
-- those that the handler function returned from.
pub record Queue : Type 0 where
  pub limit : ℕ
  pub items : List Job
  pub status : QueueStatus
  pub kill_closed : Bool
  pub loop : LoopPc
  pub handlers : List HandlerPc
  pub accepted : List Job
  pub rejected : List Job
  pub handled : List Job

unfoldable pub new_queue : ℕ → Queue
new_queue limit = record {
  limit = limit;
  items = [];
  status = queue_stopped;
  kill_closed = false;
  loop = unstarted;
  handlers = [];
  accepted = [];
  rejected = [];
  handled = [];
}

unfoldable pub start : Queue → Queue
start q = elim q.status [
  | queue_stopped ↦ record q { status = queue_running; loop = selecting }
  | _ ↦ q
]

-- `none` is the panic of closing a closed channel.
unfoldable pub close_kill : Bool → Queue → Option Queue
close_kill true q = none
close_kill false q = some (record q { kill_closed = true; status = queue_stopped })

unfoldable pub stop : Queue → Option Queue
unfolding close_kill
stop q = elim q.status [ queue_stopped ↦ some q | _ ↦ close_kill q.kill_closed q ]

unfoldable pub has_room : Queue → Bool
has_room q = q.limit == 0 || leb (length q.items + 1) q.limit

-- The error of push, on which the job's promise is completed, is the refusal.
unfoldable pub receive : Queue → Job → Queue
unfolding has_room
receive q j =
    if has_room q
    then record q { items = q.items ++ j ∷ []; accepted = q.accepted ++ j ∷ []; loop = checking }
    else record q { rejected = q.rejected ++ j ∷ [] }

unfoldable pub check_status : Queue → Queue
check_status q = elim q.status [
  | queue_running ↦ record q {
    status = queue_working;
    handlers = popping ∷ q.handlers;
    loop = selecting;
  }
  | _ ↦ record q { loop = selecting }
]

unfoldable pub pop : List Job → Option (Job × List Job)
pop [] = none
pop (j ∷ items) = some (j, items)

-- The pop of one handler goroutine, between the others.
unfoldable pub handler_pop : Queue → List HandlerPc → List HandlerPc → Queue
unfolding pop
handler_pop q pre post = elim (pop q.items) [
  | none ↦ record q { handlers = pre ++ (emptied ∷ post) }
  | some (j, rest) ↦ record q { items = rest; handlers = pre ++ (handling j ∷ post) }
]

unfoldable pub handler_done : Queue → List HandlerPc → Job → List HandlerPc → Queue
handler_done q pre j post = record q {
  handlers = pre ++ (popping ∷ post);
  handled = q.handled ++ j ∷ [];
}

unfoldable pub handler_exit : Queue → List HandlerPc → List HandlerPc → Queue
handler_exit q pre post = record q { status = queue_running; handlers = pre ++ post }

-- The steps of a queue that was started once, as newWorkManager does.
pub data Step : Queue → Queue → Type 0 where
  arrives : (q : Queue) (j : Job) → q.loop ≡ selecting → Step q (receive q j)
  checks : (q : Queue) → q.loop ≡ checking → Step q (check_status q)
  sees_kill :
      (q : Queue)
      → q.loop ≡ selecting
      → q.kill_closed ≡ true
      → Step q (record q { loop = returned })
  pops :
      (q : Queue) (pre post : List HandlerPc)
      → q.handlers ≡ pre ++ (popping ∷ post)
      → Step q (handler_pop q pre post)
  handles :
      (q : Queue) (pre post : List HandlerPc) (j : Job)
      → q.handlers ≡ pre ++ (handling j ∷ post)
      → Step q (handler_done q pre j post)
  exits :
      (q : Queue) (pre post : List HandlerPc)
      → q.handlers ≡ pre ++ (emptied ∷ post)
      → Step q (handler_exit q pre post)
  stops : (q q' : Queue) → stop q ≡ some q' → Step q q'

pub data Reach (q : Queue) : Queue → Type 0 where
  here : Reach q q
  next : {r s : Queue} → Reach q r → Step r s → Reach q s
