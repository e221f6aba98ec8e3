-- ===== src/Scheduler/Queue/Wakeup.antt =====
-- A job that arrives while the last handler is about to end.
use snap.Base.{◌≡◌, ◌≢◌, refl, sym, ◌∙◌, ◌⊎◌, inl, inr, true, List, [], ◌∷◌, ◌++◌, some, arith}
use snap.Scheduler.Queue.{
  queue_running, queue_working, Job, selecting, checking, HandlerPc, popping, handling, emptied,
  Queue, stop, has_room, receive, check_status, handler_exit, Step, arrives, checks, sees_kill,
  pops, handles, exits, stops, Reach, here, next,
}

-- Between the pop that found no item and the lock under which the handler sets the status back.
pub record IsEnding (q : Queue) : Type 0 where
  pub at_select : q.loop ≡ selecting
  pub working : q.status ≡ queue_working
  pub last : q.handlers ≡ emptied ∷ []

-- Nobody works the items off.
pub record IsIdle (q : Queue) : Type 0 where
  pub at_select : q.loop ≡ selecting
  pub running : q.status ≡ queue_running
  pub no_handler : q.handlers ≡ []

-- What remains of `q` once `j` was taken and the handler has ended.
pub stranded : Queue → Job → Queue
stranded q j = handler_exit (check_status (receive q j)) [] []

receive-room :
    (q : Queue) (j : Job)
    → has_room q ≡ true
    → receive q j
      ≡ record q { items = q.items ++ j ∷ []; accepted = q.accepted ++ j ∷ []; loop = checking }
unfolding receive
receive-room q j h = rw (h, receive)

check-working :
    (q : Queue) → q.status ≡ queue_working → check_status q ≡ record q { loop = selecting }
unfolding check_status
check-working q h = ground arith

stranded-IsIdle :
    (q : Queue) (j : Job)
    → IsEnding q
    → has_room q ≡ true
    → (Reach q (stranded q j)) × ((stranded q j).items ≡ q.items ++ j ∷ []) × IsIdle (stranded q j)
unfolding stranded handler_exit
stranded-IsIdle q j h room =
    let taken = receive-room q j room in
    let checked = check-working (receive q j) (rw taken h.working) in
    (
      next (next (next here (arrives q j h.at_select)) (checks (receive q j) (rw taken)))
          (exits (check_status (receive q j)) [] [] (rw (checked, taken) h.last)),
      rw (checked, taken),
      record { at_select = rw checked; running = refl; no_handler = refl },
    )

middle-ne-nil : (pre post : List HandlerPc) (h : HandlerPc) → pre ++ (h ∷ post) ≢ []
middle-ne-nil [] post h e = cc
middle-ne-nil (x ∷ pre) post h e = cc

stop-idle : (q r : Queue) → stop q ≡ some r → (r.items ≡ q.items) × (r.handlers ≡ q.handlers)
unfolding stop
stop-idle q r e = ground arith

idle-Step :
    {q r : Queue}
    → Step q r
    → IsIdle q
    → ((r.items ≡ q.items) × (r.handlers ≡ [])) ⊎ ((j : Job) × (r ≡ receive q j))
idle-Step (arrives q j h) i = inr (j, refl)
idle-Step (checks q h) i = cc (i.at_select)
idle-Step (sees_kill q h k) i = inl (refl, i.no_handler)
idle-Step (pops q pre post e) i = absurd (middle-ne-nil pre post popping (sym e ∙ i.no_handler))
idle-Step (handles q pre post j e) i =
    absurd (middle-ne-nil pre post (handling j) (sym e ∙ i.no_handler))
idle-Step (exits q pre post e) i = absurd (middle-ne-nil pre post emptied (sym e ∙ i.no_handler))
idle-Step (stops q r e) i = let (p, h) = stop-idle q r e in inl (p, h ∙ i.no_handler)

-- If a job is taken between the empty pop of the last handler and the lock under which the handler
-- sets the status back, the queue comes to rest with the job among its items, Running and without a
-- handler. From there every step leaves the items and the absence of handlers alone, unless it is
-- the arrival of another job.
pub queue_strands :
    (q : Queue) (j : Job)
    → IsEnding q
    → has_room q ≡ true
    → (s : Queue) × Reach q s
      × (s.items ≡ q.items ++ j ∷ [])
      × IsIdle s
      × ((r : Queue)
          → Step s r
          → ((r.items ≡ s.items) × (r.handlers ≡ [])) ⊎ ((k : Job) × (r ≡ receive s k)))
queue_strands q j h room =
    let (reached, held, idle) = stranded-IsIdle q j h room in
    (stranded q j, reached, held, idle, λ r st. idle-Step st idle)
