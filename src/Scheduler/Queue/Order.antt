-- ===== src/Scheduler/Queue/Order.antt =====
-- The order of the jobs, the bound and the number of handlers, in every reachable state.
use snap.Base.{
  ℕ, ◌+◌, ◌≤◌, ◌≡◌, refl, ap, ◌⊎◌, inr, List, [], ◌∷◌, ◌++◌, some, length, append_assoc,
  length-append, arith,
}
use snap.Scheduler.Queue.{
  queue_running, Job, HandlerPc, popping, handling, emptied, Queue, new_queue, start, stop, receive,
  check_status, handler_pop, handler_done, handler_exit, Step, arrives, checks, sees_kill, pops,
  handles, exits, stops, Reach, here, next,
}

-- The jobs that handlers are at.
unfoldable pub in_hand : List HandlerPc → List Job
in_hand [] = []
in_hand (handling j ∷ hs) = j ∷ in_hand hs
in_hand (popping ∷ hs) = in_hand hs
in_hand (emptied ∷ hs) = in_hand hs

pub record Inv (q : Queue) : Type 0 where
  pub one : length q.handlers ≤ 1
  pub quiet : q.status ≡ queue_running → q.handlers ≡ []
  pub bounded : (q.limit ≡ 0) ⊎ (length q.items ≤ q.limit)
  pub order : q.handled ++ (in_hand q.handlers ++ q.items) ≡ q.accepted

start-Inv : (limit : ℕ) → Inv (start (new_queue limit))
unfolding start new_queue in_hand
start-Inv limit = record {
  one = omega arith;
  quiet = λ _. refl;
  bounded = inr (omega arith);
  order = refl;
}

regroup : (a b c d : List Job) → a ++ (b ++ (c ++ d)) ≡ (a ++ (b ++ c)) ++ d
regroup a b c d = simp append_assoc

receive-Inv : (q : Queue) (j : Job) → Inv q → Inv (receive q j)
unfolding receive
receive-Inv q j v = record {
  one = ground arith;
  quiet = ground arith;
  bounded = ground (arith, length-append q.items (j ∷ []));
  order = ground (arith, regroup q.handled (in_hand q.handlers) q.items (j ∷ []));
}

check-Inv : (q : Queue) → Inv q → Inv (check_status q)
unfolding check_status in_hand
check-Inv q v = record {
  one = ground arith;
  quiet = ground arith;
  bounded = ground arith;
  order = ground arith;
}

-- One handler among at most one is all of them.
single :
    (hs pre post : List HandlerPc) (h : HandlerPc)
    → hs ≡ pre ++ (h ∷ post)
    → length hs ≤ 1
    → (pre ≡ []) × (post ≡ [])
single hs pre post h e one =
    (nil_of_length pre (omega (arith, total)), nil_of_length post (omega (arith, total)))
  where
    total : length pre + (length post + 1) ≤ 1
    total = omega (arith, ap length e, length-append pre (h ∷ post))

    nil_of_length : (xs : List HandlerPc) → length xs ≤ 0 → xs ≡ []
    nil_of_length [] h = refl
    nil_of_length (x ∷ xs) h = absurd (omega arith)

-- The steps of a handler that is the only one.
module _ (q : Queue) (v : Inv q) where
  pop-Inv : q.handlers ≡ popping ∷ [] → Inv (handler_pop q [] [])
  unfolding handler_pop in_hand
  pop-Inv e = record {
    one = ground arith;
    quiet = ground arith;
    bounded = ground arith;
    order = ground arith;
  }

  done-Inv : (j : Job) → q.handlers ≡ handling j ∷ [] → Inv (handler_done q [] j [])
  unfolding handler_done in_hand
  done-Inv j e = record {
    one = ground arith;
    quiet = ground arith;
    bounded = ground arith;
    order = ground (arith, append_assoc q.handled (j ∷ []) q.items);
  }

  exit-Inv : q.handlers ≡ emptied ∷ [] → Inv (handler_exit q [] [])
  unfolding handler_exit in_hand
  exit-Inv e = record {
    one = ground arith;
    quiet = ground arith;
    bounded = ground arith;
    order = ground arith;
  }

stop-Inv : (q q' : Queue) → stop q ≡ some q' → Inv q → Inv q'
unfolding stop
stop-Inv q q' e v = ground arith

pub Step-Inv : {q r : Queue} → Step q r → Inv q → Inv r
Step-Inv (arrives q j h) v = receive-Inv q j v
Step-Inv (checks q h) v = check-Inv q v
Step-Inv (sees_kill q h k) v = record {
  one = v.one;
  quiet = v.quiet;
  bounded = v.bounded;
  order = v.order;
}
Step-Inv (pops q pre post e) v =
    let (p, r) = single q.handlers pre post popping e v.one in rw (p, r) (pop-Inv q v (cc))
Step-Inv (handles q pre post j e) v =
    let (p, r) = single q.handlers pre post (handling j) e v.one in rw (p, r) (done-Inv q v j (cc))
Step-Inv (exits q pre post e) v =
    let (p, r) = single q.handlers pre post emptied e v.one in rw (p, r) (exit-Inv q v (cc))
Step-Inv (stops q q' e) v = stop-Inv q q' e v

pub Reach-Inv : {q r : Queue} → Inv q → Reach q r → Inv r
Reach-Inv v here = v
Reach-Inv v (next r s) = Step-Inv s (Reach-Inv v r)

-- In every state that a started queue reaches, under any interleaving: at most one handler runs,
-- and none while the status is Running; a bounded queue holds at most its limit; and the jobs
-- handled, the one in hand and the ones waiting are, in this order, the jobs accepted, in the order
-- of acceptance.
pub queue_order :
    (limit : ℕ) {q : Queue}
    → Reach (start (new_queue limit)) q
    → (length q.handlers ≤ 1)
      × (q.status ≡ queue_running → q.handlers ≡ [])
      × ((q.limit ≡ 0) ⊎ (length q.items ≤ q.limit))
      × (q.handled ++ (in_hand q.handlers ++ q.items) ≡ q.accepted)
queue_order limit r = let v = Reach-Inv (start-Inv limit) r in (v.one, v.quiet, v.bounded, v.order)
