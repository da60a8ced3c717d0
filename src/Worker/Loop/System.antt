-- ===== src/Worker/Loop/System.antt =====
-- The system that `Worker.Run` of internal/worker/worker.go sets up: the main loop, the goroutine
-- that claims work and the running tasks, and a step for each event.
use taskcluster_multistage_d.Common.{
  ℕ, zero, suc, Bool, true, false, Option, some, none, List, [], ◌∷◌, ◌++◌, if◌then◌else◌,
}
use taskcluster_multistage_d.Worker.Claim.{TaskClaim}
use taskcluster_multistage_d.Worker.Loop.{
  Config, Loop, Exit, Outcome, continues, exits, panics, on_ctx_done, on_stop, on_completed,
  on_response, on_claimer_gone,
}

-- The goroutine that claims work: it waits for a request, is in `backoff.Retry`, has a response to
-- send, or has returned and closed `workRes`.
pub data Claimer : Type 0 where
  waiting : Claimer
  claiming : ℕ → Claimer
  offering : List TaskClaim → Claimer
  gone : Claimer

-- `stuck`: the loop is blocked in `workReq <- n` while the goroutine is not waiting for a request;
-- only the loop could free it.
pub data Status : Type 0 where
  looping : Status
  returned : Exit → Status
  panicked stuck : Status

-- `completed` is the channel `completedTasks`. `claimed` and `launched` record the tasks that the
-- queue gave out and those that `RunTask` was started on.
pub record System : Type 0 where
  pub loop : Loop
  pub claimer : Claimer
  pub running : List (ℕ × TaskClaim)
  pub completed : List ℕ
  pub status : Status
  pub claimed : List TaskClaim
  pub launched : List TaskClaim

-- 0, 1, …, n - 1.
abbrev pub range_from : ℕ → ℕ → List ℕ
range_from i zero = []
range_from i (suc n) = i ∷ range_from (suc i) n

-- The state before the first turn of the loop, `workReq <- config.ConcurrentTasks` done.
unfoldable pub start : Config → ℕ → System
start cfg now = record {
  loop = record {
    free_slots = range_from 0 cfg.concurrent_tasks;
    is_full = false;
    idle_since = some now;
    is_shutting_down = false;
    ctx_armed = true;
    work_res_armed = true;
  };
  claimer = claiming cfg.concurrent_tasks;
  running = [];
  completed = [];
  status = looping;
  claimed = [];
  launched = [];
}

abbrev pub claims_of : List (ℕ × TaskClaim) → List TaskClaim
claims_of [] = []
claims_of ((slot, claim) ∷ rest) = claim ∷ claims_of rest

-- `workReq <- n`.
abbrev pub request : Option ℕ → System → System
request none s = s
request (some n) s = elim s.claimer [
  | waiting ↦ record s { claimer = claiming n }
  | _ ↦ record s { status = stuck }
]

abbrev pub finish_turn : Outcome → System → System
finish_turn (continues l started n) s = request n (record s {
  loop = l;
  running = s.running ++ started;
  launched = s.launched ++ claims_of started;
})
finish_turn (exits e) s = record s { status = returned e }
finish_turn panics s = record s { status = panicked }

-- The events that move the system. A queue is the function that answers the `n` tasks asked for,
-- at the i-th attempt.
pub data Event : Type 0 where
  ctx_done : Event
  stop_received : Bool → Event
  task_ends : ℕ → Event
  slot_returned : ℕ → Event
  queue_answers : ℕ → Event
  claim_gives_up : Event
  response_received : ℕ → Event
  claimer_gone_seen : Event

abbrev pub remove_at {ℓ} : {A : Type ℓ} → ℕ → List A → Option (A × List A)
remove_at k [] = none
remove_at zero (x ∷ xs) = some (x, xs)
remove_at (suc k) (x ∷ xs) = elim (remove_at k xs) [
  | none ↦ none
  | some (y, rest) ↦ some (y, x ∷ rest)
]

-- The deferred `completedTasks <- slot`.
abbrev pub end_task : Option ((ℕ × TaskClaim) × List (ℕ × TaskClaim)) → System → System
end_task none s = s
end_task (some ((slot, claim), rest)) s = record s {
  running = rest;
  completed = s.completed ++ slot ∷ [];
}

abbrev pub take_completed : Config → ℕ → List ℕ → System → System
take_completed cfg now [] s = s
take_completed cfg now (idx ∷ rest) s =
    finish_turn (on_completed cfg now idx s.loop) (record s { completed = rest })

abbrev pub answer : (ℕ → ℕ → List TaskClaim) → ℕ → Claimer → System → System
answer queue i (claiming n) s = record s {
  claimer = offering (queue i n);
  claimed = s.claimed ++ queue i n;
}
answer queue i _ s = s

abbrev pub give_up : Claimer → System → System
give_up (claiming n) s = record s { claimer = gone }
give_up _ s = s

abbrev pub take_response : Config → ℕ → Claimer → System → System
take_response cfg now (offering claims) s =
    finish_turn (on_response cfg now claims s.loop) (record s { claimer = waiting })
take_response cfg now _ s = s

abbrev pub see_gone : Config → Claimer → System → System
see_gone cfg gone s = finish_turn (on_claimer_gone cfg s.loop) s
see_gone cfg _ s = s

-- An event that cannot happen in a state changes nothing.
abbrev pub move : (ℕ → ℕ → List TaskClaim) → Config → Event → System → System
move queue cfg ctx_done s = if s.loop.ctx_armed then finish_turn (on_ctx_done cfg s.loop) s else s
move queue cfg (stop_received b) s = finish_turn (on_stop b s.loop) s
move queue cfg (task_ends k) s = end_task (remove_at k s.running) s
move queue cfg (slot_returned now) s = take_completed cfg now s.completed s
move queue cfg (queue_answers i) s = answer queue i s.claimer s
move queue cfg claim_gives_up s = give_up s.claimer s
move queue cfg (response_received now) s =
    if s.loop.work_res_armed then take_response cfg now s.claimer s else s
move queue cfg claimer_gone_seen s = if s.loop.work_res_armed then see_gone cfg s.claimer s else s

-- Once the loop has returned, nothing more is said of the system.
unfoldable pub step : (ℕ → ℕ → List TaskClaim) → Config → Event → System → System
step queue cfg e s = elim s.status [ looping ↦ move queue cfg e s | _ ↦ s ]

unfoldable pub run : (ℕ → ℕ → List TaskClaim) → Config → List Event → System → System
unfolding step
run queue cfg [] s = s
run queue cfg (e ∷ es) s = run queue cfg es (step queue cfg e s)
