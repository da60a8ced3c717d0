-- ===== src/Worker/Examples.antt =====
-- The theorems on the worker's main loop (internal/worker/worker.go) at a concrete worker.
mod Tasks
mod Sandboxes
mod Signals
mod Outputs
use taskcluster_multistage_d.Common.{
  ℕ, zero, suc, ◌+◌, ◌<◌, ◌≤◌, ◌≡◌, ◌≢◌, ◌⊎◌, refl, Bool, true, false, Option, some, none, List, [],
  ◌∷◌, ◌++◌, length, arith, ltb, if◌then◌else◌,
}
use taskcluster_multistage_d.Worker.Claim.{Credentials, TaskClaim}
use taskcluster_multistage_d.Worker.Loop.{
  Config, Loop, Exit, context_error, immediate_stop, on_ctx_done, on_stop, on_completed,
  on_response, on_claimer_gone,
}
use taskcluster_multistage_d.Worker.Loop.System.{
  System, Event, ctx_done, stop_received, task_ends, slot_returned, queue_answers,
  response_received, waiting, looping, panicked, stuck, returned, start, run, step,
}
use taskcluster_multistage_d.Worker.Loop.Slots.{count, slots_of}
use taskcluster_multistage_d.Worker.Loop.Runs.{IsModest}
use taskcluster_multistage_d.Worker.Loop.Safety.{run-safe, run-slots, run-asks, run-returned}
use taskcluster_multistage_d.Worker.Loop.Shutdown.{run-shutdown, run-drops_claims}

abbrev pub credentials : Credentials
credentials = record { client_id = "worker"; access_token = "token"; certificate = "" }

abbrev pub claim : TaskClaim
claim = record {
  task_id = "task";
  task_group_id = "group";
  run_id = 0;
  credentials = credentials;
  expires = 900;
  taken_until = 20;
}

-- A queue that always has one task to give out.
abbrev pub one_task : ℕ → ℕ → List TaskClaim
one_task i zero = []
one_task i (suc n) = claim ∷ []

pub one_task-IsModest : IsModest one_task
one_task-IsModest i zero = omega arith
one_task-IsModest i (suc n) = omega arith

abbrev pub two_slots : Config
two_slots = record { concurrent_tasks = 2; shutdown_on_idle_seconds = none }

-- Two tasks are claimed, one after the other.
abbrev claimed_two : List Event
claimed_two = queue_answers 0 ∷ response_received 5 ∷ queue_answers 1 ∷ response_received 6 ∷ []

abbrev busy : System
unfolding start run
busy = run one_task two_slots claimed_two (start two_slots 0)

run-safe_example : (busy.status ≢ panicked) × (busy.status ≢ stuck)
unfolding start run
run-safe_example = run-safe one_task one_task-IsModest two_slots 0 claimed_two

run-slots_example :
    (count 1 busy.loop.free_slots + count 1 (slots_of busy.running) + count 1 busy.completed ≡ 1)
    × (length busy.running + length busy.completed ≤ 2)
unfolding start run on_response
run-slots_example = run-slots one_task one_task-IsModest two_slots 0 claimed_two 1 refl

abbrev first_claim : List Event
first_claim = queue_answers 0 ∷ response_received 5 ∷ []

run-asks_example : (run one_task two_slots first_claim (start two_slots 0)).claimer ≢ waiting
unfolding start run on_response
run-asks_example =
    run-asks one_task one_task-IsModest two_slots 0 first_claim refl refl (omega arith)

abbrev until_returned : List Event
until_returned = first_claim ++ ctx_done ∷ task_ends 0 ∷ slot_returned 9 ∷ []

run-returned_example :
    (context_error ≡ immediate_stop)
    ⊎ ((length (run one_task two_slots until_returned (start two_slots 0)).running ≡ 0)
        × (length (run one_task two_slots until_returned (start two_slots 0)).completed ≡ 0))
unfolding start run on_response on_ctx_done on_completed
run-returned_example =
    run-returned one_task one_task-IsModest two_slots 0 until_returned context_error refl

-- The worker shuts down with two tasks running, of which one ends.
abbrev stopping : System
unfolding start run on_stop
stopping =
    run one_task two_slots (claimed_two ++ stop_received true ∷ task_ends 0 ∷ [])
      (start two_slots 0)

run-shutdown_example :
    ((run one_task two_slots
        (slot_returned 8 ∷ queue_answers 2 ∷ response_received 9 ∷ [])
        stopping).loop.is_shutting_down
      ≡ true)
    × ((run one_task two_slots
          (slot_returned 8 ∷ queue_answers 2 ∷ response_received 9 ∷ [])
          stopping).launched
        ≡ claim ∷ claim ∷ [])
unfolding start run on_response on_stop
run-shutdown_example =
    run-shutdown one_task two_slots (slot_returned 8 ∷ queue_answers 2 ∷ response_received 9 ∷ [])
      stopping refl

run-drops_claims_example :
    let t =
      run one_task two_slots
        (slot_returned 8 ∷ queue_answers 2 ∷ response_received 9 ∷ [])
        stopping in
    (t.status ≡ looping)
    × (t.claimer ≡ waiting)
    × (t.claimed ≡ claim ∷ claim ∷ claim ∷ [])
    × (t.launched ≡ claim ∷ claim ∷ [])
unfolding start run on_response on_stop
run-drops_claims_example =
    run-drops_claims one_task two_slots stopping 1 [] 2 8 9 refl refl refl refl refl refl refl
      (omega arith)
