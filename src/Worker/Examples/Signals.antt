-- ===== src/Worker/Examples/Signals.antt =====
-- The theorems on the contexts of `Worker.Run` (internal/worker/worker.go) at a concrete worker.
use taskcluster_multistage_d.Common.{◌≡◌, ◌≢◌, ◌⊎◌, refl, true, false, ◌||◌, List, [], ◌∷◌, arith}
use taskcluster_multistage_d.Worker.Loop.{context_error, nothing, on_response}
use taskcluster_multistage_d.Worker.Loop.System.{
  claimer_gone_seen, slot_returned, task_ends, queue_answers, response_received, waiting, gone,
  returned, start, run, step,
}
use taskcluster_multistage_d.Worker.Loop.Signals.{
  Worker, Input, graceful_stop, claim_fails, happens, Retry, run_worker, begin,
}
use taskcluster_multistage_d.Worker.Loop.Signals.Graceful.{run_worker-ignores_signal}
use taskcluster_multistage_d.Worker.Loop.Signals.Stops.{run_worker-stops}
use taskcluster_multistage_d.Worker.Loop.Signals.Immediate.{stop_now, run_worker-stops_now}
use taskcluster_multistage_d.Worker.Examples.{one_task, one_task-IsModest, two_slots, claim}

-- A retry that gives up after a failed attempt if its context is done or the error is permanent.
abbrev retry : Retry
retry done permanent = done || permanent

-- The first signal comes before the first task is claimed and started.
abbrev signalled : List Input
signalled = graceful_stop ∷ happens (queue_answers 0) ∷ happens (response_received 5) ∷ []

run_worker-ignores_signal_example :
    let s = (run_worker retry one_task two_slots signalled (begin two_slots 0)).system in
    (s.loop.is_shutting_down ≡ false) × (s.claimer ≢ waiting) × (s.claimer ≢ gone)
unfolding run_worker start run step on_response
run_worker-ignores_signal_example =
    run_worker-ignores_signal retry one_task one_task-IsModest two_slots 0 signalled refl refl
      (omega arith)

-- Then the second attempt to claim work fails, and the task that runs ends.
abbrev after_signal : Worker
after_signal = run_worker retry one_task two_slots signalled (begin two_slots 0)

abbrev task_done : List Input
task_done = happens (task_ends 0) ∷ happens (slot_returned 9) ∷ []

run_worker-stops_example :
    let s =
      (run_worker retry one_task two_slots
        (claim_fails false ∷ happens claimer_gone_seen ∷ task_done)
        after_signal).system in
    (s.claimed ≡ claim ∷ [])
    × (s.launched ≡ claim ∷ [])
    × ((s.status ≡ returned nothing) ⊎ (s.loop.is_shutting_down ≡ true))
unfolding run_worker start run step on_response
run_worker-stops_example =
    run_worker-stops retry one_task two_slots false 1 after_signal task_done refl refl refl refl
      refl

run_worker-stops_now_example :
    (run_worker retry one_task two_slots (stop_now 9 1 1) after_signal).system.status
    ≡ returned context_error
unfolding run_worker start run step on_response
run_worker-stops_now_example =
    run_worker-stops_now retry one_task one_task-IsModest two_slots 0 9 signalled refl refl
