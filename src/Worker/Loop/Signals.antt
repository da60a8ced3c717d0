-- ===== src/Worker/Loop/Signals.antt =====
-- internal/worker/worker.go: the contexts that `Worker.Run` makes, and what the end of them does to its
-- goroutines. The two signals of cmd/multistage-docker-worker/main.go come in here: the first closes
-- `gracefulStop`, the second cancels the context of the command. `backoff.Retry` is a parameter.
pub mod Graceful
pub mod Stops
mod Drain
pub mod Immediate
use taskcluster_multistage_d.Common.{
  ℕ, Bool, true, false, List, [], ◌∷◌, ◌++◌, ◌≡◌, refl, ◌∙◌, sym, ap, if◌then◌else◌, Bool-cases,
  inl, inr,
}
use taskcluster_multistage_d.Worker.Claim.{TaskClaim}
use taskcluster_multistage_d.Worker.Loop.{Config}
use taskcluster_multistage_d.Worker.Loop.System.{
  System, Event, ctx_done, stop_received, task_ends, slot_returned, queue_answers, claim_gives_up,
  response_received, claimer_gone_seen, start, step, run,
}

-- `cancelled`: the context of the command, and `ctx` below it, are done. `safe_cancelled`: so is
-- `safeCtx`, which is below `ctx`.
pub record Worker : Type 0 where
  pub system : System
  pub safe_cancelled : Bool
  pub cancelled : Bool

-- `claim_fails`: an attempt of `ClaimWork` has failed, with `context.Canceled` or another error, and
-- the wait after it is over. All else that happens is an event of the system.
pub data Input : Type 0 where
  graceful_stop cancels : Input
  claim_fails : Bool → Input
  happens : Event → Input

-- Whether `backoff.Retry` gives up after a failed attempt, given whether its context is done and
-- whether the error was made `Permanent`.
abbrev pub Retry : Type 0
Retry = Bool → Bool → Bool

-- The context is looked at where it is listened to: `ctxDone` in the loop, `safeCtx` in `Retry`.
abbrev pub events_of : Retry → Worker → Input → List Event
events_of gives_up w graceful_stop = []
events_of gives_up w cancels = []
events_of gives_up w (claim_fails permanent) =
    if gives_up w.safe_cancelled permanent then claim_gives_up ∷ [] else []
events_of gives_up w (happens ctx_done) = if w.cancelled then ctx_done ∷ [] else []
events_of gives_up w (happens claim_gives_up) = []
events_of gives_up w (happens (stop_received b)) = stop_received b ∷ []
events_of gives_up w (happens (task_ends k)) = task_ends k ∷ []
events_of gives_up w (happens (slot_returned now)) = slot_returned now ∷ []
events_of gives_up w (happens (queue_answers i)) = queue_answers i ∷ []
events_of gives_up w (happens (response_received now)) = response_received now ∷ []
events_of gives_up w (happens claimer_gone_seen) = claimer_gone_seen ∷ []

-- A cancelled context cancels those below it.
abbrev pub contexts : Input → Worker → Worker
contexts graceful_stop w = record w { safe_cancelled = true }
contexts cancels w = record w { safe_cancelled = true; cancelled = true }
contexts (claim_fails permanent) w = w
contexts (happens e) w = w

module _ (gives_up : Retry) (queue : ℕ → ℕ → List TaskClaim) (cfg : Config) where
  abbrev pub react : Input → Worker → Worker
  unfolding run
  react i w = contexts i (record w { system = run queue cfg (events_of gives_up w i) w.system })

  unfoldable pub run_worker : List Input → Worker → Worker
  unfolding run
  run_worker [] w = w
  run_worker (i ∷ is) w = run_worker is (react i w)

  -- The events of the system, over all the inputs.
  unfoldable pub trace : List Input → Worker → List Event
  unfolding run
  trace [] w = []
  trace (i ∷ is) w = events_of gives_up w i ++ trace is (react i w)

abbrev pub begin : Config → ℕ → Worker
begin cfg now = record { system = start cfg now; safe_cancelled = false; cancelled = false }

run-append :
    (queue : ℕ → ℕ → List TaskClaim) (cfg : Config) (xs ys : List Event) (s : System)
    → run queue cfg (xs ++ ys) s ≡ run queue cfg ys (run queue cfg xs s)
unfolding run
run-append queue cfg [] ys s = refl
run-append queue cfg (x ∷ xs) ys s = run-append queue cfg xs ys (step queue cfg x s)

contexts-system : (i : Input) (w : Worker) → (contexts i w).system ≡ w.system
contexts-system graceful_stop w = refl
contexts-system cancels w = refl
contexts-system (claim_fails permanent) w = refl
contexts-system (happens e) w = refl

-- Whatever the contexts do, the system goes through a run of its own.
pub run_worker-trace :
    (gives_up : Retry) (queue : ℕ → ℕ → List TaskClaim) (cfg : Config) (is : List Input)
    (w : Worker)
    → (run_worker gives_up queue cfg is w).system
      ≡ run queue cfg (trace gives_up queue cfg is w) w.system
unfolding run_worker run trace
run_worker-trace gives_up queue cfg [] w = refl
run_worker-trace gives_up queue cfg (i ∷ is) w =
    run_worker-trace gives_up queue cfg is (react gives_up queue cfg i w)
    ∙ ap (run queue cfg (trace gives_up queue cfg is (react gives_up queue cfg i w)))
        (contexts-system i _)
    ∙ sym (
        run-append queue cfg (events_of gives_up w i)
          (trace gives_up queue cfg is (react gives_up queue cfg i w)) w.system)
