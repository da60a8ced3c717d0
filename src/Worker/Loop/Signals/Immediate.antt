-- ===== src/Worker/Loop/Signals/Immediate.antt =====
-- internal/worker/worker.go, `Worker.Run` after the second signal, which cancels the context of the command.
use taskcluster_multistage_d.Common.{
  ℕ, zero, suc, ◌+◌, ◌≡◌, refl, ◌∙◌, ap, subst, sym, true, List, [], ◌∷◌, length,
}
use taskcluster_multistage_d.Worker.Claim.{TaskClaim}
use taskcluster_multistage_d.Worker.Loop.{Config, context_error}
use taskcluster_multistage_d.Worker.Loop.System.{
  looping, returned, Event, ctx_done, task_ends, slot_returned, start, run,
}
use taskcluster_multistage_d.Worker.Loop.Invariant.{Good, start-Good}
use taskcluster_multistage_d.Worker.Loop.Runs.{IsModest, run-Good}
use taskcluster_multistage_d.Worker.Loop.Signals.{
  Worker, Input, cancels, happens, Retry, react, run_worker, trace, begin, run_worker-trace,
}
use taskcluster_multistage_d.Worker.Loop.Signals.Drain.{repeat, drain, immediate-lem}

abbrev pub happenings : List Event → List Input
happenings [] = []
happenings (e ∷ es) = happens e ∷ happenings es

-- The context of the command ends, and its end is seen; then `n` tasks end, and `m` slots are collected.
abbrev pub stop_now : ℕ → ℕ → ℕ → List Input
stop_now now n m = cancels ∷ happens ctx_done ∷ happenings (drain now n m)

module _ (gives_up : Retry) (queue : ℕ → ℕ → List TaskClaim) (cfg : Config) where
  trace-slots :
      (m now : ℕ) (w : Worker)
      → trace gives_up queue cfg (happenings (repeat m (slot_returned now))) w
        ≡ repeat m (slot_returned now)
  unfolding trace
  trace-slots zero now w = refl
  trace-slots (suc m) now w =
      ap (λ es. slot_returned now ∷ es)
        (trace-slots m now (react gives_up queue cfg (happens (slot_returned now)) w))

  trace-drain :
      (n m now : ℕ) (w : Worker)
      → trace gives_up queue cfg (happenings (drain now n m)) w ≡ drain now n m
  unfolding trace
  trace-drain zero m now w = trace-slots m now w
  trace-drain (suc n) m now w =
      ap (λ es. task_ends 0 ∷ es)
        (trace-drain n m now (react gives_up queue cfg (happens (task_ends 0)) w))

  trace-stop_now :
      (n m now : ℕ) (w : Worker)
      → trace gives_up queue cfg (stop_now now n m) w ≡ ctx_done ∷ drain now n m
  unfolding trace
  trace-stop_now n m now w = ap (λ es. ctx_done ∷ es) (trace-drain n m now _)

-- If the queue answers with no more tasks than it was asked for, then from every state that the worker can reach
-- with its loop running and still listening for the end of its context, the second signal brings it down:
-- the context is cancelled, the loop sees that, each of the running tasks ends, and once the slots of
-- those and of the tasks that had ended are collected, the loop has returned `ctx.Err()`.
-- It needs no answer of the queue.
pub run_worker-stops_now :
    (gives_up : Retry) (queue : ℕ → ℕ → List TaskClaim)
    → IsModest queue
    → (cfg : Config) (now later : ℕ) (is : List Input)
    → (run_worker gives_up queue cfg is (begin cfg now)).system.status ≡ looping
    → (run_worker gives_up queue cfg is (begin cfg now)).system.loop.ctx_armed ≡ true
    → let w = run_worker gives_up queue cfg is (begin cfg now) in
      let n = length w.system.running in
      (run_worker gives_up queue cfg
        (stop_now later n (n + length w.system.completed))
        w).system.status
      ≡ returned context_error
unfolding start
run_worker-stops_now gives_up queue modest cfg now later is on armed =
    let w = run_worker gives_up queue cfg is (begin cfg now) in
    let n = length w.system.running in
    let m = n + length w.system.completed in
    let good = subst (Good cfg) (sym (run_worker-trace gives_up queue cfg is (begin cfg now))) (
      run-Good queue modest cfg (trace gives_up queue cfg is (begin cfg now)) (begin cfg now).system
        (start-Good cfg now)) in
    ap (λ s. s.status) (run_worker-trace gives_up queue cfg (stop_now later n m) w)
    ∙ ap (λ es. (run queue cfg es w.system).status) (trace-stop_now gives_up queue cfg n m later w)
    ∙ immediate-lem queue cfg modest later w.system good on armed
