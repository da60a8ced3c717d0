-- ===== src/Command/Process/Ends.antt =====
-- The exit status of the process (cmd/multistage-docker-worker) and the tasks of its worker.
use taskcluster_multistage_d.Common.{
  ℕ, ◌≡◌, ◌≢◌, refl, sym, subst, Bool, Option, none, some, List, length, inl, inr, String,
}
use taskcluster_multistage_d.Exception.{Error}
use taskcluster_multistage_d.Worker.Calls.{Result, ok, err}
use taskcluster_multistage_d.Worker.Claim.{TaskClaim}
use taskcluster_multistage_d.Worker.Loop.{
  Exit, context_error, immediate_stop, nothing, shutdown_result, Config,
}
use taskcluster_multistage_d.Worker.Loop.System.{Status, looping, returned, panicked, stuck}
use taskcluster_multistage_d.Worker.Loop.Runs.{IsModest}
use taskcluster_multistage_d.Worker.Loop.Safety.{run-returned}
use taskcluster_multistage_d.Worker.Loop.Signals.{
  Worker, Input, Retry, run_worker, trace, begin, run_worker-trace,
}
use taskcluster_multistage_d.Worker.Setup.{Worker as Prepared}
use taskcluster_multistage_d.WorkerProto.Communicator.{Communicator}
use taskcluster_multistage_d.Command.{Flags, Started, run_command}
use taskcluster_multistage_d.Command.Process.{
  MainWorld, exited, loop_config, run_error, after_status, after_start, after_parse, after_log,
  run_main,
}

-- The status of a loop whose process has exited with 0.
returned_zero :
    (c : Option Communicator) (cancelled : Bool) (status : Status)
    → after_status c cancelled status ≡ exited 0
    → (e : Exit) × (status ≡ returned e) × (e ≢ immediate_stop)
unfolding run_error
returned_zero c cancelled looping h = absurd (cc)
returned_zero c cancelled panicked h = absurd (cc)
returned_zero c cancelled stuck h = absurd (cc)
returned_zero c cancelled (returned context_error) h = (context_error, refl, λ x. cc)
returned_zero c cancelled (returned immediate_stop) h = absurd (cc)
returned_zero c cancelled (returned nothing) h = (nothing, refl, λ x. cc)
returned_zero c cancelled (returned shutdown_result) h = (shutdown_result, refl, λ x. cc)

-- What holds of the worker when the loop has returned without being told to stop at once.
abbrev pub Idle : Worker → Type 0
Idle v =
    (e : Exit) × (v.system.status ≡ returned e)
    × (e ≢ immediate_stop)
    × (length v.system.running ≡ 0)
    × (length v.system.completed ≡ 0)

-- A worker was prepared, and it is idle.
abbrev pub Finished :
    Retry → (ℕ → ℕ → List TaskClaim) → MainWorld → ℕ → List Input → Option Flags → Type 0
Finished gives_up queue m now is parsed =
    (flags : Flags) × (w : Prepared String) × (parsed ≡ some flags)
    × ((run_command m.command_world flags).worker ≡ ok w)
    × Idle (run_worker gives_up queue (loop_config w) is (begin (loop_config w) now))

module _ (gives_up : Retry) (queue : ℕ → ℕ → List TaskClaim) (modest : IsModest queue) where
  run_worker-Idle :
      (cfg : Config) (now : ℕ) (is : List Input) (c : Option Communicator)
      → (let v = run_worker gives_up queue cfg is (begin cfg now) in
          after_status c v.cancelled v.system.status ≡ exited 0)
      → Idle (run_worker gives_up queue cfg is (begin cfg now))
  run_worker-Idle cfg now is c h =
      let v = run_worker gives_up queue cfg is (begin cfg now) in
      let (e, back, told) = returned_zero c v.cancelled v.system.status h in
      let same = run_worker-trace gives_up queue cfg is (begin cfg now) in
      elim (run-returned queue modest cfg now (trace gives_up queue cfg is (begin cfg now)) e
        (subst (λ s. s.status ≡ returned e) same back)) [
          | inl stop ↦ absurd (told stop)
          | inr (none_running, none_completed) ↦ (
            e,
            back,
            told,
            subst (λ s. length s.running ≡ 0) (sym same) none_running,
            subst (λ s. length s.completed ≡ 0) (sym same) none_completed,
          )
        ]

  after_start-Idle :
      (now : ℕ) (is : List Input) (s : Started) (r : Result (Prepared String))
      → after_start gives_up queue now is s r ≡ exited 0
      → (w : Prepared String) × (r ≡ ok w)
        × Idle (run_worker gives_up queue (loop_config w) is (begin (loop_config w) now))
  after_start-Idle now is s (err e) h = absurd (cc)
  after_start-Idle now is s (ok w) h =
      (w, refl, run_worker-Idle (loop_config w) now is s.runner.communicator h)

  after_parse-Finished :
      (m : MainWorld) (now : ℕ) (is : List Input) (parsed : Option Flags)
      → after_parse gives_up queue m now is parsed ≡ exited 0
      → Finished gives_up queue m now is parsed
  after_parse-Finished m now is none h = absurd (cc)
  after_parse-Finished m now is (some flags) h =
      let s = run_command m.command_world flags in
      let (w, e, idle) = after_start-Idle now is s s.worker h in (flags, w, refl, e, idle)

-- If the queue answers with no more tasks than it was asked for, then the process exits with status 0 only
-- from a worker that was prepared and whose loop has returned, not told to stop at once, with no task
-- running and none to be collected: over every sequence of signals, packets of the runner, answers of the
-- queue and ends of tasks, no task is cut off by an end of the process that reports success.
pub run_main-exit_zero :
    (gives_up : Retry) (queue : ℕ → ℕ → List TaskClaim)
    → IsModest queue
    → (m : MainWorld) (now : ℕ) (is : List Input) → run_main gives_up queue m now is ≡ exited 0
    → Finished gives_up queue m now is m.parse
unfolding run_main
run_main-exit_zero gives_up queue modest m now is h = go m.new_production h
  where
    go :
        (o : Option Error)
        → after_log gives_up queue m now is o ≡ exited 0
        → Finished gives_up queue m now is m.parse
    go none e = after_parse-Finished gives_up queue modest m now is m.parse e
    go (some x) e = absurd (cc)
