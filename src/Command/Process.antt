-- ===== src/Command/Process.antt =====
-- cmd/multistage-docker-worker: the process, from `main` to its exit status, with the run of the
-- worker (internal/worker/worker.go). The logger of zap and the parsing of the command line are parameters.
pub mod Ends
use taskcluster_multistage_d.Common.{
  ℕ, Bool, Option, none, some, List, [], ◌∷◌, String, if◌then◌else◌,
}
use taskcluster_multistage_d.Exception.{Error, plain}
use taskcluster_multistage_d.Worker.Calls.{Result, ok, err}
use taskcluster_multistage_d.Worker.Claim.{TaskClaim}
use taskcluster_multistage_d.Worker.Loop.{
  Config, Exit, context_error, immediate_stop, nothing, shutdown_result,
}
use taskcluster_multistage_d.Worker.Loop.System.{Status, looping, returned, panicked, stuck}
use taskcluster_multistage_d.Worker.Loop.Signals.{Worker, Input, Retry, run_worker, begin}
use taskcluster_multistage_d.Worker.Setup.{Worker as Prepared}
use taskcluster_multistage_d.WorkerProto.Communicator.{Communicator}
use taskcluster_multistage_d.Command.{CommandWorld, Flags, Runner, Started, run_command, shut_down}

-- `zap.NewProduction`, and `kong.Parse`, which ends the process on its own (`none`) if it
-- cannot use the command line.
pub record MainWorld : Type 0 where
  pub new_production : Option Error
  pub parse : Option Flags
  pub command_world : CommandWorld

-- How far the process is. `usage`: kong ended it. `crashed`: a panic, of `main` or of the loop.
pub data Process : Type 0 where
  serving : Process
  blocked : Process
  usage : Process
  crashed : Process
  exited : ℕ → Process

-- The fields that the main loop reads.
abbrev pub loop_config : Prepared String → Config
loop_config w = record {
  concurrent_tasks = w.config.concurrent_tasks;
  shutdown_on_idle_seconds = w.config.shutdown_on_idle_seconds;
}

abbrev pub error_of {ℓ} : {A : Type ℓ} → Result A → Option Error
error_of (ok a) = none
error_of (err e) = some e

-- The error of `Worker.Run`: `ctx.Err()` is nil unless the context of the command was cancelled.
unfoldable pub run_error : Option Communicator → Bool → Exit → Option Error
run_error c cancelled context_error = if cancelled then some (plain "context canceled") else none
run_error c cancelled immediate_stop = some (plain "immediate graceful shutdown")
run_error c cancelled nothing = none
run_error c cancelled shutdown_result = error_of (shut_down c)

-- `os.Exit(1)` after an error.
abbrev pub exit_status : Option Error → Process
exit_status none = exited 0
exit_status (some e) = exited 1

abbrev pub after_status : Option Communicator → Bool → Status → Process
after_status c cancelled looping = serving
after_status c cancelled stuck = blocked
after_status c cancelled panicked = crashed
after_status c cancelled (returned e) = exit_status (run_error c cancelled e)

-- Signals and what else happens to the worker are its inputs.
abbrev pub after_run : Option Communicator → Worker → Process
after_run c w = after_status c w.cancelled w.system.status

module _ (gives_up : Retry) (queue : ℕ → ℕ → List TaskClaim) where
  abbrev pub after_start : ℕ → List Input → Started → Result (Prepared String) → Process
  after_start now is s (err e) = exit_status (some e)
  after_start now is s (ok w) =
      after_run s.runner.communicator
        (run_worker gives_up queue (loop_config w) is (begin (loop_config w) now))

  abbrev pub after_parse : MainWorld → ℕ → List Input → Option Flags → Process
  after_parse m now is none = usage
  after_parse m now is (some flags) =
      let s = run_command m.command_world flags in after_start now is s s.worker

  abbrev pub after_log : MainWorld → ℕ → List Input → Option Error → Process
  after_log m now is (some e) = crashed
  after_log m now is none = after_parse m now is m.parse

  -- `main`, once the inputs have come.
  unfoldable pub run_main : MainWorld → ℕ → List Input → Process
  run_main m now is = after_log m now is m.new_production
