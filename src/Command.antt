-- ===== src/Command.antt =====
-- cmd/multistage-docker-worker: the command that runs the worker. Reading a file, the YAML decoder,
-- which fills in a configuration, and the Docker client's environment are parameters.
pub mod Termination
pub mod Stdin
pub mod Process
mod Examples
use taskcluster_multistage_d.Common.{
  ℕ, zero, suc, Bool, true, false, Option, none, some, List, [], ◌∷◌, String, str_eq, if◌then◌else◌,
  Chan,
}
use taskcluster_multistage_d.Exception.{Error, plain, wrapped}
use taskcluster_multistage_d.Config.{Config, default_config, parse_env}
use taskcluster_multistage_d.LiveLog.{ListenWorld}
use taskcluster_multistage_d.Worker.Calls.{Result, ok, err}
use taskcluster_multistage_d.Worker.Setup.{Worker, new_worker}
use taskcluster_multistage_d.WorkerProto.Communicator.{
  Communicator, new_communicator, add_graceful_termination, add_remote_shutdown, request_shutdown,
}
use taskcluster_multistage_d.WorkerProto.Logger.{Logger, add_logger}

-- The flags of the command, `Run`.
pub record Flags : Type 0 where
  pub config : String
  pub with_worker_runner : Bool

-- The loggers of the command: the one that it is given, and, in a tee with it, that of the runner.
pub data Sink : Type 0 where
  base : Sink
  remote : Logger → Sink

-- The communicator, if the worker protocol is in use, before `Run` of it; and the loggers.
pub record Runner : Type 0 where
  pub communicator : Option Communicator
  pub sinks : List Sink

unfoldable pub configure_runner : Bool → Runner
unfolding new_communicator add_logger add_graceful_termination add_remote_shutdown
configure_runner false = record { communicator = none; sinks = base ∷ [] }
configure_runner true =
    let (logging, logger) = add_logger (new_communicator true) in
    record {
      communicator = some (add_remote_shutdown (add_graceful_termination logging));
      sinks = base ∷ remote logger ∷ [];
    }

-- `gracefulShutdownCh`, nil without the protocol.
abbrev pub stop_of : Option Communicator → Option (Chan Bool)
stop_of none = none
stop_of (some c) = some c.stop

-- `requestShutdown`: its error, or the packet to the runner.
unfoldable pub shut_down : Option Communicator → Result Communicator
unfolding request_shutdown
shut_down none = err (plain "shutdown requested but not implemented")
shut_down (some c) = ok (request_shutdown c)

pub record CommandWorld : Type 0 where
  pub read_file : String → Result (List ℕ)
  pub unmarshal : List ℕ → Config → Result Config
  pub new_env_client : Option Error
  pub listen_world : ListenWorld

-- An error behind a text.
abbrev pub or_wrapped : {A : Type 0} → String → Result A → Result A
or_wrapped text (ok a) = ok a
or_wrapped text (err e) = err (wrapped text e)

abbrev pub after_read : CommandWorld → Config → Result (List ℕ) → Result Config
after_read w config (err e) = err (wrapped "error reading config file: " e)
after_read w config (ok contents) =
    or_wrapped "error parsing config: " (w.unmarshal contents config)

abbrev pub after_env : CommandWorld → String → Config × Option Error → Result Config
after_env w path (config, some e) = err e
after_env w path (config, none) =
    if str_eq path "" then ok config else after_read w config (w.read_file path)

unfoldable pub load_config : CommandWorld → Flags → Result Config
unfolding parse_env
load_config w flags = after_env w flags.config (parse_env default_config)

-- A worker whose sandboxes are docker-in-docker, of the image named.
abbrev pub after_docker :
    CommandWorld → Option Communicator → Config → Option Error → Result (Worker String)
after_docker w c config (some e) = err e
after_docker w c config none = new_worker w.listen_world config config.dind_image (stop_of c)

abbrev pub after_config :
    CommandWorld → Option Communicator → Result Config → Result (Worker String)
after_config w c (err e) = err e
after_config w c (ok config) = after_docker w c config w.new_env_client

-- `Run` up to the run of the worker.
pub record Started : Type 0 where
  pub runner : Runner
  pub worker : Result (Worker String)

unfoldable pub run_command : CommandWorld → Flags → Started
unfolding configure_runner load_config new_worker
run_command w flags =
    let runner = configure_runner flags.with_worker_runner in
    record { runner = runner; worker = after_config w runner.communicator (load_config w flags) }

-- `main`: a first signal closes the channel of graceful stops, a second cancels the context.
pub record Signalled : Type 0 where
  pub stopping : Bool
  pub cancelled : Bool

unfoldable pub on_signals : ℕ → Signalled
on_signals zero = record { stopping = false; cancelled = false }
on_signals (suc zero) = record { stopping = true; cancelled = false }
on_signals (suc (suc n)) = record { stopping = true; cancelled = true }
