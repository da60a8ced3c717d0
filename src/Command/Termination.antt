-- ===== src/Command/Termination.antt =====
-- What a worker started with the worker protocol makes of its runner's packets
-- (cmd/multistage-docker-worker/cmd_run.go with internal/workerproto and internal/worker).
use taskcluster_multistage_d.Common.{
  ◌≡◌, refl, ap, ℕ, suc, Bool, true, false, some, List, [], ◌∷◌, String, replicate,
}
use taskcluster_multistage_d.WorkerProto.Communicator.{
  Codec, Set, Communicator, hello, continues, begin, handle, reply_hello, receive_hello, add_all,
  new_communicator, add_remote_shutdown, add_graceful_termination,
}
use taskcluster_multistage_d.WorkerProto.Logger.{add_logger}
use taskcluster_multistage_d.WorkerProto.Termination.{
  receive, stopped, receive-closed, handle-stopped,
}
use taskcluster_multistage_d.Command.{CommandWorld, run_command}

abbrev advertised : List String
advertised = "shutdown" ∷ "graceful-termination" ∷ "error-report" ∷ "log" ∷ []

-- The same, as the keys of the map of local capabilities.
abbrev pub all_local : Set
all_local =
    ("shutdown", tt) ∷ ("graceful-termination", tt) ∷ ("error-report", tt) ∷ ("log", tt) ∷ []

abbrev started : Communicator
started = add_remote_shutdown (add_graceful_termination (add_logger (new_communicator true)).0)

-- The communicator after the runner's welcome.
abbrev welcomed : List String → Communicator
welcomed capabilities = record started {
  running = true;
  remote_capabilities = add_all capabilities [];
  written = hello advertised ∷ [];
  connected = record { local = started.local_capabilities; remote = capabilities } ∷ [];
}

-- Of a worker started with the worker protocol: it answers the runner's welcome with the capabilities
-- that it has, and logs those and the runner's; the first packet of graceful termination after it gives what it
-- says to the main loop, once, and false in every later receive.
pub run_command-termination :
    (w : CommandWorld) (path : String) (codec : Codec) (welcome packet : String)
    (capabilities : List String) (finish_tasks : Bool) (n : ℕ)
    → codec.decode_hello welcome ≡ some capabilities
    → codec.decode_termination packet ≡ some finish_tasks
    → (c d e : Communicator) × ((run_command w
          (record { config = path; with_worker_runner = true })).runner.communicator
        ≡ some c)
      × (handle codec "welcome" welcome (begin c) ≡ continues d)
      × (d.written ≡ hello ("shutdown" ∷ "graceful-termination" ∷ "error-report" ∷ "log" ∷ []) ∷ [])
      × (handle codec "graceful-termination" packet d ≡ continues e)
      × (e.written ≡ d.written)
      × (e.connected ≡ record { local = all_local; remote = capabilities } ∷ [])
      × (receive (suc n) e.stop ≡ some (finish_tasks ∷ replicate n false))
unfolding run_command handle begin add_all
run_command-termination w path codec welcome packet capabilities finish_tasks n decodes terminates =
    let d = welcomed capabilities in
    (
      started,
      d,
      stopped finish_tasks d,
      refl,
      ap (λ o. reply_hello (receive_hello o (begin started))) decodes,
      refl,
      handle-stopped codec packet d finish_tasks refl refl terminates,
      refl,
      refl,
      rw (receive-closed n) refl,
    )
