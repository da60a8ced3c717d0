-- ===== src/Command/Examples.antt =====
-- The theorems on the process (cmd/multistage-docker-worker) at concrete inputs.
use taskcluster_multistage_d.Common.{
  ℕ, zero, suc, ◌≡◌, refl, true, false, ◌||◌, some, none, List, [], ◌∷◌, arith, ◌==◌, if◌then◌else◌,
}
use taskcluster_multistage_d.Exception.{plain}
use taskcluster_multistage_d.LiveLog.{ListenWorld}
use taskcluster_multistage_d.Worker.Calls.{ok, err}
use taskcluster_multistage_d.Worker.Claim.{TaskClaim}
use taskcluster_multistage_d.Worker.Loop.{on_response, on_completed, on_stop}
use taskcluster_multistage_d.Worker.Loop.System.{
  queue_answers, response_received, task_ends, slot_returned, stop_received, start, run, step,
}
use taskcluster_multistage_d.Worker.Loop.Runs.{IsModest}
use taskcluster_multistage_d.Worker.Loop.Signals.{Input, happens, Retry, run_worker}
use taskcluster_multistage_d.WorkerProto.Communicator.{Codec, Communicator, hello}
use taskcluster_multistage_d.WorkerProto.Parser.{Decoder, reading}
use taskcluster_multistage_d.WorkerProto.Parser.RoundTrip.{Packet, IsPacket, write_all}
use taskcluster_multistage_d.WorkerProto.Stream.{run_communicator}
use taskcluster_multistage_d.WorkerProto.Termination.{receive}
use taskcluster_multistage_d.Command.{CommandWorld, run_command}
use taskcluster_multistage_d.Command.Termination.{all_local}
use taskcluster_multistage_d.Command.Stdin.{run_command-stdin}
use taskcluster_multistage_d.Command.Process.{MainWorld, run_error, run_main}
use taskcluster_multistage_d.Command.Process.Ends.{Finished, run_main-exit_zero}

abbrev listen_world : ListenWorld
listen_world = record {
  websocktunnel_token = λ credentials root audience id. ok "token";
  new_client = λ config. ok "https://tunnel/w.1";
  listen = λ address. none;
}

abbrev world : CommandWorld
world = record {
  read_file = λ path. err (plain "not found");
  unmarshal = λ contents config. ok config;
  new_env_client = none;
  listen_world = listen_world;
}

abbrev codec : Codec
codec = record {
  decode_hello = λ packet. some ("log" ∷ []);
  decode_termination = λ packet. some true;
}

-- The texts "{w}" and "{t}".
abbrev welcome_packet : Packet
welcome_packet = record { packet_type = "welcome"; body = b'w' ∷ [] }

abbrev termination_packet : Packet
termination_packet = record { packet_type = "graceful-termination"; body = b't' ∷ [] }

abbrev decode : Decoder
decode [] = none
decode (a ∷ []) = none
decode (a ∷ b ∷ bytes) = if b == b'w' then some ("welcome", 0) else some ("graceful-termination", 0)

welcome_packet-IsPacket : IsPacket decode welcome_packet
welcome_packet-IsPacket = record {
  named = refl;
  one_line = (refl, tt);
  fits = omega arith;
  decoded = refl;
}

termination_packet-IsPacket : IsPacket decode termination_packet
termination_packet-IsPacket = record {
  named = refl;
  one_line = (refl, tt);
  fits = omega arith;
  decoded = refl;
}

run_command-stdin_example :
    (c d : Communicator) × ((run_command world
        (record { config = ""; with_worker_runner = true })).runner.communicator
      ≡ some c)
    × (run_communicator
          (λ bytes. "{}")
          decode
          codec
          (write_all (welcome_packet ∷ termination_packet ∷ []))
          none
          c
        ≡ reading d [])
    × (d.written ≡ hello ("shutdown" ∷ "graceful-termination" ∷ "error-report" ∷ "log" ∷ []) ∷ [])
    × (d.connected ≡ record { local = all_local; remote = "log" ∷ [] } ∷ [])
    × (receive 3 d.stop ≡ some (true ∷ false ∷ false ∷ []))
run_command-stdin_example =
    run_command-stdin world "" (λ bytes. "{}") decode codec welcome_packet termination_packet
      ("log" ∷ []) true 2 (welcome_packet-IsPacket, (termination_packet-IsPacket, tt)) refl refl
      refl refl

abbrev claim : TaskClaim
claim = record {
  task_id = "task";
  task_group_id = "group";
  run_id = 0;
  credentials = record { client_id = "worker"; access_token = "token"; certificate = "" };
  expires = 900;
  taken_until = 20;
}

abbrev one_task : ℕ → ℕ → List TaskClaim
one_task i zero = []
one_task i (suc n) = claim ∷ []

one_task-IsModest : IsModest one_task
one_task-IsModest i zero = omega arith
one_task-IsModest i (suc n) = omega arith

abbrev retry : Retry
retry done permanent = done || permanent

abbrev main_world : MainWorld
main_world = record {
  new_production = none;
  parse = some (record { config = ""; with_worker_runner = true });
  command_world = world;
}

-- A task is claimed and runs; the runner asks for a graceful stop; the task ends.
abbrev inputs : List Input
inputs =
    happens (queue_answers 0)
    ∷ happens (response_received 1)
    ∷ happens (stop_received true)
    ∷ happens (task_ends 0)
    ∷ happens (slot_returned 9)
    ∷ []

run_main-exit_zero_example : Finished retry one_task main_world 0 inputs main_world.parse
unfolding run_main run_command run_worker start run step on_response on_completed on_stop run_error
run_main-exit_zero_example =
    run_main-exit_zero retry one_task one_task-IsModest main_world 0 inputs refl
