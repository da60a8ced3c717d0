-- ===== src/WorkerProto/Examples.antt =====
-- The theorems on internal/workerproto at concrete packets.
use taskcluster_multistage_d.Common.{
  ℕ, suc, arith, ◌≡◌, refl, Bool, true, false, some, none, List, [], ◌∷◌, String, if◌then◌else◌,
  lookup, insert, erase, str_eq, map,
}
use taskcluster_multistage_d.Worker.Claim.{TaskClaim}
use taskcluster_multistage_d.Worker.Loop.{Config, immediate_stop}
use taskcluster_multistage_d.Worker.Loop.System.{start, run, returned, stop_received}
use taskcluster_multistage_d.WorkerProto.Communicator.{
  Codec, Communicator, continues, panics, handle, new_communicator, add_capability, add_handler,
  add_graceful_termination, begin, add_all, text,
}
use taskcluster_multistage_d.WorkerProto.Handshake.{IsFresh}
use taskcluster_multistage_d.WorkerProto.Termination.{
  receive, handle-termination, handle-termination_stops,
}
use taskcluster_multistage_d.WorkerProto.Parser.{Decoder, Handled, accepts, reading, at_end, parse}
use taskcluster_multistage_d.WorkerProto.Parser.RoundTrip.{
  Packet, IsPacket, write_all, deliver, parse-write_all,
}
use taskcluster_multistage_d.WorkerProto.Logger.{Logger}

abbrev codec : Codec
codec = record {
  decode_hello = λ packet. some ("log" ∷ []);
  decode_termination = λ packet. if str_eq packet "{}" then some true else none;
}

-- Every text that begins with a brace is a packet, of a type that the decoder reads whole.
abbrev decode : Decoder
decode bytes = some ("ping", 0)

-- The handler counts.
abbrev count : String → List ℕ → ℕ → Handled ℕ
count packet_type packet n = accepts (suc n)

abbrev ping : Packet
ping = record { packet_type = "ping"; body = b'1' ∷ [] }

parse-write_all_example :
    parse decode count (write_all (ping ∷ ping ∷ [])) none 0
    ≡ at_end decode count none (deliver decode count (ping ∷ ping ∷ []) (reading 0 []))
parse-write_all_example =
    parse-write_all decode count (ping ∷ ping ∷ []) none 0 (ping-IsPacket, (ping-IsPacket, tt))
  where
    ping-IsPacket : IsPacket decode ping
    ping-IsPacket = record {
      named = refl;
      one_line = (refl, tt);
      fits = omega arith;
      decoded = refl;
    }

deliver_run : deliver decode count (ping ∷ ping ∷ []) (reading 0 []) ≡ reading 2 []
deliver_run = refl

-- One end that has added the capability `log`, once `Run` has begun.
abbrev end : Bool → Communicator
unfolding begin add_capability new_communicator
end is_worker = begin (add_capability "log" (new_communicator is_worker))

end-IsFresh : (is_worker : Bool) → IsFresh (end is_worker)
unfolding begin new_communicator add_handler lookup insert erase add_capability
end-IsFresh is_worker = record {
  no_remote = refl;
  is_running = refl;
  welcomes = refl;
  greets = refl;
}

abbrev terminable : Communicator
unfolding add_graceful_termination new_communicator
terminable = add_graceful_termination (new_communicator true)

handle-termination_example :
    (d : Communicator) × (handle codec "graceful-termination" "{}" terminable ≡ continues d)
    × (receive 3 d.stop ≡ some (true ∷ false ∷ false ∷ []))
    × (handle codec "graceful-termination" "{}" d ≡ panics)
unfolding add_graceful_termination new_communicator add_handler lookup insert erase
handle-termination_example = handle-termination codec "{}" "{}" terminable true 2 refl refl refl

abbrev no_tasks : ℕ → ℕ → List TaskClaim
no_tasks i n = []

abbrev one_slot : Config
one_slot = record { concurrent_tasks = 1; shutdown_on_idle_seconds = none }

handle-termination_stops_example :
    (d : Communicator) × (bs : List Bool) × (handle codec "graceful-termination" "{}" terminable
      ≡ continues d)
    × (receive 2 d.stop ≡ some bs)
    × ((run no_tasks one_slot (map stop_received bs) (start one_slot 0)).status
        ≡ returned immediate_stop)
unfolding add_graceful_termination new_communicator add_handler lookup insert erase start
handle-termination_stops_example =
    handle-termination_stops codec "{}" terminable true no_tasks one_slot (start one_slot 0) refl
      refl refl refl

abbrev task_logger : Logger
task_logger = record { name = ""; values = text "taskId" ∷ text "a" ∷ [] }

abbrev greeted_end : Communicator
unfolding begin add_capability new_communicator add_all
greeted_end = record (end true) { remote_capabilities = add_all ("log" ∷ []) [] }
