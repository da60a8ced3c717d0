-- ===== src/Command/Stdin.antt =====
-- What a worker started with the worker protocol makes of the bytes of its standard input
-- (cmd/multistage-docker-worker/cmd_run.go with internal/workerproto).
use taskcluster_multistage_d.Common.{
  ℕ, suc, ◌≡◌, ap, ◌∙◌, Bool, true, false, none, some, List, [], ◌∷◌, String, replicate,
}
use taskcluster_multistage_d.WorkerProto.Communicator.{Codec, Communicator, hello, begin}
use taskcluster_multistage_d.WorkerProto.Parser.{Decoder, reading, accepts, after_handler, at_end}
use taskcluster_multistage_d.WorkerProto.Parser.RoundTrip.{
  Packet, AllPackets, text_of, write_all, deliver, parse-write_all,
}
use taskcluster_multistage_d.WorkerProto.Stream.{handled, handle_bytes, run_communicator}
use taskcluster_multistage_d.WorkerProto.Termination.{receive}
use taskcluster_multistage_d.Command.{CommandWorld, run_command}
use taskcluster_multistage_d.Command.Termination.{all_local, run_command-termination}

-- Where the standard input of a worker started with the worker protocol carries, as `Write` writes them, a
-- welcome and then a graceful termination, packets that the decoder reads whole and that fit the reader's
-- buffer, `Communicator.Run` reads both without an error; `Parse` logs no line, and `onHello` writes one
-- entry, with the four capabilities that the worker has and those that the welcome names; the runner is
-- answered with the worker's four; and the main loop receives what the second packet says, once, and false ever
-- after.
pub run_command-stdin :
    (w : CommandWorld) (path : String) (as_text : List ℕ → String) (decode : Decoder)
    (codec : Codec) (welcome packet : Packet) (capabilities : List String) (finish_tasks : Bool)
    (n : ℕ)
    → AllPackets decode (welcome ∷ packet ∷ [])
    → welcome.packet_type ≡ "welcome"
    → packet.packet_type ≡ "graceful-termination"
    → codec.decode_hello (as_text (text_of welcome)) ≡ some capabilities
    → codec.decode_termination (as_text (text_of packet)) ≡ some finish_tasks
    → (c d : Communicator) × ((run_command w
          (record { config = path; with_worker_runner = true })).runner.communicator
        ≡ some c)
      × (run_communicator as_text decode codec (write_all (welcome ∷ packet ∷ [])) none c
          ≡ reading d [])
      × (d.written ≡ hello ("shutdown" ∷ "graceful-termination" ∷ "error-report" ∷ "log" ∷ []) ∷ [])
      × (d.connected ≡ record { local = all_local; remote = capabilities } ∷ [])
      × (receive (suc n) d.stop ≡ some (finish_tasks ∷ replicate n false))
unfolding run_communicator
run_command-stdin w path as_text decode codec welcome packet capabilities finish_tasks n valid e f
      decodes terminates =
    let (c, d, d', is_c, welcomed, answered, ended, same, logged, received) =
      run_command-termination w path codec (as_text (text_of welcome)) (as_text (text_of packet))
        capabilities finish_tasks n decodes terminates in
    let handler = handle_bytes as_text codec in
    let first : handler welcome.packet_type (text_of welcome) (begin c) ≡ accepts d =
      ap (λ t. handler t (text_of welcome) (begin c)) e ∙ ap handled welcomed in
    let second : handler packet.packet_type (text_of packet) d ≡ accepts d' =
      ap (λ t. handler t (text_of packet) d) f ∙ ap handled ended in
    let read =
      parse-write_all decode handler (welcome ∷ packet ∷ []) none (begin c) valid
      ∙ ap
          (λ h.
            at_end decode handler none
              (deliver decode handler (packet ∷ []) (after_handler decode handler [] [] h)))
          first
      ∙ ap (λ h. at_end decode handler none (after_handler decode handler [] [] h)) second in
    (c, d', is_c, read, same ∙ answered, logged, received)
