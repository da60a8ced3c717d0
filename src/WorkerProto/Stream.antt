-- ===== src/WorkerProto/Stream.antt =====
-- internal/workerproto/api.go, `Communicator.Run`: the handlers of a communicator on the bytes that its
-- stream carries. The lines that `Parse` logs are in its `Progress`, and the entries that `onHello` writes to the
-- same logger are in the communicator: the order of the ones among the others is left out.
use taskcluster_multistage_d.Common.{ℕ, Option, List, String}
use taskcluster_multistage_d.Exception.{Error}
use taskcluster_multistage_d.WorkerProto.Communicator.{
  Codec, Communicator, Outcome, continues, fails, panics, begin, handle,
}
use taskcluster_multistage_d.WorkerProto.Parser.{
  Decoder, Handled, accepts, refuses, crashes, Progress, parse,
}

-- What a handler's outcome is to `Parse`.
abbrev pub handled : Outcome → Handled Communicator
handled (continues c) = accepts c
handled (fails e c) = refuses e c
handled panics = crashes

-- `c.handle`, on the bytes of a packet as the text that they are.
abbrev pub handle_bytes :
    (List ℕ → String) → Codec → String → List ℕ → Communicator → Handled Communicator
handle_bytes as_text codec packet_type packet c =
    handled (handle codec packet_type (as_text packet) c)

-- `Run`, of a stream that carries `bytes` and ends in an error or in `io.EOF`.
unfoldable pub run_communicator :
    (List ℕ → String)
    → Decoder
    → Codec
    → List ℕ
    → Option Error
    → Communicator
    → Progress Communicator
unfolding parse begin
run_communicator as_text decode codec bytes ends c =
    parse decode (handle_bytes as_text codec) bytes ends (begin c)
