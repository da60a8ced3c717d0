-- ===== src/WorkerProto/Communicator.antt =====
-- internal/workerproto/api.go and internal/workerproto/shutdown.go: one end of the stream, with its
-- capabilities and handlers. A packet is a text, which a `Codec` reads and writes in place of
-- encoding/json. The stream takes every write. Go gives the keys of a map in any order; here it is
-- that of the entries.
use Prim.Native.String.{◌++◌ as append}
use taskcluster_multistage_d.Common.{
  Bool, true, false, ◌&&◌, Option, some, none, List, [], ◌∷◌, ◌++◌, String, if◌then◌else◌, lookup,
  insert, Chan, make_chan, send, close_chan,
}
use taskcluster_multistage_d.Exception.{Error, plain}

-- The handlers that the package adds: `onWelcome`, `onHello`, and that of graceful termination.
pub data Handler : Type 0 where
  on_welcome on_hello on_termination : Handler

-- An `interface{}` of a log call: a text, or anything else by what `%v` prints of it.
pub data Value : Type 0 where
  text printed : String → Value

pub data Packet : Type 0 where
  welcome hello : List String → Packet
  shutdown : Packet
  logs : List (String × Value) → Packet

-- `json.Unmarshal` into a `helloPacket` (its capabilities) and a `gracefulTerminationPacket`.
pub record Codec : Type 0 where
  pub decode_hello : String → Option (List String)
  pub decode_termination : String → Option Bool

abbrev pub Set : Type 0
Set = List (String × Unit {0})

-- What `onHello` logs: "Connected workerproto", with the local capabilities and those of the packet.
pub record Connected : Type 0 where
  pub local : Set
  pub remote : List String

-- Before `Run`, what is sent goes to a buffer. `stop` is the channel of graceful termination. `connected` has the
-- entries that `onHello` has written to the logger of `Run`.
pub record Communicator : Type 0 where
  pub local_capabilities : Set
  pub remote_capabilities : Set
  pub handlers : List (String × Handler)
  pub is_worker : Bool
  pub running : Bool
  pub buffered : List Packet
  pub written : List Packet
  pub stop : Chan Bool
  pub connected : List Connected

unfoldable pub add_handler : String → Handler → Communicator → Communicator
unfolding insert
add_handler packet_type h c = record c { handlers = insert packet_type h c.handlers }

unfoldable pub add_capability : String → Communicator → Communicator
unfolding insert
add_capability name c = record c { local_capabilities = insert name tt c.local_capabilities }

unfoldable pub new_communicator : Bool → Communicator
unfolding add_handler
new_communicator is_worker = add_handler "hello" on_hello (
    add_handler "welcome" on_welcome (record {
      local_capabilities = [];
      remote_capabilities = [];
      handlers = [];
      is_worker = is_worker;
      running = false;
      buffered = [];
      written = [];
      stop = make_chan;
      connected = [];
    }))

abbrev pub has : String → Set → Bool
unfolding lookup
has name s = elim (lookup name s) [ none ↦ false | some u ↦ true ]

unfoldable pub has_capability : String → Communicator → Bool
has_capability name c = has name c.local_capabilities && has name c.remote_capabilities

unfoldable pub send_packet : Packet → Communicator → Communicator
send_packet p c =
    if c.running
    then record c { written = c.written ++ p ∷ [] }
    else record c { buffered = c.buffered ++ p ∷ [] }

abbrev pub keys : Set → List String
keys [] = []
keys ((k, u) ∷ s) = k ∷ keys s

-- `Run` up to the call of `Parse`: the runner's welcome goes out before what was sent early.
unfoldable pub begin : Communicator → Communicator
begin c =
    let first = if c.is_worker then [] else welcome (keys c.local_capabilities) ∷ [] in
    record c { running = true; written = c.written ++ first ++ c.buffered; buffered = [] }

unfoldable pub add_all : List String → Set → Set
unfolding insert
add_all [] s = s
add_all (name ∷ caps) s = add_all caps (insert name tt s)

-- What handling a packet comes to. `panics`: a send on a closed channel, or a second close.
pub data Outcome : Type 0 where
  continues : Communicator → Outcome
  fails : Error → Communicator → Outcome
  panics : Outcome

abbrev pub bad_json : Error
bad_json = plain "json"

abbrev pub receive_hello : Option (List String) → Communicator → Outcome
receive_hello none c = fails bad_json c
receive_hello (some caps) c = continues (record c {
  remote_capabilities = add_all caps c.remote_capabilities;
  connected = c.connected ++ record { local = c.local_capabilities; remote = caps } ∷ [];
})

abbrev pub reply_hello : Outcome → Outcome
unfolding send_packet
reply_hello (continues c) = continues (send_packet (hello (keys c.local_capabilities)) c)
reply_hello o = o

-- The deferred `close(ch)`.
abbrev pub close_stop : Option Error → Communicator → Outcome
close_stop e c = elim (close_chan c.stop) [
  | none ↦ panics
  | some ch ↦ elim e [
    | none ↦ continues (record c { stop = ch })
    | some x ↦ fails x (record c { stop = ch })
  ]
]

abbrev pub terminate : Option Bool → Communicator → Outcome
terminate none c = close_stop (some bad_json) c
terminate (some finish_tasks) c = elim (send finish_tasks c.stop) [
  | none ↦ panics
  | some ch ↦ close_stop none (record c { stop = ch })
]

abbrev pub run_handler : Codec → String → Communicator → Option Handler → Outcome
run_handler codec packet c none = fails (plain (append "unexpected packet received: " packet)) c
run_handler codec packet c (some on_hello) = receive_hello (codec.decode_hello packet) c
run_handler codec packet c (some on_welcome) =
    reply_hello (receive_hello (codec.decode_hello packet) c)
run_handler codec packet c (some on_termination) = terminate (codec.decode_termination packet) c

unfoldable pub handle : Codec → String → String → Communicator → Outcome
unfolding lookup send_packet add_all
handle codec packet_type packet c = run_handler codec packet c (lookup packet_type c.handlers)

-- `AddRemoteShutdown`, and the function that it returns.
unfoldable pub add_remote_shutdown : Communicator → Communicator
unfolding add_capability
add_remote_shutdown c = add_capability "shutdown" c

unfoldable pub request_shutdown : Communicator → Communicator
unfolding send_packet
request_shutdown c = send_packet shutdown c

-- `AddGracefulTermination`: it makes the channel, of capacity 1.
unfoldable pub add_graceful_termination : Communicator → Communicator
unfolding add_capability add_handler
add_graceful_termination c =
    add_handler "graceful-termination" on_termination
      (add_capability "graceful-termination" (record c { stop = make_chan }))
