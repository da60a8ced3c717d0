-- ===== src/WorkerProto/Handshake.antt =====
-- Which capabilities the two ends agree on (internal/workerproto/api.go).
use taskcluster_multistage_d.Common.{
  ◌≡◌, refl, ◌⊎◌, inl, inr, Bool, true, false, ◌&&◌, ◌||◌, some, List, [], ◌∷◌, ◌++◌, String, arith,
  lookup, insert, str_eq, lookup-insert,
}
use taskcluster_multistage_d.WorkerProto.Communicator.{
  on_welcome, on_hello, Codec, Set, Communicator, has, has_capability, keys, add_all, continues,
  handle, new_communicator, send_packet, hello, begin, add_handler,
}

abbrev pub mentions : String → List String → Bool
mentions name [] = false
mentions name (c ∷ caps) = str_eq c name || mentions name caps

has-insert : (k name : String) (s : Set) → has name (insert k tt s) ≡ (str_eq k name || has name s)
unfolding lookup
has-insert k name s = ground (arith, lookup-insert k name tt s)

has-add_all :
    (name : String) (caps : List String) (s : Set)
    → has name (add_all caps s) ≡ (mentions name caps || has name s)
unfolding add_all
has-add_all name [] s = refl
has-add_all name (c ∷ caps) s =
    ground (arith, has-add_all name caps (insert c tt s), has-insert c name s)

mentions-keys : (name : String) (s : Set) → mentions name (keys s) ≡ has name s
unfolding lookup
mentions-keys name [] = refl
mentions-keys name ((k, u) ∷ s) = ground (arith, mentions-keys name s)

-- What handling a hello packet makes of the capabilities.
receive_hello-has :
    (caps : List String) (name : String) (c : Communicator)
    → has name (add_all caps c.remote_capabilities)
      ≡ (mentions name caps || has name c.remote_capabilities)
receive_hello-has caps name c = has-add_all name caps c.remote_capabilities

-- Handling a welcome or hello packet that can be decoded adds its capabilities to those of the
-- other end: afterwards a capability is there exactly if it is a local one, and the packet names
-- it or the other end had it before. The handlers stay as they are.
pub handle-has_capability :
    (codec : Codec) (packet_type packet : String) (caps : List String) (c d : Communicator)
    (name : String)
    → (lookup packet_type c.handlers ≡ some on_hello)
      ⊎ (lookup packet_type c.handlers ≡ some on_welcome)
    → codec.decode_hello packet ≡ some caps
    → handle codec packet_type packet c ≡ continues d
    → (has_capability name d
        ≡ (has name c.local_capabilities && (mentions name caps || has name c.remote_capabilities)))
      × (d.handlers ≡ c.handlers)
unfolding handle has_capability
handle-has_capability codec packet_type packet caps c d name (inl t) decoded h =
    ground (arith, receive_hello-has caps name c)
handle-has_capability codec packet_type packet caps c d name (inr t) decoded h =
    ground (arith, receive_hello-has caps name c)

-- One end as it is when `Run` has begun: it knows nothing of the other end.
pub record IsFresh (c : Communicator) : Type 0 where
  pub no_remote : c.remote_capabilities ≡ []
  pub is_running : c.running ≡ true
  pub welcomes : lookup "welcome" c.handlers ≡ some on_welcome
  pub greets : lookup "hello" c.handlers ≡ some on_hello

abbrev pub greeted : List String → Communicator → Communicator
greeted caps c = record c {
  remote_capabilities = add_all caps c.remote_capabilities;
  connected = c.connected ++ record { local = c.local_capabilities; remote = caps } ∷ [];
}

handle-welcome :
    (codec : Codec) (packet : String) (caps : List String) (c : Communicator)
    → IsFresh c
    → codec.decode_hello packet ≡ some caps
    → handle codec "welcome" packet c
      ≡ continues (record (greeted caps c) {
        written = c.written ++ hello (keys c.local_capabilities) ∷ [];
      })
unfolding handle send_packet
handle-welcome codec packet caps c fresh decoded =
    rw (fresh.welcomes, decoded, fresh.is_running) refl

handle-hello :
    (codec : Codec) (packet : String) (caps : List String) (c : Communicator)
    → IsFresh c
    → codec.decode_hello packet ≡ some caps
    → handle codec "hello" packet c ≡ continues (greeted caps c)
unfolding handle
handle-hello codec packet caps c fresh decoded = rw (fresh.greets, decoded) refl

greeted-has_capability :
    (c : Communicator) (s : Set) (name : String)
    → IsFresh c
    → has_capability name (greeted (keys s) c) ≡ (has name c.local_capabilities && has name s)
unfolding has_capability lookup
greeted-has_capability c s name fresh =
    ground (
      arith,
      fresh.no_remote,
      has-add_all name (keys s) c.remote_capabilities,
      mentions-keys name s,
    )

-- Between two ends that have just begun, with packets that are decoded to the capabilities of
-- their senders, the worker handles the runner's welcome and answers by a hello with its own
-- capabilities, and the runner handles that. Then the two ends agree on each capability: it is
-- there exactly if both of them added it.
pub handle-handshake :
    (codec : Codec) (packet reply : String) (worker runner : Communicator) (name : String)
    → IsFresh worker
    → IsFresh runner
    → codec.decode_hello packet ≡ some (keys runner.local_capabilities)
    → codec.decode_hello reply ≡ some (keys worker.local_capabilities)
    → (w : Communicator) × (r : Communicator) × (handle codec "welcome" packet worker ≡ continues w)
      × (handle codec "hello" reply runner ≡ continues r)
      × (w.written ≡ worker.written ++ hello (keys worker.local_capabilities) ∷ [])
      × (has_capability name w
          ≡ (has name worker.local_capabilities && has name runner.local_capabilities))
      × (has_capability name r
          ≡ (has name runner.local_capabilities && has name worker.local_capabilities))
unfolding has_capability
handle-handshake codec packet reply worker runner name fresh_worker fresh_runner there back = (
  _,
  _,
  handle-welcome codec packet (keys runner.local_capabilities) worker fresh_worker there,
  handle-hello codec reply (keys worker.local_capabilities) runner fresh_runner back,
  refl,
  greeted-has_capability worker runner.local_capabilities name fresh_worker,
  greeted-has_capability runner worker.local_capabilities name fresh_runner,
)

-- A communicator that `NewCommunicator` made is fresh once `Run` has begun.
pub begin-IsFresh : (is_worker : Bool) → IsFresh (begin (new_communicator is_worker))
unfolding begin new_communicator add_handler lookup insert
begin-IsFresh is_worker = record {
  no_remote = refl;
  is_running = refl;
  welcomes = refl;
  greets = refl;
}
