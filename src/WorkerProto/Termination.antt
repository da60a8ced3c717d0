-- ===== src/WorkerProto/Termination.antt =====
-- Graceful termination (internal/workerproto/shutdown.go), and what the main loop of
-- internal/worker/worker.go makes of it.
use taskcluster_multistage_d.Common.{
  ℕ, zero, suc, make_chan, map, replicate, ◌≡◌, refl, Bool, true, false, Option, some, none, List,
  [], ◌∷◌, String, arith, lookup, recv, Chan,
}
use taskcluster_multistage_d.WorkerProto.Communicator.{
  Codec, Communicator, on_termination, continues, fails, panics, terminate, handle, bad_json,
}
use taskcluster_multistage_d.Worker.Claim.{TaskClaim}
use taskcluster_multistage_d.Worker.Loop.{Config, on_stop, immediate_stop}
use taskcluster_multistage_d.Worker.Loop.System.{
  System, looping, returned, stop_received, run, step,
}

-- What `n` receives from a channel give, where none of them blocks; `none` if one does.
abbrev pub receive : ℕ → Chan Bool → Option (List Bool)
receive zero c = some []
receive (suc n) c = elim (recv false c) [
  | none ↦ none
  | some (b, d) ↦ elim (receive n d) [ none ↦ none | some bs ↦ some (b ∷ bs) ]
]

abbrev pub stopped : Bool → Communicator → Communicator
stopped finish_tasks c = record c { stop = record { queue = finish_tasks ∷ []; is_closed = true } }

pub receive-closed :
    (n : ℕ) → receive n (record { queue = []; is_closed = true }) ≡ some (replicate n false)
receive-closed zero = refl
receive-closed (suc n) = rw (receive-closed n) refl

pub handle-stopped :
    (codec : Codec) (packet : String) (c : Communicator) (finish_tasks : Bool)
    → lookup "graceful-termination" c.handlers ≡ some on_termination
    → c.stop ≡ make_chan
    → codec.decode_termination packet ≡ some finish_tasks
    → handle codec "graceful-termination" packet c ≡ continues (stopped finish_tasks c)
unfolding handle
handle-stopped codec packet c finish_tasks added fresh decoded = rw (added, decoded, fresh) refl

-- A packet of graceful termination, the first one, is handled: then the channel gives what it says
-- once, and false in every later receive. A second packet, whatever it holds, makes the handler
-- panic.
pub handle-termination :
    (codec : Codec) (packet second : String) (c : Communicator) (finish_tasks : Bool) (n : ℕ)
    → lookup "graceful-termination" c.handlers ≡ some on_termination
    → c.stop ≡ make_chan
    → codec.decode_termination packet ≡ some finish_tasks
    → (d : Communicator) × (handle codec "graceful-termination" packet c ≡ continues d)
      × (receive (suc n) d.stop ≡ some (finish_tasks ∷ replicate n false))
      × (handle codec "graceful-termination" second d ≡ panics)
unfolding handle
handle-termination codec packet second c finish_tasks n added fresh decoded = (
  stopped finish_tasks c,
  handle-stopped codec packet c finish_tasks added fresh decoded,
  rw (receive-closed n) refl,
  rw added (again (codec.decode_termination second)),
)
  where
    again : (o : Option Bool) → terminate o (stopped finish_tasks c) ≡ panics
    again none = refl
    again (some b) = refl

-- Where the first packet of graceful termination cannot be decoded, handling it fails, and the
-- channel gives false in every receive from then on.
pub handle-bad_termination :
    (codec : Codec) (packet : String) (c : Communicator) (n : ℕ)
    → lookup "graceful-termination" c.handlers ≡ some on_termination
    → c.stop ≡ make_chan
    → codec.decode_termination packet ≡ none
    → (d : Communicator) × (handle codec "graceful-termination" packet c ≡ fails bad_json d)
      × (receive n d.stop ≡ some (replicate n false))
unfolding handle
handle-bad_termination codec packet c n added fresh undecoded = (
  record c { stop = record { queue = []; is_closed = true } },
  rw (added, undecoded, fresh) refl,
  receive-closed n,
)

run-stops :
    (queue : ℕ → ℕ → List TaskClaim) (cfg : Config) (s : System) (finish_tasks : Bool)
    → s.status ≡ looping
    → (run queue cfg (stop_received finish_tasks ∷ stop_received false ∷ []) s).status
      ≡ returned immediate_stop
unfolding run step on_stop
run-stops queue cfg s finish_tasks on = ground arith

-- A graceful termination does not last: after the first packet, even one that lets the tasks finish,
-- two receives from the channel never block, and when the main loop has made them, it has returned
-- with the error of an immediate stop, whatever tasks run.
pub handle-termination_stops :
    (codec : Codec) (packet : String) (c : Communicator) (finish_tasks : Bool)
    (queue : ℕ → ℕ → List TaskClaim) (cfg : Config) (s : System)
    → lookup "graceful-termination" c.handlers ≡ some on_termination
    → c.stop ≡ make_chan
    → codec.decode_termination packet ≡ some finish_tasks
    → s.status ≡ looping
    → (d : Communicator) × (bs : List Bool) × (handle codec "graceful-termination" packet c
        ≡ continues d)
      × (receive 2 d.stop ≡ some bs)
      × ((run queue cfg (map stop_received bs) s).status ≡ returned immediate_stop)
handle-termination_stops codec packet c finish_tasks queue cfg s added fresh decoded on = (
  stopped finish_tasks c,
  finish_tasks ∷ false ∷ [],
  handle-stopped codec packet c finish_tasks added fresh decoded,
  refl,
  run-stops queue cfg s finish_tasks on,
)
