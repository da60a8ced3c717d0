-- ===== src/PubSub/Session.antt =====
-- Any number of subscribers of one buffer of internal/pubsubbuffer/pubsubbuffer.go, interleaved
-- with writers: a system of the buffer and a session for each subscriber, and a step for each
-- action that some goroutine takes under the lock. A schedule is the list of these actions.
mod Invariant
pub mod Delivery
pub mod Liveness
use taskcluster_multistage_d.Common.{
  ℕ, Bool, true, false, not, ◌&&◌, ◌||◌, Option, none, some, List, [], ◌∷◌, ◌++◌, ◌==◌,
  if◌then◌else◌,
}
use taskcluster_multistage_d.PubSub.Buffer.{
  Buffer, Reader, ReadError, ReadResult, got, failed, waits, new_buffer, broadcast, close, write,
  subscribe, read,
}

-- `notified`: the goroutine that `Subscribe` starts has seen the context end and has broadcast.
pub record Session : Type 0 where
  pub reader : Reader
  pub delivered : List ℕ
  pub cancelled : Bool
  pub notified : Bool
  pub result : Option ReadError

pub record System : Type 0 where
  pub buffer : Buffer
  pub session : ℕ → Session

pub data Action : Type 0 where
  writes : List ℕ → Action
  closes : Action
  cancels : ℕ → Action
  notifies : ℕ → Action
  reads : ℕ → ℕ → Action

abbrev pub start_session : ℕ → Session
unfolding subscribe
start_session i = record {
  reader = subscribe i;
  delivered = [];
  cancelled = false;
  notified = false;
  result = none;
}

unfoldable pub start : System
unfolding new_buffer subscribe
start = record { buffer = new_buffer; session = start_session }

abbrev pub elem : ℕ → List ℕ → Bool
elem i [] = false
elem i (j ∷ js) = (i == j) || elem i js

abbrev pub update : (ℕ → Session) → ℕ → Session → ℕ → Session
update f i v j = if i == j then v else f j

abbrev record_result : ReadResult → Reader → Session → Session
record_result (got bs) r s = record s { reader = r; delivered = s.delivered ++ bs }
record_result (failed e) r s = record s { reader = r; result = some e }
record_result waits r s = record s { reader = r }

-- A turn of reader `i`, if it is not parked.
unfoldable pub read_turn : ℕ → ℕ → System → System
unfolding read
read_turn i dest s =
    if elem i s.buffer.parked
    then s
    else let (b, r, result) = read (s.session i).cancelled dest s.buffer (s.session i).reader in
      record { buffer = b; session = update s.session i (record_result result r (s.session i)) }

-- The goroutine of `Subscribe` runs once the context of session `i` has ended.
unfoldable pub notify_turn : ℕ → System → System
notify_turn i s =
    if (s.session i).cancelled && not (s.session i).notified
    then record {
      buffer = broadcast s.buffer;
      session = update s.session i (record (s.session i) { notified = true });
    }
    else s

unfoldable pub step : Action → System → System
unfolding write close read_turn notify_turn
step (writes src) s = record s { buffer = (write src s.buffer).0 }
step closes s = record s { buffer = close s.buffer }
step (cancels i) s = record s {
  session = update s.session i (record (s.session i) { cancelled = true });
}
step (notifies i) s = notify_turn i s
step (reads i dest) s = read_turn i dest s

unfoldable pub run : List Action → System → System
unfolding step
run [] s = s
run (a ∷ rest) s = run rest (step a s)
