-- ===== src/PubSub/Session/Delivery.antt =====
-- What a subscriber of internal/pubsubbuffer/pubsubbuffer.go is given, over every schedule.
use taskcluster_multistage_d.Common.{
  ℕ, ◌≡◌, ◌∙◌, ◌≤◌, Bool, true, false, some, List, [], ◌∷◌, ◌++◌, append-nil, append_assoc, length,
  take, arith, take_all,
}
use taskcluster_multistage_d.PubSub.Buffer.{eof, waits, read}
use taskcluster_multistage_d.PubSub.Session.{
  System, Action, writes, closes, cancels, notifies, reads, start, elem, read_turn, step, run,
}
use taskcluster_multistage_d.PubSub.Session.Invariant.{start-Inv, run-Inv}

-- What a schedule writes: the bytes of the writes before the first close, in order.
abbrev pub written : List Action → List ℕ
written [] = []
written (writes src ∷ rest) = src ++ written rest
written (closes ∷ rest) = []
written (cancels i ∷ rest) = written rest
written (notifies i ∷ rest) = written rest
written (reads i dest ∷ rest) = written rest

-- What an action adds to a buffer that may be closed already.
abbrev accepted : Bool → List Action → List ℕ
accepted true acts = []
accepted false acts = written acts

read_turn-contents :
    (i dest : ℕ) (s : System)
    → ((read_turn i dest s).buffer.contents ≡ s.buffer.contents)
      × ((read_turn i dest s).buffer.closed ≡ s.buffer.closed)
unfolding read_turn
read_turn-contents i dest s = ground arith

step-accepted :
    (a : Action) (rest : List Action) (s : System)
    → (step a s).buffer.contents ++ accepted (step a s).buffer.closed rest
      ≡ s.buffer.contents ++ accepted s.buffer.closed (a ∷ rest)
unfolding step
step-accepted (writes src) rest s =
    ground (arith, append_assoc s.buffer.contents src (written rest), append-nil s.buffer.contents)
step-accepted closes rest s = ground arith
step-accepted (cancels i) rest s = ground arith
step-accepted (notifies i) rest s = ground arith
step-accepted (reads i dest) rest s = ground (arith, read_turn-contents i dest s)

run-contents :
    (acts : List Action) (s : System)
    → (run acts s).buffer.contents ≡ s.buffer.contents ++ accepted s.buffer.closed acts
unfolding run
run-contents [] s = ground (arith, append-nil s.buffer.contents)
run-contents (a ∷ rest) s = run-contents rest (step a s) ∙ step-accepted a rest s

pub run-written : (acts : List Action) → (run acts start).buffer.contents ≡ written acts
unfolding start
run-written acts = run-contents acts start

-- After every schedule of writes, closes, cancellations and reads by any number of subscribers,
-- the buffer holds the bytes of the writes before the first close, and each subscriber has been
-- given exactly the first `offset` of them, where `offset` is not above their number.
pub run-delivered :
    (acts : List Action) (i : ℕ)
    → let s = run acts start in
      (s.buffer.contents ≡ written acts)
      × ((s.session i).delivered ≡ take (s.session i).reader.offset (written acts))
      × ((s.session i).reader.offset ≤ length (written acts))
run-delivered acts i = ground (arith, run-Inv acts start start-Inv i, run-written acts)

-- A subscriber that has read `io.EOF` has been given every byte written before the first close,
-- and the buffer is closed.
pub run-eof-delivered :
    (acts : List Action) (i : ℕ)
    → ((run acts start).session i).result ≡ some eof
    → (((run acts start).session i).delivered ≡ written acts)
      × ((run acts start).buffer.closed ≡ true)
run-eof-delivered acts i h = ground (
  arith,
  run-Inv acts start start-Inv i,
  run-written acts,
  take_all ((run acts start).session i).reader.offset (written acts),
)

-- No wake-up is lost: while a subscriber's goroutine is parked, all of the bytes written were
-- delivered to it, another turn of `Read` before its context ends would wait again, and the
-- broadcast that follows the end of its context is still to come.
pub run-parked_waits :
    (acts : List Action) (i dest : ℕ)
    → elem i (run acts start).buffer.parked ≡ true
    → let s = run acts start in
      ((s.session i).delivered ≡ written acts)
      × ((read false dest s.buffer (s.session i).reader).2 ≡ waits)
      × ((s.session i).notified ≡ false)
unfolding read
run-parked_waits acts i dest h = ground (
  arith,
  run-Inv acts start start-Inv i,
  run-written acts,
  take_all ((run acts start).session i).reader.offset (written acts),
)
