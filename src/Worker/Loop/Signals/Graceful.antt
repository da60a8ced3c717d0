-- ===== src/Worker/Loop/Signals/Graceful.antt =====
-- internal/worker/worker.go, `Worker.Run` after the first signal, which cancels `safeCtx` only.
use taskcluster_multistage_d.Common.{
  ℕ, ◌<◌, ◌≡◌, ◌≢◌, refl, subst, Bool, true, false, ◌&&◌, Option, List, [], ◌∷◌, length,
  if◌then◌else◌, arith,
}
use taskcluster_multistage_d.Worker.Claim.{TaskClaim}
use taskcluster_multistage_d.Worker.Loop.{
  Config, Loop, Outcome, continues, exits, panics, on_completed, on_response,
}
use taskcluster_multistage_d.Worker.Loop.System.{
  Claimer, waiting, claiming, offering, gone, looping, System, ctx_done, stop_received, task_ends,
  slot_returned, queue_answers, claim_gives_up, response_received, claimer_gone_seen, start,
  finish_turn, request, take_completed, take_response, see_gone, step, run,
}
use taskcluster_multistage_d.Worker.Loop.Runs.{IsModest}
use taskcluster_multistage_d.Worker.Loop.Safety.{run-asks}
use taskcluster_multistage_d.Worker.Loop.Signals.{
  Worker, Input, graceful_stop, cancels, claim_fails, happens, Retry, react, run_worker, trace,
  begin, run_worker-trace,
}

-- Every attempt to claim work succeeds, the context of the command is not cancelled, and nothing is sent to
-- `stopCh`. The first signal may come.
abbrev pub is_calm : Input → Bool
is_calm graceful_stop = true
is_calm cancels = false
is_calm (claim_fails permanent) = false
is_calm (happens (stop_received b)) = false
is_calm (happens ctx_done) = true
is_calm (happens (task_ends k)) = true
is_calm (happens (slot_returned now)) = true
is_calm (happens (queue_answers i)) = true
is_calm (happens claim_gives_up) = true
is_calm (happens (response_received now)) = true
is_calm (happens claimer_gone_seen) = true

abbrev pub all_calm : List Input → Bool
all_calm [] = true
all_calm (i ∷ is) = is_calm i && all_calm is

abbrev is_gone : Claimer → Bool
is_gone gone = true
is_gone _ = false

-- The loop does not shut down, and the goroutine that claims work is there.
abbrev IsOpen : System → Type 0
IsOpen s = (s.loop.is_shutting_down ≡ false) × (is_gone s.claimer ≡ false)

abbrev Onward : Outcome → Type 0
Onward (continues l started n) = l.is_shutting_down ≡ false
Onward (exits e) = Unit {0}
Onward panics = Unit {0}

request-IsOpen : (n : Option ℕ) (s : System) → IsOpen s → IsOpen (request n s)
request-IsOpen n s o = ground arith

finish_turn-IsOpen : (o : Outcome) (s : System) → Onward o → IsOpen s → IsOpen (finish_turn o s)
finish_turn-IsOpen (continues l started n) s q k = request-IsOpen n _ (q, k.1)
finish_turn-IsOpen (exits e) s q k = k
finish_turn-IsOpen panics s q k = k

on_completed-Onward :
    (cfg : Config) (now idx : ℕ) (l : Loop)
    → l.is_shutting_down ≡ false
    → Onward (on_completed cfg now idx l)
unfolding on_completed
on_completed-Onward cfg now idx l up = ground arith

on_response-Onward :
    (cfg : Config) (now : ℕ) (claims : List TaskClaim) (l : Loop)
    → l.is_shutting_down ≡ false
    → Onward (on_response cfg now claims l)
unfolding on_response
on_response-Onward cfg now claims l up = ground arith

completed-IsOpen :
    (cfg : Config) (now : ℕ) (done : List ℕ) (s : System)
    → IsOpen s
    → IsOpen (take_completed cfg now done s)
completed-IsOpen cfg now [] s k = k
completed-IsOpen cfg now (idx ∷ rest) s k =
    finish_turn-IsOpen (on_completed cfg now idx s.loop) _
      (on_completed-Onward cfg now idx s.loop k.0) k

response-IsOpen :
    (cfg : Config) (now : ℕ) (c : Claimer) (s : System)
    → IsOpen s
    → IsOpen (take_response cfg now c s)
response-IsOpen cfg now (offering claims) s k =
    finish_turn-IsOpen (on_response cfg now claims s.loop) _
      (on_response-Onward cfg now claims s.loop k.0) (k.0, refl)
response-IsOpen cfg now waiting s k = k
response-IsOpen cfg now (claiming n) s k = k
response-IsOpen cfg now gone s k = k

seen-IsOpen :
    (cfg : Config) (c : Claimer) (s : System)
    → is_gone c ≡ false
    → IsOpen s
    → IsOpen (see_gone cfg c s)
seen-IsOpen cfg gone s here k = absurd (cc)
seen-IsOpen cfg waiting s here k = k
seen-IsOpen cfg (claiming n) s here k = k
seen-IsOpen cfg (offering claims) s here k = k

if-IsOpen : (b : Bool) (s t : System) → IsOpen s → IsOpen t → IsOpen (if b then t else s)
if-IsOpen true s t j k = k
if-IsOpen false s t j k = j

module _ (gives_up : Retry) (queue : ℕ → ℕ → List TaskClaim) (cfg : Config) where
  react-IsOpen :
      (i : Input) (w : Worker)
      → is_calm i ≡ true
      → w.cancelled ≡ false
      → IsOpen w.system
      → ((react gives_up queue cfg i w).cancelled ≡ false)
        × IsOpen (react gives_up queue cfg i w).system
  unfolding run step
  react-IsOpen graceful_stop w calm alive k = (alive, k)
  react-IsOpen cancels w calm alive k = absurd (cc)
  react-IsOpen (claim_fails permanent) w calm alive k = absurd (cc)
  react-IsOpen (happens (stop_received b)) w calm alive k = absurd (cc)
  react-IsOpen (happens ctx_done) w calm alive k = ground arith
  react-IsOpen (happens (task_ends j)) w calm alive k = ground arith
  react-IsOpen (happens (slot_returned now)) w calm alive k =
      ground (arith, completed-IsOpen cfg now w.system.completed w.system k)
  react-IsOpen (happens (queue_answers j)) w calm alive k = ground arith
  react-IsOpen (happens claim_gives_up) w calm alive k = (alive, k)
  react-IsOpen (happens (response_received now)) w calm alive k =
      ground (arith, response-IsOpen cfg now w.system.claimer w.system k)
  react-IsOpen (happens claimer_gone_seen) w calm alive k =
      ground (arith, seen-IsOpen cfg w.system.claimer w.system k.1 k)

  run_worker-IsOpen :
      (is : List Input) (w : Worker)
      → all_calm is ≡ true
      → w.cancelled ≡ false
      → IsOpen w.system
      → IsOpen (run_worker gives_up queue cfg is w).system
  unfolding run_worker
  run_worker-IsOpen [] w calm alive k = k
  run_worker-IsOpen (i ∷ is) w calm alive k =
      let (alive', k') = react-IsOpen i w (ground arith) alive k in
      run_worker-IsOpen is (react gives_up queue cfg i w) (ground arith) alive' k'

-- If the queue answers with no more tasks than it was asked for, the first signal does not stop the
-- worker from claiming, whatever `backoff.Retry` does on a failed attempt: over every sequence in
-- which no attempt to claim work fails, the context of the command is not cancelled and nothing is
-- sent to `stopCh`, and in which the first signal may come anywhere, a loop that runs is not
-- shutting down, and as long as a slot is free the goroutine that claims work is neither waiting
-- nor gone: it is claiming tasks or has a response to hand over.
pub run_worker-ignores_signal :
    (gives_up : Retry) (queue : ℕ → ℕ → List TaskClaim)
    → IsModest queue
    → (cfg : Config) (now : ℕ) (is : List Input) → all_calm is ≡ true
    → (run_worker gives_up queue cfg is (begin cfg now)).system.status ≡ looping
    → 0 < length (run_worker gives_up queue cfg is (begin cfg now)).system.loop.free_slots
    → let s = (run_worker gives_up queue cfg is (begin cfg now)).system in
      (s.loop.is_shutting_down ≡ false) × (s.claimer ≢ waiting) × (s.claimer ≢ gone)
unfolding start
run_worker-ignores_signal gives_up queue modest cfg now is calm on free =
    let (up, here) =
      run_worker-IsOpen gives_up queue cfg is (begin cfg now) calm refl (refl, refl) in
    let e = run_worker-trace gives_up queue cfg is (begin cfg now) in
    (
      up,
      λ waits.
          run-asks queue modest cfg now (trace gives_up queue cfg is (begin cfg now))
            (subst (λ s. s.status ≡ looping) e on)
            (subst (λ s. s.loop.is_shutting_down ≡ false) e up)
            (subst (λ s. 0 < length s.loop.free_slots) e free)
            (subst (λ s. s.claimer ≡ waiting) e waits),
      λ left. ground (arith),
    )
