-- ===== src/Worker/Loop/Shutdown.antt =====
-- `Worker.Run` (internal/worker/worker.go) while it shuts down.
use taskcluster_multistage_d.Common.{
  ℕ, ◌+◌, ◌<◌, ◌≡◌, refl, ◌∙◌, Bool, true, false, Option, none, List, [], ◌∷◌, ◌++◌, append-nil,
  length, length-append, if◌then◌else◌, arith,
}
use taskcluster_multistage_d.Worker.Claim.{TaskClaim}
use taskcluster_multistage_d.Worker.Loop.{
  Config, Loop, Outcome, continues, exits, panics, on_ctx_done, on_stop, on_completed, on_response,
  on_claimer_gone,
}
use taskcluster_multistage_d.Worker.Loop.System.{
  Claimer, waiting, claiming, offering, gone, looping, System, Event, ctx_done, stop_received,
  task_ends, slot_returned, queue_answers, claim_gives_up, response_received, claimer_gone_seen,
  finish_turn, request, take_completed, take_response, see_gone, step, run, move,
}

-- What a system that shuts down keeps: it shuts down still, and starts no task.
abbrev Stays : System → System → Type 0
Stays s t = (t.loop.is_shutting_down ≡ true) × (t.launched ≡ s.launched)

abbrev Quiet : Outcome → Type 0
Quiet (continues l started n) = (l.is_shutting_down ≡ true) × (started ≡ [])
Quiet (exits e) = Unit {0}
Quiet panics = Unit {0}

request-Stays : (n : Option ℕ) (s t : System) → Stays s t → Stays s (request n t)
request-Stays n s t k = ground arith

finish_turn-Stays : (o : Outcome) (s t : System) → Quiet o → Stays s t → Stays s (finish_turn o t)
finish_turn-Stays (continues l started n) s t q k =
    request-Stays n s _ (ground (arith, append-nil t.launched))
finish_turn-Stays (exits e) s t q k = k
finish_turn-Stays panics s t q k = k

on_completed-Quiet :
    (cfg : Config) (now idx : ℕ) (l : Loop)
    → l.is_shutting_down ≡ true
    → Quiet (on_completed cfg now idx l)
unfolding on_completed
on_completed-Quiet cfg now idx l down = ground arith

on_response-Quiet :
    (cfg : Config) (now : ℕ) (claims : List TaskClaim) (l : Loop)
    → l.is_shutting_down ≡ true
    → Quiet (on_response cfg now claims l)
unfolding on_response
on_response-Quiet cfg now claims l down = ground arith

on_claimer_gone-Quiet : (cfg : Config) (l : Loop) → Quiet (on_claimer_gone cfg l)
unfolding on_claimer_gone
on_claimer_gone-Quiet cfg l = ground arith

on_ctx_done-Quiet : (cfg : Config) (l : Loop) → Quiet (on_ctx_done cfg l)
unfolding on_ctx_done
on_ctx_done-Quiet cfg l = ground arith

on_stop-Quiet : (b : Bool) (l : Loop) → Quiet (on_stop b l)
unfolding on_stop
on_stop-Quiet b l = ground arith

if-Stays : (b : Bool) (s t : System) → Stays s s → Stays s t → Stays s (if b then t else s)
if-Stays true s t j k = k
if-Stays false s t j k = j

completed-Stays :
    (cfg : Config) (now : ℕ) (done : List ℕ) (s : System)
    → Stays s s
    → Stays s (take_completed cfg now done s)
completed-Stays cfg now [] s k = k
completed-Stays cfg now (idx ∷ rest) s k =
    finish_turn-Stays (on_completed cfg now idx s.loop) s _
      (on_completed-Quiet cfg now idx s.loop k.0) k

response-Stays :
    (cfg : Config) (now : ℕ) (c : Claimer) (s : System)
    → Stays s s
    → Stays s (take_response cfg now c s)
response-Stays cfg now (offering claims) s k =
    finish_turn-Stays (on_response cfg now claims s.loop) s _
      (on_response-Quiet cfg now claims s.loop k.0) k
response-Stays cfg now waiting s k = k
response-Stays cfg now (claiming n) s k = k
response-Stays cfg now gone s k = k

gone-Stays : (cfg : Config) (c : Claimer) (s : System) → Stays s s → Stays s (see_gone cfg c s)
gone-Stays cfg gone s k =
    finish_turn-Stays (on_claimer_gone cfg s.loop) s s (on_claimer_gone-Quiet cfg s.loop) k
gone-Stays cfg waiting s k = k
gone-Stays cfg (claiming n) s k = k
gone-Stays cfg (offering claims) s k = k

move-Stays :
    (queue : ℕ → ℕ → List TaskClaim) (cfg : Config) (e : Event) (s : System)
    → Stays s s
    → Stays s (move queue cfg e s)
move-Stays queue cfg ctx_done s k =
    if-Stays _ s _ k (finish_turn-Stays _ s s (on_ctx_done-Quiet cfg s.loop) k)
move-Stays queue cfg (stop_received b) s k = finish_turn-Stays _ s s (on_stop-Quiet b s.loop) k
move-Stays queue cfg (task_ends i) s k = ground arith
move-Stays queue cfg (slot_returned now) s k = completed-Stays cfg now s.completed s k
move-Stays queue cfg (queue_answers i) s k = ground arith
move-Stays queue cfg claim_gives_up s k = ground arith
move-Stays queue cfg (response_received now) s k =
    if-Stays _ s _ k (response-Stays cfg now s.claimer s k)
move-Stays queue cfg claimer_gone_seen s k = if-Stays _ s _ k (gone-Stays cfg s.claimer s k)

step-Stays :
    (queue : ℕ → ℕ → List TaskClaim) (cfg : Config) (e : Event) (s : System)
    → s.loop.is_shutting_down ≡ true
    → Stays s (step queue cfg e s)
unfolding step
step-Stays queue cfg e s down = ground (arith, move-Stays queue cfg e s)

-- Once the loop shuts down, it shuts down for good and starts no task any more, whatever happens:
-- `RunTask` is called on no further claim.
pub run-shutdown :
    (queue : ℕ → ℕ → List TaskClaim) (cfg : Config) (es : List Event) (s : System)
    → s.loop.is_shutting_down ≡ true
    → ((run queue cfg es s).loop.is_shutting_down ≡ true)
      × ((run queue cfg es s).launched ≡ s.launched)
unfolding run
run-shutdown queue cfg [] s down = (down, refl)
run-shutdown queue cfg (e ∷ es) s down =
    let (still, same) = step-Stays queue cfg e s down in
    let (down', none_new) = run-shutdown queue cfg es (step queue cfg e s) still in
    (down', none_new ∙ same)

-- While the loop shuts down, was full and does not count idle time, with two slots or more not
-- free and the goroutine that claims work waiting, a task that ends makes it ask for one more
-- task; whatever the queue then gives out is claimed and never run, and the loop goes on.
pub run-drops_claims :
    (queue : ℕ → ℕ → List TaskClaim) (cfg : Config) (s : System) (idx : ℕ) (rest : List ℕ)
    (i early late : ℕ)
    → s.status ≡ looping
    → s.loop.is_shutting_down ≡ true
    → s.loop.work_res_armed ≡ true
    → s.loop.is_full ≡ true
    → s.loop.idle_since ≡ none
    → s.claimer ≡ waiting
    → s.completed ≡ idx ∷ rest
    → length s.loop.free_slots + 1 < cfg.concurrent_tasks
    → let t =
        run queue cfg (slot_returned early ∷ queue_answers i ∷ response_received late ∷ []) s in
      (t.status ≡ looping)
      × (t.claimer ≡ waiting)
      × (t.claimed ≡ s.claimed ++ queue i 1)
      × (t.launched ≡ s.launched)
unfolding run step on_completed on_response
run-drops_claims queue cfg s idx rest i early late on down armed full busy wait done more =
    ground (arith, length-append s.loop.free_slots (idx ∷ []), append-nil s.launched)
