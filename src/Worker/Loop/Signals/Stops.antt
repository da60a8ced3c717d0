-- ===== src/Worker/Loop/Signals/Stops.antt =====
-- internal/worker/worker.go, `Worker.Run` when an attempt to claim work fails after the first signal.
use taskcluster_multistage_d.Common.{
  ℕ, ◌≡◌, ◌⊎◌, refl, ◌∙◌, ap, Bool, true, some, none, List, [], ◌∷◌, append-nil, arith, inl, inr,
}
use taskcluster_multistage_d.Worker.Claim.{TaskClaim}
use taskcluster_multistage_d.Worker.Loop.{
  Config, Outcome, continues, exits, panics, Exit, nothing, on_ctx_done, on_completed,
  on_claimer_gone,
}
use taskcluster_multistage_d.Worker.Loop.System.{
  Claimer, waiting, claiming, offering, gone, looping, returned, System, Event, ctx_done,
  stop_received, task_ends, slot_returned, queue_answers, claim_gives_up, response_received,
  claimer_gone_seen, finish_turn, take_completed, see_gone, step, run, move,
}
use taskcluster_multistage_d.Worker.Loop.Shutdown.{run-shutdown}
use taskcluster_multistage_d.Worker.Loop.Signals.{
  Worker, Input, claim_fails, happens, Retry, react, run_worker, trace, run_worker-trace,
}

-- The goroutine that claims work has returned, and no task has been claimed since.
abbrev Gone : System → System → Type 0
Gone s t = (t.claimer ≡ gone) × (t.claimed ≡ s.claimed)

finish_turn-Gone : (o : Outcome) (s t : System) → Gone s t → Gone s (finish_turn o t)
finish_turn-Gone (continues l started none) s t k = k
finish_turn-Gone (continues l started (some n)) s t k = ground arith
finish_turn-Gone (exits e) s t k = k
finish_turn-Gone panics s t k = k

completed-Gone :
    (cfg : Config) (now : ℕ) (done : List ℕ) (s : System)
    → Gone s s
    → Gone s (take_completed cfg now done s)
completed-Gone cfg now [] s k = k
completed-Gone cfg now (idx ∷ rest) s k = finish_turn-Gone (on_completed cfg now idx s.loop) s _ k

see_gone-Gone : (cfg : Config) (c : Claimer) (s : System) → Gone s s → Gone s (see_gone cfg c s)
see_gone-Gone cfg gone s k = finish_turn-Gone (on_claimer_gone cfg s.loop) s s k
see_gone-Gone cfg waiting s k = k
see_gone-Gone cfg (claiming n) s k = k
see_gone-Gone cfg (offering claims) s k = k

move-Gone :
    (queue : ℕ → ℕ → List TaskClaim) (cfg : Config) (e : Event) (s : System)
    → Gone s s
    → Gone s (move queue cfg e s)
move-Gone queue cfg ctx_done s k = ground (arith, finish_turn-Gone (on_ctx_done cfg s.loop) s s k)
move-Gone queue cfg (stop_received b) s k = finish_turn-Gone _ s s k
move-Gone queue cfg (task_ends i) s k = ground arith
move-Gone queue cfg (slot_returned now) s k = completed-Gone cfg now s.completed s k
move-Gone queue cfg (queue_answers i) s k = ground arith
move-Gone queue cfg claim_gives_up s k = ground arith
move-Gone queue cfg (response_received now) s k = ground arith
move-Gone queue cfg claimer_gone_seen s k = ground (arith, see_gone-Gone cfg s.claimer s k)

step-Gone :
    (queue : ℕ → ℕ → List TaskClaim) (cfg : Config) (e : Event) (s : System)
    → s.claimer ≡ gone
    → Gone s (step queue cfg e s)
unfolding step
step-Gone queue cfg e s left = ground (arith, move-Gone queue cfg e s)

run-Gone :
    (queue : ℕ → ℕ → List TaskClaim) (cfg : Config) (es : List Event) (s : System)
    → s.claimer ≡ gone
    → Gone s (run queue cfg es s)
unfolding run
run-Gone queue cfg [] s left = (left, refl)
run-Gone queue cfg (e ∷ es) s left =
    let (still, same) = step-Gone queue cfg e s left in
    let (still', same') = run-Gone queue cfg es (step queue cfg e s) still in (still', same' ∙ same)

pub run-returned_stays :
    (queue : ℕ → ℕ → List TaskClaim) (cfg : Config) (es : List Event) (s : System) (e : Exit)
    → s.status ≡ returned e
    → run queue cfg es s ≡ s
unfolding run step
run-returned_stays queue cfg [] s e h = refl
run-returned_stays queue cfg (x ∷ es) s e h =
    let same : step queue cfg x s ≡ s = ground arith in
    ap (run queue cfg es) same ∙ run-returned_stays queue cfg es s e h

module _ (gives_up : Retry) (queue : ℕ → ℕ → List TaskClaim) (cfg : Config) where
  -- The state after the failed attempt and the turn of the loop that sees `workRes` closed.
  abbrev failed : Bool → Worker → Worker
  unfolding run
  failed permanent w =
      react gives_up queue cfg (happens claimer_gone_seen)
        (react gives_up queue cfg (claim_fails permanent) w)

  failed-lem :
      (permanent : Bool) (n : ℕ) (w : Worker)
      → gives_up true permanent ≡ true
      → w.safe_cancelled ≡ true
      → w.system.status ≡ looping
      → w.system.claimer ≡ claiming n
      → w.system.loop.work_res_armed ≡ true
      → let s = (failed permanent w).system in
        (s.claimer ≡ gone)
        × (s.claimed ≡ w.system.claimed)
        × (s.launched ≡ w.system.launched)
        × ((s.status ≡ returned nothing) ⊎ (s.loop.is_shutting_down ≡ true))
  unfolding run step on_claimer_gone
  failed-lem permanent n w gives cancelled on busy armed =
      ground (arith, append-nil w.system.launched)

-- If `backoff.Retry` gives up after a failed attempt whose context is done, then an attempt to claim
-- work that fails after the first signal is the last: the goroutine that claims work closes
-- `workRes`, and from the turn in which the loop sees that, whatever happens, no further task is claimed and
-- none is started, and the loop has returned nil or shuts down.
pub run_worker-stops :
    (gives_up : Retry) (queue : ℕ → ℕ → List TaskClaim) (cfg : Config) (permanent : Bool) (n : ℕ)
    (w : Worker) (is : List Input)
    → gives_up true permanent ≡ true
    → w.safe_cancelled ≡ true
    → w.system.status ≡ looping
    → w.system.claimer ≡ claiming n
    → w.system.loop.work_res_armed ≡ true
    → let s =
        (run_worker gives_up queue cfg
          (claim_fails permanent ∷ happens claimer_gone_seen ∷ is)
          w).system in
      (s.claimed ≡ w.system.claimed)
      × (s.launched ≡ w.system.launched)
      × ((s.status ≡ returned nothing) ⊎ (s.loop.is_shutting_down ≡ true))
unfolding run_worker run
run_worker-stops gives_up queue cfg permanent n w is gives cancelled on busy armed =
    let (left, claims, starts, how) =
      failed-lem gives_up queue cfg permanent n w gives cancelled on busy armed in
    let t = failed gives_up queue cfg permanent w in
    let es = trace gives_up queue cfg is t in
    let e = run_worker-trace gives_up queue cfg is t in
    let (left', claims') = run-Gone queue cfg es t.system left in
    elim how [
      | inl back ↦
          let same = e ∙ run-returned_stays queue cfg es t.system nothing back in
          (
            ap (λ s. s.claimed) same ∙ claims,
            ap (λ s. s.launched) same ∙ starts,
            inl (ap (λ s. s.status) same ∙ back),
          )
      | inr down ↦
          let (down', starts') = run-shutdown queue cfg es t.system down in
          (
            ap (λ s. s.claimed) e ∙ claims' ∙ claims,
            ap (λ s. s.launched) e ∙ starts' ∙ starts,
            inr (ap (λ s. s.loop.is_shutting_down) e ∙ down'),
          )
    ]
