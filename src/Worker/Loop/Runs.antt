-- ===== src/Worker/Loop/Runs.antt =====
-- What holds of `Worker.Run` (internal/worker/worker.go) over every sequence of events.
use taskcluster_multistage_d.Common.{
  ℕ, zero, suc, ◌+◌, ◌≤◌, ◌≡◌, ◌⊎◌, inl, inr, refl, subst, sym, ◌==◌, Bool, true, false, some, none,
  List, [], ◌∷◌, ◌++◌, length, length-append, if◌then◌else◌, arith,
}
use taskcluster_multistage_d.Worker.Claim.{TaskClaim}
use taskcluster_multistage_d.Worker.Loop.{Config}
use taskcluster_multistage_d.Worker.Loop.System.{
  Claimer, waiting, claiming, offering, gone, Status, looping, returned, panicked, stuck, System,
  Event, ctx_done, stop_received, task_ends, slot_returned, queue_answers, claim_gives_up,
  response_received, claimer_gone_seen, remove_at, end_task, take_completed, take_response,
  see_gone, answer, give_up, step, run, move,
}
use taskcluster_multistage_d.Worker.Loop.Slots.{count, count-append, slots_of}
use taskcluster_multistage_d.Worker.Loop.Invariant.{
  Good, pending, is_waiting, completed-Good, ctx_done-Good, stop-Good, gone-Good,
}
use taskcluster_multistage_d.Worker.Loop.Responses.{response-Good}

-- The queue answers with no more tasks than it was asked for.
abbrev pub IsModest : (ℕ → ℕ → List TaskClaim) → Type 0
IsModest queue = (i n : ℕ) → length (queue i n) ≤ n

remove_at-some :
    (k : ℕ) (xs : List (ℕ × TaskClaim))
    → (remove_at k xs ≡ none)
      ⊎ ((slot : ℕ) × (claim : TaskClaim) × (rest : List (ℕ × TaskClaim)) × (remove_at k xs
            ≡ some ((slot, claim), rest))
          × (length xs ≡ suc (length rest))
          × ((y : ℕ)
              → count y (slots_of xs) ≡ (if y == slot then 1 else 0) + count y (slots_of rest)))
remove_at-some k [] = inl refl
remove_at-some zero ((slot, claim) ∷ xs) = inr (slot, claim, xs, refl, refl, λ y. refl)
remove_at-some (suc k) ((s, c) ∷ xs) = elim (remove_at-some k xs) [
  | inl e ↦ inl (ground arith)
  | inr (slot, claim, rest, e, len, counts) ↦
      inr (slot, claim, (s, c) ∷ rest, ground arith, ground arith, λ y. ground (arith, counts y))
]

ended-Good :
    (cfg : Config) (slot : ℕ) (rest : List (ℕ × TaskClaim)) (s : System)
    → Good cfg s
    → length s.running ≡ suc (length rest)
    → ((y : ℕ)
        → count y (slots_of s.running) ≡ (if y == slot then 1 else 0) + count y (slots_of rest))
    → s.status ≡ looping
    → Good cfg (record s { running = rest; completed = s.completed ++ slot ∷ [] })
ended-Good cfg slot rest s g len counts on = record {
  no_panic = g.no_panic;
  not_stuck = g.not_stuck;
  exit_idle = λ e h. ground arith;
  counted = λ h. omega (arith, g.counted on, len, length-append s.completed (slot ∷ []));
  shared = λ y h. ground (arith, g.shared y on, counts y, count-append y s.completed (slot ∷ []));
  fits = g.fits;
  full_waits = g.full_waits;
  full_used = g.full_used;
  idle = g.idle;
  active = g.active;
  unarmed_stops = g.unarmed_stops;
}

task_ends-Good :
    (cfg : Config) (k : ℕ) (s : System)
    → Good cfg s
    → s.status ≡ looping
    → Good cfg (end_task (remove_at k s.running) s)
task_ends-Good cfg k s g on = elim (remove_at-some k s.running) [
  | inl e ↦ subst (λ r. Good cfg (end_task r s)) (sym e) g
  | inr (slot, claim, rest, e, len, counts) ↦
      subst (λ r. Good cfg (end_task r s)) (sym e) (ended-Good cfg slot rest s g len counts on)
]

-- The claiming goroutine moves on, with no more tasks pending and not back to waiting.
claimer-Good :
    (cfg : Config) (c : Claimer) (claims : List TaskClaim) (s : System)
    → Good cfg s
    → s.status ≡ looping
    → pending c ≤ pending s.claimer
    → is_waiting s.claimer ≡ false
    → is_waiting c ≡ false
    → Good cfg (record s { claimer = c; claimed = claims })
claimer-Good cfg c claims s g on le busy still = record {
  no_panic = g.no_panic;
  not_stuck = g.not_stuck;
  exit_idle = g.exit_idle;
  counted = g.counted;
  shared = g.shared;
  fits = λ h. omega (arith, g.fits on);
  full_waits = λ h f. ground (arith, g.full_waits on);
  full_used = g.full_used;
  idle = g.idle;
  active = λ h d f. still;
  unarmed_stops = g.unarmed_stops;
}

answer-Good :
    (queue : ℕ → ℕ → List TaskClaim)
    → IsModest queue
    → (cfg : Config) (i : ℕ) (c : Claimer) (s : System) → Good cfg s
    → s.status ≡ looping
    → s.claimer ≡ c
    → Good cfg (answer queue i c s)
answer-Good queue modest cfg i (claiming n) s g on e =
    claimer-Good cfg _ _ s g on (ground (arith, modest i n)) (ground arith) refl
answer-Good queue modest cfg i waiting s g on e = g
answer-Good queue modest cfg i (offering claims) s g on e = g
answer-Good queue modest cfg i gone s g on e = g

give_up-Good :
    (cfg : Config) (c : Claimer) (s : System)
    → Good cfg s
    → s.status ≡ looping
    → s.claimer ≡ c
    → Good cfg (give_up c s)
give_up-Good cfg (claiming n) s g on e =
    claimer-Good cfg gone s.claimed s g on (omega arith) (ground arith) refl
give_up-Good cfg waiting s g on e = g
give_up-Good cfg (offering claims) s g on e = g
give_up-Good cfg gone s g on e = g

take_response-Good :
    (cfg : Config) (now : ℕ) (c : Claimer) (s : System)
    → Good cfg s
    → s.status ≡ looping
    → s.claimer ≡ c
    → Good cfg (take_response cfg now c s)
take_response-Good cfg now (offering claims) s g on e = response-Good cfg now claims s g on e
take_response-Good cfg now waiting s g on e = g
take_response-Good cfg now (claiming n) s g on e = g
take_response-Good cfg now gone s g on e = g

see_gone-Good :
    (cfg : Config) (c : Claimer) (s : System)
    → Good cfg s
    → s.status ≡ looping
    → Good cfg (see_gone cfg c s)
see_gone-Good cfg gone s g on = gone-Good cfg s g on
see_gone-Good cfg waiting s g on = g
see_gone-Good cfg (claiming n) s g on = g
see_gone-Good cfg (offering claims) s g on = g

take_completed-Good :
    (cfg : Config) (now : ℕ) (done : List ℕ) (s : System)
    → Good cfg s
    → s.status ≡ looping
    → s.completed ≡ done
    → Good cfg (take_completed cfg now done s)
take_completed-Good cfg now [] s g on e = g
take_completed-Good cfg now (idx ∷ rest) s g on e = completed-Good cfg now idx rest s g on e

-- A turn that the loop takes only if a channel is still listened to.
armed-Good :
    (cfg : Config) (b : Bool) (s t : System)
    → Good cfg s
    → Good cfg t
    → Good cfg (if b then t else s)
armed-Good cfg true s t g h = h
armed-Good cfg false s t g h = g

move-Good :
    (queue : ℕ → ℕ → List TaskClaim)
    → IsModest queue
    → (cfg : Config) (e : Event) (s : System) → Good cfg s
    → s.status ≡ looping
    → Good cfg (move queue cfg e s)
move-Good queue modest cfg ctx_done s g on = armed-Good cfg _ s _ g (ctx_done-Good cfg s g on)
move-Good queue modest cfg (stop_received b) s g on = stop-Good cfg b s g on
move-Good queue modest cfg (task_ends k) s g on = task_ends-Good cfg k s g on
move-Good queue modest cfg (slot_returned now) s g on = take_completed-Good cfg now _ s g on refl
move-Good queue modest cfg (queue_answers i) s g on = answer-Good queue modest cfg i _ s g on refl
move-Good queue modest cfg claim_gives_up s g on = give_up-Good cfg _ s g on refl
move-Good queue modest cfg (response_received now) s g on =
    armed-Good cfg _ s _ g (take_response-Good cfg now _ s g on refl)
move-Good queue modest cfg claimer_gone_seen s g on =
    armed-Good cfg _ s _ g (see_gone-Good cfg _ s g on)

step-Good :
    (queue : ℕ → ℕ → List TaskClaim)
    → IsModest queue
    → (cfg : Config) (e : Event) (s : System) → Good cfg s
    → Good cfg (step queue cfg e s)
unfolding step
step-Good queue modest cfg e s g = go s.status refl
  where
    go : (status : Status) → s.status ≡ status → Good cfg (step queue cfg e s)
    go looping on = rw (on, step) (move-Good queue modest cfg e s g on)
    go (returned x) on = rw (on, step) g
    go panicked on = rw (on, step) g
    go stuck on = rw (on, step) g

pub run-Good :
    (queue : ℕ → ℕ → List TaskClaim)
    → IsModest queue
    → (cfg : Config) (es : List Event) (s : System) → Good cfg s
    → Good cfg (run queue cfg es s)
unfolding run
run-Good queue modest cfg [] s g = g
run-Good queue modest cfg (e ∷ es) s g =
    run-Good queue modest cfg es (step queue cfg e s) (step-Good queue modest cfg e s g)
