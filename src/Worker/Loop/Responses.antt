-- ===== src/Worker/Loop/Responses.antt =====
-- The turns of `Worker.Run` (internal/worker/worker.go) on a response of the queue.
use taskcluster_multistage_d.Common.{
  ℕ, suc, ◌+◌, ◌≡◌, inl, inr, refl, subst, sym, ap, Bool, true, false, Option, some, none, List, [],
  ◌∷◌, ◌++◌, length, length-append, if◌then◌else◌, arith, Bool-cases,
}
use taskcluster_multistage_d.Worker.Claim.{TaskClaim}
use taskcluster_multistage_d.Worker.Loop.{
  Config, Outcome, continues, exits, on_response, is_none, is_empty, launch, after_launch,
  is_idle_too_long, shutdown_result,
}
use taskcluster_multistage_d.Worker.Loop.System.{
  waiting, offering, looping, System, finish_turn, run, claims_of,
}
use taskcluster_multistage_d.Worker.Loop.Slots.{
  count-append, slots_of, slots_of-append, Launched, launch-some,
}
use taskcluster_multistage_d.Worker.Loop.Invariant.{Good, returned-Good, quiet-Good}

length-claims_of : (started : List (ℕ × TaskClaim)) → length (claims_of started) ≡ length started
length-claims_of [] = refl
length-claims_of ((slot, claim) ∷ rest) = ap suc (length-claims_of rest)

-- A response that asks for no more than there are free slots is launched.
started-Good :
    (cfg : Config) (claims : List TaskClaim) (rest : List ℕ) (started : List (ℕ × TaskClaim))
    (s : System)
    → Good cfg s
    → s.status ≡ looping
    → s.loop.is_shutting_down ≡ false
    → Launched claims s.loop.free_slots rest started
    → Good cfg (
        finish_turn
          (after_launch s.loop claims (some (rest, started)))
          (record s { claimer = waiting }))
started-Good cfg claims rest started s g on run l = record {
  no_panic = λ h. ground arith;
  not_stuck = λ h. ground arith;
  exit_idle = λ e h. ground arith;
  counted = λ h. ground (arith, g.counted on, l.lengths, sizes);
  shared = λ y h. ground (
    arith,
    g.shared y on,
    l.counts y,
    slots_of-append s.running started,
    count-append y (slots_of s.running) (slots_of started),
  );
  fits = λ h. ground arith;
  full_waits = λ h f. ground arith;
  full_used = λ h f. ground arith;
  idle = λ h. ground (arith, g.idle on, g.counted on, l.lengths);
  active = λ h d f. ground arith;
  unarmed_stops = λ h u. ground (arith, g.unarmed_stops on);
}
  where
    sizes : length (s.running ++ started) ≡ length s.running + length claims
    sizes =
        omega
          (arith, length-append s.running started, ap length l.one_each, length-claims_of started)

too_long-since :
    (limit since : Option ℕ) (b : Bool) (now : ℕ)
    → is_idle_too_long limit b since now ≡ true
    → is_none since ≡ false
too_long-since (some limit) (some since) true now h = refl
too_long-since (some limit) none true now h = cc
too_long-since (some limit) since false now h = cc
too_long-since none since b now h = cc

-- A response that is dropped leaves the claiming goroutine waiting.
dropped-Good :
    (cfg : Config) (s : System)
    → Good cfg s
    → s.status ≡ looping
    → s.loop.is_shutting_down ≡ true
    → Good cfg (record s { claimer = waiting })
dropped-Good cfg s g on down = record {
  no_panic = g.no_panic;
  not_stuck = g.not_stuck;
  exit_idle = g.exit_idle;
  counted = g.counted;
  shared = g.shared;
  fits = λ h. ground arith;
  full_waits = λ h f. refl;
  full_used = g.full_used;
  idle = g.idle;
  active = λ h d f. ground arith;
  unarmed_stops = g.unarmed_stops;
}

accepted-Good :
    (cfg : Config) (claims : List TaskClaim) (s : System)
    → Good cfg s
    → s.status ≡ looping
    → s.loop.is_shutting_down ≡ false
    → s.claimer ≡ offering claims
    → Good cfg (
        finish_turn
          (after_launch s.loop claims (launch claims s.loop.free_slots))
          (record s { claimer = waiting }))
accepted-Good cfg claims s g on run offer =
    let (rest, started, e, l) = launch-some claims s.loop.free_slots (ground (arith, g.fits on)) in
    subst
      (λ r. Good cfg (finish_turn (after_launch s.loop claims r) (record s { claimer = waiting })))
      (sym e) (started-Good cfg claims rest started s g on run l)

pub response-Good :
    (cfg : Config) (now : ℕ) (claims : List TaskClaim) (s : System)
    → Good cfg s
    → s.status ≡ looping
    → s.claimer ≡ offering claims
    → Good cfg (finish_turn (on_response cfg now claims s.loop) (record s { claimer = waiting }))
unfolding on_response
response-Good cfg now claims s g on offer = elim (Bool-cases too_long) [
  | inl late ↦
      subst (λ b. Good cfg (finish_turn (if b then exits shutdown_result else other) t)) (sym late)
        (returned-Good cfg shutdown_result t (inr (none_left late)))
  | inr early ↦
      subst (λ b. Good cfg (finish_turn (if b then exits shutdown_result else other) t)) (sym early)
        (elim (Bool-cases s.loop.is_shutting_down) [
          | inl down ↦
              subst (λ b. Good cfg (finish_turn (if b then continues s.loop [] none else after) t))
                (sym down)
                (quiet-Good cfg s.loop t (dropped-Good cfg s g on down) on refl refl refl down)
          | inr run ↦
              subst (λ b. Good cfg (finish_turn (if b then continues s.loop [] none else after) t))
                (sym run) (accepted-Good cfg claims s g on run offer)
        ])
]
  where
    too_long : Bool
    too_long = is_idle_too_long cfg.shutdown_on_idle_seconds (is_empty claims) s.loop.idle_since now

    t : System
    t = record s { claimer = waiting }

    after : Outcome
    after = after_launch s.loop claims (launch claims s.loop.free_slots)

    other : Outcome
    other = if s.loop.is_shutting_down then continues s.loop [] none else after

    none_left : too_long ≡ true → (length s.running ≡ 0) × (length s.completed ≡ 0)
    none_left late =
        let known =
          too_long-since cfg.shutdown_on_idle_seconds s.loop.idle_since (is_empty claims) now
            late in
        (
          ground (arith, g.idle on, g.counted on, known),
          ground (arith, g.idle on, g.counted on, known),
        )
