-- ===== src/Worker/Loop/Invariant.antt =====
-- What holds of the system of `Worker.Run` (internal/worker/worker.go) after every event.
use taskcluster_multistage_d.Common.{
  ℕ, zero, suc, ◌+◌, ◌≤◌, ◌≡◌, ◌≢◌, ◌⊎◌, inl, inr, refl, ◌==◌, Bool, true, false, not, none, List,
  [], ◌∷◌, append-nil, length, length-append, arith, Bool-cases,
}
use taskcluster_multistage_d.Worker.Loop.{
  Config, Loop, Exit, continues, exits, on_ctx_done, on_stop, on_completed, on_claimer_gone,
  is_none, immediate_stop,
}
use taskcluster_multistage_d.Worker.Loop.System.{
  Claimer, waiting, claiming, offering, looping, returned, panicked, stuck, System, range_from,
  start, finish_turn,
}
use taskcluster_multistage_d.Worker.Loop.Slots.{count, count-append, slots_of, length-range_from}

-- The number of tasks that the claiming goroutine has asked for, or has to hand over.
abbrev pub pending : Claimer → ℕ
pending (claiming n) = n
pending (offering claims) = length claims
pending _ = 0

abbrev pub is_waiting : Claimer → Bool
is_waiting waiting = true
is_waiting _ = false

pub record Good (cfg : Config) (s : System) : Type 0 where
  pub no_panic : s.status ≢ panicked
  pub not_stuck : s.status ≢ stuck
  -- The loop returns with tasks running only if it is told to.
  pub exit_idle :
      (e : Exit)
      → s.status ≡ returned e
      → (e ≡ immediate_stop) ⊎ ((length s.running ≡ 0) × (length s.completed ≡ 0))
  pub counted :
      s.status ≡ looping
      → length s.loop.free_slots + length s.running + length s.completed ≡ cfg.concurrent_tasks
  pub shared :
      (y : ℕ)
      → s.status ≡ looping
      → count y s.loop.free_slots + count y (slots_of s.running) + count y s.completed
        ≡ count y (range_from 0 cfg.concurrent_tasks)
  pub fits : s.status ≡ looping → pending s.claimer ≤ length s.loop.free_slots
  pub full_waits : s.status ≡ looping → s.loop.is_full ≡ true → is_waiting s.claimer ≡ true
  pub full_used : s.status ≡ looping → s.loop.is_full ≡ true → length s.loop.free_slots ≡ 0
  pub idle :
      s.status ≡ looping
      → is_none s.loop.idle_since ≡ not (length s.loop.free_slots == cfg.concurrent_tasks)
  pub active :
      s.status ≡ looping
      → s.loop.is_shutting_down ≡ false
      → s.loop.is_full ≡ false
      → is_waiting s.claimer ≡ false
  pub unarmed_stops :
      s.status ≡ looping → s.loop.work_res_armed ≡ false → s.loop.is_shutting_down ≡ true

pub count-range_from : (y i n : ℕ) → i + n ≤ y → count y (range_from i n) ≡ 0
count-range_from y i zero h = refl
count-range_from y i (suc n) h = ground (arith, count-range_from y (suc i) n)

pub start-Good : (cfg : Config) (now : ℕ) → Good cfg (start cfg now)
unfolding start
start-Good cfg now = record {
  no_panic = λ e. cc;
  not_stuck = λ e. cc;
  exit_idle = λ e h. cc;
  counted = ground (arith, length-range_from 0 cfg.concurrent_tasks);
  shared = λ y h. omega arith;
  fits = ground (arith, length-range_from 0 cfg.concurrent_tasks);
  full_waits = ground arith;
  full_used = ground arith;
  idle = ground (arith, length-range_from 0 cfg.concurrent_tasks);
  active = ground arith;
  unarmed_stops = ground arith;
}

pub completed-Good :
    (cfg : Config) (now idx : ℕ) (rest : List ℕ) (s : System)
    → Good cfg s
    → s.status ≡ looping
    → s.completed ≡ idx ∷ rest
    → Good cfg (finish_turn (on_completed cfg now idx s.loop) (record s { completed = rest }))
unfolding on_completed
completed-Good cfg now idx rest s g on done = record {
  no_panic = λ h. ground (arith, g.full_waits on);
  not_stuck = λ h. ground (arith, g.full_waits on);
  exit_idle = λ e h. ground (arith, g.counted on, length-append s.loop.free_slots (idx ∷ []));
  counted = λ h.
      ground
        (arith, g.counted on, append-nil s.running, length-append s.loop.free_slots (idx ∷ []));
  shared = λ y h.
      ground
        (arith, g.shared y on, append-nil s.running, count-append y s.loop.free_slots (idx ∷ []));
  fits =
      λ h. ground (arith, g.fits on, g.full_waits on, length-append s.loop.free_slots (idx ∷ []));
  full_waits = λ h f. ground (arith, g.full_waits on);
  full_used = λ h f. ground (arith, g.full_used on);
  idle = λ h. ground (arith, g.idle on, length-append s.loop.free_slots (idx ∷ []), g.counted on);
  active = λ h d f. ground (arith, g.active on, g.full_waits on);
  unarmed_stops = λ h u. ground (arith, g.unarmed_stops on);
}

-- A turn that returns, with no task running or told to.
pub returned-Good :
    (cfg : Config) (e : Exit) (s : System)
    → (e ≡ immediate_stop) ⊎ ((length s.running ≡ 0) × (length s.completed ≡ 0))
    → Good cfg (finish_turn (exits e) s)
returned-Good cfg e s why = record {
  no_panic = λ h. ground arith;
  not_stuck = λ h. ground arith;
  exit_idle = λ e' h. ground arith;
  counted = λ h. ground arith;
  shared = λ y h. ground arith;
  fits = λ h. ground arith;
  full_waits = λ h f. ground arith;
  full_used = λ h f. ground arith;
  idle = λ h. ground arith;
  active = λ h d f. ground arith;
  unarmed_stops = λ h u. ground arith;
}

-- A turn that starts and asks for nothing, and leaves the slots alone.
pub quiet-Good :
    (cfg : Config) (l : Loop) (s : System)
    → Good cfg s
    → s.status ≡ looping
    → l.free_slots ≡ s.loop.free_slots
    → l.is_full ≡ s.loop.is_full
    → l.idle_since ≡ s.loop.idle_since
    → l.is_shutting_down ≡ true
    → Good cfg (finish_turn (continues l [] none) s)
quiet-Good cfg l s g on free full since down = record {
  no_panic = λ h. ground arith;
  not_stuck = λ h. ground arith;
  exit_idle = λ e h. ground arith;
  counted = λ h. ground (arith, g.counted on, append-nil s.running);
  shared = λ y h. ground (arith, g.shared y on, append-nil s.running);
  fits = λ h. ground (arith, g.fits on);
  full_waits = λ h f. ground (arith, g.full_waits on);
  full_used = λ h f. ground (arith, g.full_used on);
  idle = λ h. ground (arith, g.idle on);
  active = λ h d f. ground arith;
  unarmed_stops = λ h u. down;
}

pub ctx_done-Good :
    (cfg : Config) (s : System)
    → Good cfg s
    → s.status ≡ looping
    → Good cfg (finish_turn (on_ctx_done cfg s.loop) s)
unfolding on_ctx_done
ctx_done-Good cfg s g on = elim (Bool-cases (length s.loop.free_slots == cfg.concurrent_tasks)) [
  | inl all ↦
      rw (all, on_ctx_done)
        (returned-Good cfg _ s (inr (ground (arith, g.counted on), ground (arith, g.counted on))))
  | inr some_used ↦ rw (some_used, on_ctx_done) (quiet-Good cfg _ s g on refl refl refl refl)
]

pub stop-Good :
    (cfg : Config) (b : Bool) (s : System)
    → Good cfg s
    → s.status ≡ looping
    → Good cfg (finish_turn (on_stop b s.loop) s)
unfolding on_stop
stop-Good cfg true s g on = quiet-Good cfg _ s g on refl refl refl refl
stop-Good cfg false s g on = returned-Good cfg immediate_stop s (inl refl)

pub gone-Good :
    (cfg : Config) (s : System)
    → Good cfg s
    → s.status ≡ looping
    → Good cfg (finish_turn (on_claimer_gone cfg s.loop) s)
unfolding on_claimer_gone
gone-Good cfg s g on = elim (Bool-cases (length s.loop.free_slots == cfg.concurrent_tasks)) [
  | inl all ↦
      rw (all, on_claimer_gone)
        (returned-Good cfg _ s (inr (ground (arith, g.counted on), ground (arith, g.counted on))))
  | inr some_used ↦ rw (some_used, on_claimer_gone) (quiet-Good cfg _ s g on refl refl refl refl)
]
