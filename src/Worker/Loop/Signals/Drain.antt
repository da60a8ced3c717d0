-- ===== src/Worker/Loop/Signals/Drain.antt =====
-- `Worker.Run` of internal/worker/worker.go when its context is done: the turns that remain.
use taskcluster_multistage_d.Common.{
  ℕ, zero, suc, ◌+◌, ◌≡◌, ◌⊎◌, ◌-◌, refl, ◌∙◌, ap, subst, sym, true, List, [], ◌∷◌, ◌++◌, ◌==◌,
  length, length-append, append-nil, arith, Bool-cases, inl, inr,
}
use taskcluster_multistage_d.Worker.Claim.{TaskClaim}
use taskcluster_multistage_d.Worker.Loop.{Config, context_error, on_completed, on_ctx_done}
use taskcluster_multistage_d.Worker.Loop.System.{
  looping, returned, System, Event, ctx_done, task_ends, slot_returned, take_completed, end_task,
  remove_at, move, step, run,
}
use taskcluster_multistage_d.Worker.Loop.Invariant.{Good, is_waiting}
use taskcluster_multistage_d.Worker.Loop.Runs.{IsModest, run-Good}
use taskcluster_multistage_d.Worker.Loop.Signals.{run-append}
use taskcluster_multistage_d.Worker.Loop.Signals.Stops.{run-returned_stays}

abbrev pub repeat : ℕ → Event → List Event
repeat zero e = []
repeat (suc n) e = e ∷ repeat n e

-- Each of `n` running tasks ends, and `m` slots are collected.
abbrev pub drain : ℕ → ℕ → ℕ → List Event
drain now n m = repeat n (task_ends 0) ++ repeat m (slot_returned now)

-- No task runs, and `n` slots are to be collected.
abbrev Drained : System → ℕ → Type 0
Drained t n =
    (t.status ≡ looping)
    × (t.loop.is_shutting_down ≡ true)
    × (length t.running ≡ 0)
    × (length t.completed ≡ n)

-- One running task ends.
end_task-lem :
    (n : ℕ) (xs : List (ℕ × TaskClaim)) (s : System)
    → length xs ≡ suc n
    → let t = end_task (remove_at 0 xs) s in
      (t.status ≡ s.status)
      × (t.loop ≡ s.loop)
      × (length t.running ≡ n)
      × (length t.completed ≡ suc (length s.completed))
end_task-lem n [] s len = absurd (omega arith)
end_task-lem n ((slot, claim) ∷ xs) s len =
    (refl, refl, omega arith, omega (arith, length-append s.completed (slot ∷ [])))

-- The loop collects the only slot that is not free.
collect-last :
    (cfg : Config) (now : ℕ) (done : List ℕ) (s : System)
    → s.loop.is_shutting_down ≡ true
    → length done ≡ 1
    → length s.loop.free_slots + 1 ≡ cfg.concurrent_tasks
    → (take_completed cfg now done s).status ≡ returned context_error
unfolding on_completed
collect-last cfg now [] s down len all = absurd (omega arith)
collect-last cfg now (idx ∷ rest) s down len all =
    ground (arith, length-append s.loop.free_slots (idx ∷ []))

-- The loop collects a slot, and others are not free.
collect-more :
    (cfg : Config) (n now : ℕ) (done : List ℕ) (s : System)
    → s.status ≡ looping
    → s.loop.is_shutting_down ≡ true
    → length s.running ≡ 0
    → length done ≡ suc (suc n)
    → length s.loop.free_slots + suc (suc n) ≡ cfg.concurrent_tasks
    → (s.loop.is_full ≡ true → is_waiting s.claimer ≡ true)
    → let t = take_completed cfg now done s in Drained t (suc n)
unfolding on_completed
collect-more cfg n now [] s on down idle len all waits = absurd (omega arith)
collect-more cfg n now (idx ∷ rest) s on down idle len all waits =
    ground (arith, length-append s.loop.free_slots (idx ∷ []), append-nil s.running)

module _ (queue : ℕ → ℕ → List TaskClaim) (cfg : Config) where
  step-looping :
      (e : Event) (s : System) → s.status ≡ looping → step queue cfg e s ≡ move queue cfg e s
  unfolding step
  step-looping e s on =
      subst
        (λ x. elim x as (λ _. System) [ looping ↦ move queue cfg e s | _ ↦ s ] ≡ move queue cfg e s)
        (sym on) refl

  ends-lem :
      (n : ℕ) (s : System)
      → s.status ≡ looping
      → s.loop.is_shutting_down ≡ true
      → length s.running ≡ n
      → let t = run queue cfg (repeat n (task_ends 0)) s in Drained t (n + length s.completed)
  unfolding run step
  ends-lem zero s on down len = (on, down, len, omega arith)
  ends-lem (suc n) s on down len =
      let (on', loop', len', done) = end_task-lem n s.running s len in
      let t = end_task (remove_at 0 s.running) s in
      let (on'', down'', len'', done') =
        ends-lem n t (on' ∙ on) (ap (λ l. l.is_shutting_down) loop' ∙ down) len' in
      let same = ap (run queue cfg (repeat n (task_ends 0))) (step-looping (task_ends 0) s on) in
      subst (λ r. Drained r (suc n + length s.completed)) (sym same)
        (on'', down'', len'', omega (arith, done, done'))

  completed_turn-Good :
      IsModest queue
      → (now : ℕ) (s : System) → Good cfg s
      → s.status ≡ looping
      → Good cfg (take_completed cfg now s.completed s)
  unfolding run step
  completed_turn-Good modest now s g on =
      subst (Good cfg) (step-looping (slot_returned now) s on)
        (run-Good queue modest cfg (slot_returned now ∷ []) s g)

  collects-lem :
      IsModest queue
      → (n now : ℕ) (s : System) → Good cfg s
      → s.status ≡ looping
      → s.loop.is_shutting_down ≡ true
      → length s.running ≡ 0
      → length s.completed ≡ suc n
      → (run queue cfg (repeat (suc n) (slot_returned now)) s).status ≡ returned context_error
  unfolding run step
  collects-lem modest zero now s g on down idle len =
      ap (λ t. t.status) (step-looping (slot_returned now) s on)
      ∙ collect-last cfg now s.completed s down len (omega (arith, g.counted on))
  collects-lem modest (suc n) now s g on down idle len =
      let (on', down', idle', len') =
        collect-more cfg n now s.completed s on down idle len (omega (arith, g.counted on))
          (g.full_waits on) in
      ap (λ t. (run queue cfg (repeat (suc n) (slot_returned now)) t).status)
        (step-looping (slot_returned now) s on)
      ∙ collects-lem modest n now (take_completed cfg now s.completed s)
          (completed_turn-Good modest now s g on) on' down' idle' len'

  drain-lem :
      IsModest queue
      → (k now : ℕ) (s : System) → Good cfg s
      → s.status ≡ looping
      → s.loop.is_shutting_down ≡ true
      → length s.running + length s.completed ≡ suc k
      → (run queue cfg (drain now (length s.running) (suc k)) s).status ≡ returned context_error
  drain-lem modest k now s g on down all =
      let n = length s.running in
      let (on', down', idle', len') = ends-lem n s on down refl in
      ap (λ t. t.status)
        (run-append queue cfg (repeat n (task_ends 0)) (repeat (suc k) (slot_returned now)) s)
      ∙ collects-lem modest k now (run queue cfg (repeat n (task_ends 0)) s)
          (run-Good queue modest cfg (repeat n (task_ends 0)) s g) on' down' idle'
          (omega (arith, len', all))

  -- The turn that sees the context done.
  ctx_done-lem :
      (s : System)
      → Good cfg s
      → s.status ≡ looping
      → s.loop.ctx_armed ≡ true
      → let t = step queue cfg ctx_done s in
        (t.status ≡ returned context_error)
        ⊎ ((k : ℕ) × (t.status ≡ looping)
            × (t.loop.is_shutting_down ≡ true)
            × (t.running ≡ s.running)
            × (t.completed ≡ s.completed)
            × (length s.running + length s.completed ≡ suc k))
  unfolding on_ctx_done
  ctx_done-lem s g on armed =
      subst
        (λ t.
          (t.status ≡ returned context_error)
          ⊎ ((k : ℕ) × (t.status ≡ looping)
              × (t.loop.is_shutting_down ≡ true)
              × (t.running ≡ s.running)
              × (t.completed ≡ s.completed)
              × (length s.running + length s.completed ≡ suc k)))
        (sym (step-looping ctx_done s on))
        (elim (Bool-cases (length s.loop.free_slots == cfg.concurrent_tasks)) [
          | inl all ↦ inl (ground arith)
          | inr used ↦ inr (
            length s.running + length s.completed - 1,
            ground arith,
            ground arith,
            ground (arith, append-nil s.running),
            ground arith,
            ground (arith, g.counted on),
          )
        ])

  pub immediate-lem :
      IsModest queue
      → (now : ℕ) (s : System) → Good cfg s
      → s.status ≡ looping
      → s.loop.ctx_armed ≡ true
      → (run queue cfg
          (ctx_done ∷ drain now (length s.running) (length s.running + length s.completed))
          s).status
        ≡ returned context_error
  unfolding run
  immediate-lem modest now s g on armed = elim (ctx_done-lem s g on armed) [
    | inl back ↦
        ap (λ t. t.status)
          (run-returned_stays queue cfg
            (drain now (length s.running) (length s.running + length s.completed))
            (step queue cfg ctx_done s) context_error back)
        ∙ back
    | inr (k, on', down, same, same', all) ↦
        let t = step queue cfg ctx_done s in
        let lens = ap length same in
        let all' : length t.running + length t.completed ≡ suc k =
          omega (arith, lens, ap length same', all) in
        subst
          (λ r.
            (run queue cfg (drain now r (length s.running + length s.completed)) t).status
            ≡ returned context_error)
          lens
          (subst
            (λ m.
              (run queue cfg (drain now (length t.running) m) t).status ≡ returned context_error)
            (sym all)
            (drain-lem modest k now t (run-Good queue modest cfg (ctx_done ∷ []) s g) on' down
              all'))
  ]
