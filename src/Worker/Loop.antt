-- ===== src/Worker/Loop.antt =====
-- internal/worker/worker.go, `Worker.Run`: the main loop, one function for each case of its
-- `select`. Times are nanoseconds. `ConcurrentTasks` and the idle limit are not negative.
pub mod System
pub mod Slots
mod Invariant
mod Responses
pub mod Runs
pub mod Safety
pub mod Shutdown
pub mod Signals
use taskcluster_multistage_d.Common.{
  ℕ, zero, suc, ◌-◌, ◌*◌, Bool, true, false, not, ◌&&◌, Option, some, none, List, [], ◌∷◌, ◌++◌,
  length, ltb, ◌==◌, if◌then◌else◌,
}
use taskcluster_multistage_d.Worker.Claim.{TaskClaim}

pub record Config : Type 0 where
  pub concurrent_tasks : ℕ
  pub shutdown_on_idle_seconds : Option ℕ

-- The variables of `Run`. `ctx_armed` and `work_res_armed`: `ctxDone`, `workRes` is not nil.
pub record Loop : Type 0 where
  pub free_slots : List ℕ
  pub is_full : Bool
  pub idle_since : Option ℕ
  pub is_shutting_down : Bool
  pub ctx_armed : Bool
  pub work_res_armed : Bool

-- How `Run` returns: `ctx.Err()`, the error `immediate graceful shutdown`, nil, or what
-- `w.shutdown()` returns.
pub data Exit : Type 0 where
  context_error immediate_stop nothing shutdown_result : Exit

-- What a case of the `select` does: it goes on, with the tasks that it starts in their slots and
-- the number that it sends to `workReq`; it returns; or it panics on an empty `freeSlots`.
pub data Outcome : Type 0 where
  continues : Loop → List (ℕ × TaskClaim) → Option ℕ → Outcome
  exits : Exit → Outcome
  panics : Outcome

abbrev pub is_none {ℓ} : {A : Type ℓ} → Option A → Bool
is_none none = true
is_none (some a) = false

unfoldable pub on_ctx_done : Config → Loop → Outcome
on_ctx_done cfg l =
    if length l.free_slots == cfg.concurrent_tasks
    then exits context_error
    else continues (record l { is_shutting_down = true; ctx_armed = false }) [] none

unfoldable pub on_stop : Bool → Loop → Outcome
on_stop finish_tasks l =
    if finish_tasks
    then continues (record l { is_shutting_down = true }) [] none
    else exits immediate_stop

unfoldable pub on_completed : Config → ℕ → ℕ → Loop → Outcome
on_completed cfg now idx l =
    let free = l.free_slots ++ idx ∷ [] in
    let is_idle = length free == cfg.concurrent_tasks in
    let since = if is_none l.idle_since && is_idle then some now else l.idle_since in
    let l' = record l { free_slots = free; idle_since = since } in
    if l.is_shutting_down && is_idle
    then exits context_error
    else if l.is_full
    then continues (record l' { is_full = false }) [] (some 1)
    else continues l' [] none

-- `freeSlots[len(freeSlots)-1]` and the slice without it.
abbrev pub pop_last : List ℕ → Option (List ℕ × ℕ)
pop_last [] = none
pop_last (x ∷ []) = some ([], x)
pop_last (x ∷ y ∷ xs) = elim (pop_last (y ∷ xs)) [
  | none ↦ none
  | some (front, last) ↦ some (x ∷ front, last)
]

-- The loop over the claimed tasks: each takes the last free slot. `none` is the panic.
abbrev pub launch : List TaskClaim → List ℕ → Option (List ℕ × List (ℕ × TaskClaim))
launch [] free = some (free, [])
launch (claim ∷ claims) free = elim (pop_last free) [
  | none ↦ none
  | some (front, slot) ↦ elim (launch claims front) [
    | none ↦ none
    | some (rest, started) ↦ some (rest, (slot, claim) ∷ started)
  ]
]

abbrev pub is_empty {ℓ} : {A : Type ℓ} → List A → Bool
is_empty [] = true
is_empty (x ∷ xs) = false

abbrev pub second : ℕ
second = 1000000000

-- `config.ShutdownOnIdleSeconds != nil && len(resp.Tasks) == 0 && idleSince != nil` and the
-- comparison of the time since then.
abbrev pub is_idle_too_long : Option ℕ → Bool → Option ℕ → ℕ → Bool
is_idle_too_long (some limit) true (some since) now = ltb (limit * second) (now - since)
is_idle_too_long _ _ _ now = false

abbrev pub after_launch : Loop → List TaskClaim → Option (List ℕ × List (ℕ × TaskClaim)) → Outcome
after_launch l claims none = panics
after_launch l claims (some (free, started)) =
    let l' = record l {
      free_slots = free;
      idle_since = if is_empty claims then l.idle_since else none;
    } in
    if ltb 0 (length free)
    then continues l' started (some (length free))
    else continues (record l' { is_full = true }) started none

unfoldable pub on_response : Config → ℕ → List TaskClaim → Loop → Outcome
on_response cfg now claims l =
    if is_idle_too_long cfg.shutdown_on_idle_seconds (is_empty claims) l.idle_since now
    then exits shutdown_result
    else if l.is_shutting_down
    then continues l [] none
    else after_launch l claims (launch claims l.free_slots)

-- `workRes` was closed.
unfoldable pub on_claimer_gone : Config → Loop → Outcome
on_claimer_gone cfg l =
    if length l.free_slots == cfg.concurrent_tasks
    then exits nothing
    else continues (record l { work_res_armed = false; is_shutting_down = true }) [] none
