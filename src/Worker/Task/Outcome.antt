-- ===== src/Worker/Task/Outcome.antt =====
-- Which outcome `RunTask` of internal/worker/run.go reports, and with which credentials.
use taskcluster_multistage_d.Common.{
  ℕ, zero, suc, ◌≡◌, refl, ap, Option, some, List, [], ◌∷◌, ◌++◌, append_assoc, sym, String, map,
}
use taskcluster_multistage_d.Exception.{Error}
use taskcluster_multistage_d.PubSub.Buffer.{Buffer}
use taskcluster_multistage_d.Worker.Claim.{TaskClaim}
use taskcluster_multistage_d.Worker.Calls.{ok, err}
use taskcluster_multistage_d.Worker.Task.{
  TaskQueue, TaskEvent, reclaim_due, logic_done, TaskCall, artifact_call, reclaims, reports, raised,
  Reclaimed, renew, wait_task, wait_done, finish_loop, LoopEnd, report_of, run_task, never_finished,
}
use taskcluster_multistage_d.Worker.Task.Reports.{redirect, closing, finish_task-closing}

-- The timer is due `k` times, and then the task's logic is done.
abbrev pub dues : ℕ → Option Error → List TaskEvent → List TaskEvent
dues zero e rest = logic_done e ∷ rest
dues (suc k) e rest = reclaim_due ∷ dues k e rest

-- The claim that the run ends with.
abbrev pub claim_at_end : ℕ → Reclaimed → TaskClaim → TaskClaim
claim_at_end zero r claim = claim
claim_at_end (suc k) r claim = renew r claim

abbrev pub reclaim_calls : ℕ → TaskClaim → List TaskCall
reclaim_calls zero claim = []
reclaim_calls (suc k) claim = reclaims claim.task_id ∷ []

abbrev loop_end : ℕ → TaskClaim → TaskClaim → Option Error → LoopEnd
loop_end k claim claim' e = record { calls = reclaim_calls k claim; claim = claim'; exit_err = e }

wait_done-dues :
    (claim : TaskClaim) (k : ℕ) (e : Option Error) (rest : List TaskEvent)
    → wait_done claim (dues k e rest) ≡ some (loop_end 0 claim claim e)
unfolding wait_done
wait_done-dues claim zero e rest = refl
wait_done-dues claim (suc k) e rest = wait_done-dues claim k e rest

wait_task-dues :
    (q : TaskQueue) (claim : TaskClaim) (r : Reclaimed) (k : ℕ) (e : Option Error)
    (rest : List TaskEvent)
    → q.reclaim claim ≡ ok r
    → wait_task q claim (dues k e rest) ≡ some (loop_end k claim (claim_at_end k r claim) e)
unfolding wait_task
wait_task-dues q claim r zero e rest h = refl
wait_task-dues q claim r (suc k) e rest h = rw h (rw (wait_done-dues (renew r claim) k e rest) refl)

-- The calls before the report: the redirect, the reclaim, and those of the deferred function.
abbrev pub calls_before :
    TaskQueue → Buffer → String → TaskClaim → List TaskCall → TaskClaim → List TaskCall
calls_before q log log_url claim loop claim' =
    map artifact_call (redirect q log_url claim).calls ++ loop ++ closing q log claim'

finish_loop-report :
    (q : TaskQueue) (log : Buffer) (before : List TaskCall) (end : LoopEnd)
    → finish_loop q log before (some end)
      ≡ some (
          before
          ++ end.calls
          ++ closing q log end.claim
          ++ reports end.claim.credentials end.claim.task_id (report_of end.exit_err) ∷ [])
finish_loop-report q log before end = rw (finish_task-closing q log end.claim end.exit_err) (
    ap some (
      sym (
        append_assoc (before ++ end.calls) (closing q log end.claim)
          (reports end.claim.credentials end.claim.task_id (report_of end.exit_err) ∷ []))))

run_task-loop :
    (q : TaskQueue) (log : Buffer) (log_url : String) (claim : TaskClaim) (events : List TaskEvent)
    (end : LoopEnd)
    → (redirect q log_url claim).result ≡ ok tt
    → wait_task q claim events ≡ some end
    → run_task q log log_url claim events
      ≡ some (
          calls_before q log log_url claim end.calls end.claim
          ++ reports end.claim.credentials end.claim.task_id (report_of end.exit_err) ∷ [])
unfolding run_task
run_task-loop q log log_url claim events end made h =
    rw made (rw h (finish_loop-report q log _ end))

-- Where the redirect to the live log is made and a reclaim succeeds with `r`, the run ends once
-- the task's logic is done, however often the timer was due before. Its last call reports how
-- the logic ended, with the task and credentials of `r` if the timer was due, else the claim's.
pub run_task-report :
    (q : TaskQueue) (log : Buffer) (log_url : String) (claim : TaskClaim) (r : Reclaimed) (k : ℕ)
    (e : Option Error) (rest : List TaskEvent)
    → (redirect q log_url claim).result ≡ ok tt
    → q.reclaim claim ≡ ok r
    → run_task q log log_url claim (dues k e rest)
      ≡ some (
          calls_before q log log_url claim (reclaim_calls k claim) (claim_at_end k r claim)
          ++ reports
              (claim_at_end k r claim).credentials
              (claim_at_end k r claim).task_id
              (report_of e)
            ∷ [])
run_task-report q log log_url claim r k e rest made h =
    run_task-loop q log log_url claim (dues k e rest) _ made (wait_task-dues q claim r k e rest h)

wait_task-reclaim_error :
    (q : TaskQueue) (claim : TaskClaim) (e : Error) (events : List TaskEvent)
    → q.reclaim claim ≡ err e
    → wait_task q claim (reclaim_due ∷ events) ≡ some (loop_end 1 claim claim never_finished)
unfolding wait_task
wait_task-reclaim_error q claim e events h = rw h refl

-- Where the redirect is made and the reclaim fails, the run ends at once, whatever happens later,
-- and reports an internal error.
pub run_task-reclaim_error :
    (q : TaskQueue) (log : Buffer) (log_url : String) (claim : TaskClaim) (e : Error)
    (events : List TaskEvent)
    → (redirect q log_url claim).result ≡ ok tt
    → q.reclaim claim ≡ err e
    → run_task q log log_url claim (reclaim_due ∷ events)
      ≡ some (
          calls_before q log log_url claim (reclaim_calls 1 claim) claim
          ++ reports claim.credentials claim.task_id (raised "internal-error") ∷ [])
unfolding report_of
run_task-reclaim_error q log log_url claim e events made h =
    run_task-loop q log log_url claim (reclaim_due ∷ events) _ made
      (wait_task-reclaim_error q claim e events h)
