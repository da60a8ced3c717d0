-- ===== src/Worker/Task/Reports.antt =====
-- What `RunTask` of internal/worker/run.go reports to the queue.
use taskcluster_multistage_d.Common.{
  ℕ, ◌+◌, ◌≤◌, ◌≡◌, refl, Option, some, none, List, [], ◌∷◌, ◌++◌, String, subst, map, arith,
}
use taskcluster_multistage_d.Exception.{Error}
use taskcluster_multistage_d.PubSub.Buffer.{Buffer, close}
use taskcluster_multistage_d.Worker.Claim.{TaskClaim}
use taskcluster_multistage_d.Worker.Calls.{Call, Result, ok, err, Run}
use taskcluster_multistage_d.Worker.Artifact.{create_redirect_artifact}
use taskcluster_multistage_d.Worker.Task.{
  TaskQueue, TaskEvent, reclaim_due, logic_done, TaskCall, artifact_call, closes_log, reclaims,
  reports, raised, Reclaimed, renew, LoopEnd, add_call, wait_task, wait_done, after_reclaim,
  finish_task, finish_loop, report_of, upload_log, after_redirect, run_task, live_log_name,
  log_content_type, never_finished,
}

abbrev pub is_report : TaskCall → ℕ
is_report (reports credentials id r) = 1
is_report _ = 0

abbrev pub is_reclaim : TaskCall → ℕ
is_reclaim (reclaims id) = 1
is_reclaim _ = 0

abbrev pub count : (TaskCall → ℕ) → List TaskCall → ℕ
count f [] = 0
count f (c ∷ cs) = f c + count f cs

count-append :
    (f : TaskCall → ℕ) (xs ys : List TaskCall) → count f (xs ++ ys) ≡ count f xs + count f ys
count-append f [] ys = omega arith
count-append f (x ∷ xs) ys = omega (arith, count-append f xs ys)

count-artifact_calls :
    (f : TaskCall → ℕ)
    → ((c : Call) → f (artifact_call c) ≡ 0)
    → (cs : List Call) → count f (map artifact_call cs) ≡ 0
count-artifact_calls f none_of [] = refl
count-artifact_calls f none_of (c ∷ cs) =
    omega (arith, none_of c, count-artifact_calls f none_of cs)

-- What the deferred function does before its report, which is its last call.
abbrev pub closing : TaskQueue → Buffer → TaskClaim → List TaskCall
closing q log claim =
    closes_log ∷ map artifact_call (upload_log q.artifacts claim (close log)).calls

pub finish_task-closing :
    (q : TaskQueue) (log : Buffer) (claim : TaskClaim) (e : Option Error)
    → finish_task q log claim e
      ≡ closing q log claim ++ reports claim.credentials claim.task_id (report_of e) ∷ []
unfolding finish_task
finish_task-closing q log claim e = refl

count-closing :
    (f : TaskCall → ℕ)
    → f closes_log ≡ 0
    → ((c : Call) → f (artifact_call c) ≡ 0)
    → (q : TaskQueue) (log : Buffer) (claim : TaskClaim) → count f (closing q log claim) ≡ 0
count-closing f shut none_of q log claim =
    omega
      (arith, shut, count-artifact_calls f none_of (upload_log q.artifacts claim (close log)).calls)

count-finish_task-is_report :
    (q : TaskQueue) (log : Buffer) (claim : TaskClaim) (e : Option Error)
    → count is_report (finish_task q log claim e) ≡ 1
count-finish_task-is_report q log claim e = rw (finish_task-closing q log claim e) (
    omega (
      arith,
      count-append is_report (closing q log claim)
          (reports claim.credentials claim.task_id (report_of e) ∷ []),
      count-closing is_report refl (λ c. refl) q log claim,
    ))

count-finish_task-is_reclaim :
    (q : TaskQueue) (log : Buffer) (claim : TaskClaim) (e : Option Error)
    → count is_reclaim (finish_task q log claim e) ≡ 0
count-finish_task-is_reclaim q log claim e = rw (finish_task-closing q log claim e) (
    omega (
      arith,
      count-append is_reclaim (closing q log claim)
          (reports claim.credentials claim.task_id (report_of e) ∷ []),
      count-closing is_reclaim refl (λ c. refl) q log claim,
    ))

-- The loop reports nothing, and reclaims once at most.
record IsQuiet (most : ℕ) (end : LoopEnd) : Type 0 where
  no_report : count is_report end.calls ≡ 0
  few_reclaims : count is_reclaim end.calls ≤ most

wait_done-IsQuiet :
    (claim : TaskClaim) (events : List TaskEvent) (end : LoopEnd)
    → wait_done claim events ≡ some end
    → IsQuiet 0 end
unfolding wait_done
wait_done-IsQuiet claim [] end h = cc
wait_done-IsQuiet claim (logic_done e ∷ events) end h = ground arith
wait_done-IsQuiet claim (reclaim_due ∷ events) end h = wait_done-IsQuiet claim events end h

add_call-IsQuiet :
    (id : String) (o : Option LoopEnd) (end : LoopEnd)
    → ((e : LoopEnd) → o ≡ some e → IsQuiet 0 e)
    → add_call (reclaims id) o ≡ some end
    → IsQuiet 1 end
add_call-IsQuiet id none end q h = cc
add_call-IsQuiet id (some e) end q h = let v = q e refl in ground arith

after_reclaim-IsQuiet :
    (claim : TaskClaim) (events : List TaskEvent) (r : Result Reclaimed) (end : LoopEnd)
    → after_reclaim claim events r ≡ some end
    → IsQuiet 0 end
after_reclaim-IsQuiet claim events (err e) end h = ground arith
after_reclaim-IsQuiet claim events (ok r) end h = wait_done-IsQuiet (renew r claim) events end h

wait_task-IsQuiet :
    (q : TaskQueue) (claim : TaskClaim) (events : List TaskEvent) (end : LoopEnd)
    → wait_task q claim events ≡ some end
    → IsQuiet 1 end
unfolding wait_task
wait_task-IsQuiet q claim [] end h = cc
wait_task-IsQuiet q claim (logic_done e ∷ events) end h = ground arith
wait_task-IsQuiet q claim (reclaim_due ∷ events) end h =
    add_call-IsQuiet claim.task_id _ end (after_reclaim-IsQuiet claim events (q.reclaim claim)) h

abbrev pub redirect : TaskQueue → String → TaskClaim → Run (Unit {0})
redirect q log_url claim =
    create_redirect_artifact q.artifacts live_log_name log_url log_content_type claim.expires

abbrev pub count_some : (TaskCall → ℕ) → Option (List TaskCall) → ℕ
count_some f none = 0
count_some f (some calls) = count f calls

count_all-is_report :
    (q : TaskQueue) (log : Buffer) (before loop : List TaskCall) (claim : TaskClaim)
    (e : Option Error)
    → count is_report before ≡ 0
    → count is_report loop ≡ 0
    → count is_report (before ++ loop ++ finish_task q log claim e) ≡ 1
count_all-is_report q log before loop claim e b l = omega (
  arith,
  b,
  l,
  count-append is_report (before ++ loop) (finish_task q log claim e),
  count-append is_report before loop,
  count-finish_task-is_report q log claim e,
)

count_all-is_reclaim :
    (q : TaskQueue) (log : Buffer) (before loop : List TaskCall) (claim : TaskClaim)
    (e : Option Error)
    → count is_reclaim before ≡ 0
    → count is_reclaim loop ≤ 1
    → count is_reclaim (before ++ loop ++ finish_task q log claim e) ≤ 1
count_all-is_reclaim q log before loop claim e b l = omega (
  arith,
  b,
  l,
  count-append is_reclaim (before ++ loop) (finish_task q log claim e),
  count-append is_reclaim before loop,
  count-finish_task-is_reclaim q log claim e,
)

some_injective : {calls calls' : List TaskCall} → some calls ≡ some calls' → calls ≡ calls'
some_injective h = cc

finish_loop-counts :
    (q : TaskQueue) (log : Buffer) (before : List TaskCall) (calls : List TaskCall)
    → count is_report before ≡ 0
    → count is_reclaim before ≡ 0
    → (o : Option LoopEnd) → ((end : LoopEnd) → o ≡ some end → IsQuiet 1 end)
    → finish_loop q log before o ≡ some calls
    → (count is_report calls ≡ 1) × (count is_reclaim calls ≤ 1)
finish_loop-counts q log before calls b c none quiet h = cc
finish_loop-counts q log before calls b c (some end) quiet h =
    let v = quiet end refl in
    subst (λ cs. (count is_report cs ≡ 1) × (count is_reclaim cs ≤ 1)) (some_injective h)
      (
        count_all-is_report q log before end.calls end.claim end.exit_err b v.no_report,
        count_all-is_reclaim q log before end.calls end.claim end.exit_err c v.few_reclaims,
      )

abbrev before_loop : TaskQueue → String → TaskClaim → List TaskCall
before_loop q log_url claim = map artifact_call (redirect q log_url claim).calls

after_redirect-counts :
    (q : TaskQueue) (log : Buffer) (claim : TaskClaim) (events : List TaskEvent)
    (before calls : List TaskCall) (r : Result (Unit {0}))
    → count is_report before ≡ 0
    → count is_reclaim before ≡ 0
    → r ≡ ok tt
    → after_redirect q log claim events before r ≡ some calls
    → (count is_report calls ≡ 1) × (count is_reclaim calls ≤ 1)
after_redirect-counts q log claim events before calls (ok u) b c o h =
    finish_loop-counts q log before calls b c (wait_task q claim events)
      (wait_task-IsQuiet q claim events) h
after_redirect-counts q log claim events before calls (err e) b c o h = cc

-- Once the redirect to the live log is made, a run of the task that ends has told the queue its
-- outcome exactly once, and has reclaimed the task at most once.
pub run_task-reports_once :
    (q : TaskQueue) (log : Buffer) (log_url : String) (claim : TaskClaim) (events : List TaskEvent)
    (calls : List TaskCall)
    → (redirect q log_url claim).result ≡ ok tt
    → run_task q log log_url claim events ≡ some calls
    → (count is_report calls ≡ 1) × (count is_reclaim calls ≤ 1)
unfolding run_task
run_task-reports_once q log log_url claim events calls made h =
    after_redirect-counts q log claim events (before_loop q log_url claim) calls
      (redirect q log_url claim).result
      (count-artifact_calls is_report (λ c. refl) (redirect q log_url claim).calls)
      (count-artifact_calls is_reclaim (λ c. refl) (redirect q log_url claim).calls) made h

after_redirect-twice :
    (q : TaskQueue) (log : Buffer) (claim : TaskClaim) (events : List TaskEvent)
    (before : List TaskCall) (r : Result (Unit {0})) (e : Error)
    → count is_report before ≡ 0
    → r ≡ err e
    → (calls : List TaskCall) × (after_redirect q log claim events before r ≡ some calls)
      × (count is_report calls ≡ 2)
after_redirect-twice q log claim events before (ok u) e b o = cc
after_redirect-twice q log claim events before (err e') e b o = (
  _,
  refl,
  omega (
    arith,
    b,
    count-append is_report before (
        reports claim.credentials claim.task_id (raised "internal-error")
        ∷ finish_task q log claim never_finished),
    count-finish_task-is_report q log claim never_finished,
  ),
)

-- If the redirect to the live log cannot be made, the run ends whatever events follow, and it has
-- told the queue an outcome twice.
pub run_task-reports_twice :
    (q : TaskQueue) (log : Buffer) (log_url : String) (claim : TaskClaim) (events : List TaskEvent)
    (e : Error)
    → (redirect q log_url claim).result ≡ err e
    → (calls : List TaskCall) × (run_task q log log_url claim events ≡ some calls)
      × (count is_report calls ≡ 2)
unfolding run_task
run_task-reports_twice q log log_url claim events e failed =
    after_redirect-twice q log claim events (before_loop q log_url claim)
      (redirect q log_url claim).result e
      (count-artifact_calls is_report (λ c. refl) (redirect q log_url claim).calls) failed
