-- ===== src/Worker/Task.antt =====
-- internal/worker/run.go: `RunTask` and `uploadLog`. The live log is given by the URL at which it
-- is found and the buffer as it is when the deferred function closes it; log lines are left out. The `select` loop reads a
-- list of events: `time.After` fires once at most, so a due reclaim counts the first time only.
pub mod Reports
pub mod Outcome
use taskcluster_multistage_d.Common.{
  ℕ, suc, Bool, true, false, Option, some, none, List, [], ◌∷◌, ◌++◌, String, if◌then◌else◌, map,
}
use taskcluster_multistage_d.Exception.{Error, plain, internal_error, exception_kind}
use taskcluster_multistage_d.PubSub.Buffer.{Buffer, len, subscribe, close}
use taskcluster_multistage_d.PubSub.Contents.{read_to_end}
use taskcluster_multistage_d.Worker.Claim.{Credentials, TaskClaim}
use taskcluster_multistage_d.Worker.Calls.{Call, Result, ok, err, Run, ◌>>=◌, ◌>>◌, then_run}
use taskcluster_multistage_d.Worker.Artifact.{
  QueueWorld, create_redirect_artifact, create_s3_artifact, create_link_artifact,
}

abbrev pub live_log_name : String
live_log_name = "public/logs/live.log"

abbrev pub live_log_backing : String
live_log_backing = "public/logs/live-backing.log"

abbrev pub log_content_type : String
log_content_type = "text/plain"

-- What the worker tells the queue about the run.
pub data Report : Type 0 where
  completed failed : Report
  raised : String → Report

pub data TaskCall : Type 0 where
  artifact_call : Call → TaskCall
  closes_log : TaskCall
  reclaims : String → TaskCall
  reports : Credentials → String → Report → TaskCall

-- The response to a reclaim: the status, the credentials and the time that replace the claim's.
pub record Reclaimed : Type 0 where
  pub task_id : String
  pub task_group_id : String
  pub credentials : Credentials
  pub taken_until : ℕ

abbrev pub renew : Reclaimed → TaskClaim → TaskClaim
renew r claim = record claim {
  task_id = r.task_id;
  task_group_id = r.task_group_id;
  credentials = r.credentials;
  taken_until = r.taken_until;
}

pub data TaskEvent : Type 0 where
  reclaim_due : TaskEvent
  logic_done : Option Error → TaskEvent

pub record TaskQueue : Type 0 where
  pub artifacts : QueueWorld
  pub reclaim : TaskClaim → Result Reclaimed

-- The destination of a read by HTTP's client, as `io.Copy` makes it.
abbrev pub copy_size : ℕ
copy_size = 32768

-- `uploadLog`: the size is that of the buffer, the contents are what a new subscription reads, and the link is
-- made only if the upload succeeds.
unfoldable pub upload_log : QueueWorld → TaskClaim → Buffer → Run (Unit {0})
unfolding create_s3_artifact create_link_artifact
upload_log q claim contents = do
  create_s3_artifact q live_log_backing log_content_type claim.expires (len contents)
      (read_to_end (suc (len contents)) copy_size contents (subscribe 0))
  create_link_artifact q live_log_name log_content_type live_log_backing claim.expires

abbrev pub report_of_kind : Option String → Report
report_of_kind (some kind) = raised kind
report_of_kind none = failed

unfoldable pub report_of : Option Error → Report
unfolding exception_kind
report_of none = completed
report_of (some e) = report_of_kind (exception_kind e)

-- The deferred function.
unfoldable pub finish_task : TaskQueue → Buffer → TaskClaim → Option Error → List TaskCall
unfolding upload_log report_of
finish_task q log claim exit_err =
    closes_log ∷ map artifact_call (upload_log q.artifacts claim (close log)).calls
    ++ reports claim.credentials claim.task_id (report_of exit_err) ∷ []

abbrev pub never_finished : Option Error
never_finished = some (internal_error (plain "never finished"))

-- How the loop ended: the calls it made, the claim as it is then, and `exitErr`.
pub record LoopEnd : Type 0 where
  pub calls : List TaskCall
  pub claim : TaskClaim
  pub exit_err : Option Error

-- The `select` loop; `none` means that it waits for an event still.
abbrev pub add_call : TaskCall → Option LoopEnd → Option LoopEnd
add_call c none = none
add_call c (some end) = some (record end { calls = c ∷ end.calls })

-- The loop once the timer has fired: `reclaimCh` gives nothing any more.
unfoldable pub wait_done : TaskClaim → List TaskEvent → Option LoopEnd
wait_done claim [] = none
wait_done claim (logic_done e ∷ events) = some (record { calls = []; claim = claim; exit_err = e })
wait_done claim (reclaim_due ∷ events) = wait_done claim events

abbrev pub after_reclaim : TaskClaim → List TaskEvent → Result Reclaimed → Option LoopEnd
after_reclaim claim events (err e) =
    some (record { calls = []; claim = claim; exit_err = never_finished })
after_reclaim claim events (ok r) = wait_done (renew r claim) events

unfoldable pub wait_task : TaskQueue → TaskClaim → List TaskEvent → Option LoopEnd
unfolding wait_done
wait_task q claim [] = none
wait_task q claim (logic_done e ∷ events) =
    some (record { calls = []; claim = claim; exit_err = e })
wait_task q claim (reclaim_due ∷ events) =
    add_call (reclaims claim.task_id) (after_reclaim claim events (q.reclaim claim))

abbrev pub finish_loop :
    TaskQueue → Buffer → List TaskCall → Option LoopEnd → Option (List TaskCall)
finish_loop q log before none = none
finish_loop q log before (some end) =
    some (before ++ end.calls ++ finish_task q log end.claim end.exit_err)

abbrev pub after_redirect :
    TaskQueue
    → Buffer
    → TaskClaim
    → List TaskEvent
    → List TaskCall
    → Result (Unit {0})
    → Option (List TaskCall)
after_redirect q log claim events before (ok u) =
    finish_loop q log before (wait_task q claim events)
after_redirect q log claim events before (err e) = some (
    before
    ++ reports claim.credentials claim.task_id (raised "internal-error")
      ∷ finish_task q log claim never_finished)

-- `RunTask`: its calls, or `none` while it waits.
unfoldable pub run_task :
    TaskQueue → Buffer → String → TaskClaim → List TaskEvent → Option (List TaskCall)
unfolding create_redirect_artifact wait_task finish_task
run_task q log log_url claim events =
    let r =
      create_redirect_artifact q.artifacts live_log_name log_url log_content_type claim.expires in
    after_redirect q log claim events (map artifact_call r.calls) r.result
