-- ===== src/Worker/Output/Uploaded.antt =====
-- The log that `uploadLog` of internal/worker/run.go uploads when `RunTask` is over.
use taskcluster_multistage_d.Common.{
  some, ℕ, suc, ◌≡◌, refl, ◌∙◌, ap, true, Option, none, if◌then◌else◌, List, [], ◌∷◌, ◌++◌, length,
  String, ltb, map, arith,
}
use taskcluster_multistage_d.Exception.{Error}
use taskcluster_multistage_d.PubSub.Buffer.{Buffer, len, subscribe, close}
use taskcluster_multistage_d.PubSub.Contents.{read_to_end, read_to_end-contents}
use taskcluster_multistage_d.Log.Fancy.{Style}
use taskcluster_multistage_d.Worker.Claim.{TaskClaim}
use taskcluster_multistage_d.Worker.Calls.{
  ArtifactRequest, Call, creates_artifact, puts_artifact, ok,
}
use taskcluster_multistage_d.Worker.Artifact.{
  QueueWorld, PutResponse, create_s3_artifact, create_link_artifact,
}
use taskcluster_multistage_d.Worker.Task.{
  TaskQueue, artifact_call, closes_log, reports, report_of, upload_log, finish_task, live_log_name,
  live_log_backing, log_content_type, copy_size,
}
use taskcluster_multistage_d.Worker.Output.{Turn, Labels, new_output, run_output}
use taskcluster_multistage_d.Worker.Output.Entries.{rendered}
use taskcluster_multistage_d.Worker.Output.Delivered.{run_output-Delivered, new_output-Delivered}

abbrev pub backing_request : TaskClaim → ArtifactRequest
backing_request claim = record {
  storage_type = "s3";
  content_type = log_content_type;
  expires = claim.expires;
  target = "";
}

abbrev pub link_request : TaskClaim → ArtifactRequest
link_request claim = record {
  storage_type = "link";
  content_type = log_content_type;
  expires = claim.expires;
  target = live_log_backing;
}

-- The queue takes the request for the backing artifact, and the PUT of `contents` with its size gets an answer.
pub record Answers (q : QueueWorld) (claim : TaskClaim) (contents : List ℕ) (put_url : String)
    (answer : PutResponse) : Type 0 where
  pub body : String
  pub content_type : String
  pub created : q.create_artifact live_log_backing (backing_request claim) ≡ ok body
  pub decoded : q.decode_s3 body ≡ ok (record { put_url = put_url; content_type = content_type })
  pub valid_url : q.new_put put_url ≡ none
  pub answered : q.put put_url (length contents) (some contents) ≡ ok answer

-- The link, if the status says that the contents are stored.
abbrev pub link_calls : TaskClaim → PutResponse → List Call
link_calls claim answer =
    if ltb answer.status 300 then creates_artifact live_log_name (link_request claim) ∷ [] else []

upload_log-calls :
    (q : QueueWorld) (claim : TaskClaim) (b : Buffer) (contents : List ℕ) (put_url : String)
    (answer : PutResponse)
    → Answers q claim contents put_url answer
    → len b ≡ length contents
    → read_to_end (suc (len b)) copy_size b (subscribe 0) ≡ some contents
    → (upload_log q claim b).calls
      ≡ creates_artifact live_log_backing (backing_request claim)
        ∷ puts_artifact put_url (length contents) (some contents)
        ∷ link_calls claim answer
unfolding upload_log create_s3_artifact create_link_artifact
upload_log-calls q claim b contents put_url answer a size all =
    rw (all, size, a.created, a.decoded, a.valid_url, a.answered) (ground arith)

close-closed : (b : Buffer) → (close b).closed ≡ true
unfolding close
close-closed b = refl

close-contents : (b : Buffer) → (close b).contents ≡ b.contents
unfolding close
close-contents b = refl

len-close : (b : Buffer) → len (close b) ≡ length b.contents
unfolding close len
len-close b = refl

read_closed :
    (b : Buffer)
    → b.closed ≡ true
    → read_to_end (suc (len b)) copy_size b (subscribe 0) ≡ some b.contents
read_closed b shut = read_to_end-contents copy_size b shut (omega arith)

-- Whatever the steps and the code have written to the live log by the end of the task's logic: if the queue
-- takes the request for the backing artifact and gives a URL for it, and a PUT there gets an answer, then the calls
-- of the deferred function of `RunTask` are these. The live log is closed; the artifact is asked for; the PUT has as
-- its body, which can be read to its end, exactly the rendered entries that the live log took, in their order,
-- with their size as the content length; the link to the artifact is made exactly if the status of the answer is below
-- 300; and the outcome is reported, whatever that status.
pub run_output-uploaded :
    (style : Style) (labels : Labels) (ts : List Turn) (q : TaskQueue) (claim : TaskClaim)
    (exit_err : Option Error) (put_url : String) (answer : PutResponse)
    → let o = run_output style labels ts new_output in
      let contents = rendered style labels o.logged in
      Answers q.artifacts claim contents put_url answer
      → finish_task q o.live claim exit_err
        ≡ closes_log
            ∷ artifact_call (creates_artifact live_log_backing (backing_request claim))
            ∷ artifact_call (puts_artifact put_url (length contents) (some contents))
            ∷ map artifact_call (link_calls claim answer)
          ++ reports claim.credentials claim.task_id (report_of exit_err) ∷ []
unfolding finish_task
run_output-uploaded style labels ts q claim exit_err put_url answer answers =
    let o = run_output style labels ts new_output in
    let d = run_output-Delivered style labels ts new_output (new_output-Delivered style labels) in
    let uploaded =
      upload_log-calls q.artifacts claim (close o.live) (rendered style labels o.logged) put_url
        answer answers (len-close o.live ∙ ap length d.shown)
        (read_closed (close o.live) (close-closed o.live)
          ∙ ap some (close-contents o.live ∙ d.shown)) in
    ap
      (λ cs.
        closes_log ∷ map artifact_call cs
        ++ reports claim.credentials claim.task_id (report_of exit_err) ∷ [])
      uploaded
