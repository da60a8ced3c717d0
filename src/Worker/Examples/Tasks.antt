-- ===== src/Worker/Examples/Tasks.antt =====
-- The theorems on the run of a task (internal/worker/run.go, internal/worker/artifact.go) at a
-- concrete task.
use taskcluster_multistage_d.Common.{
  ◌^◌, ◌<◌, ◌≤◌, ◌≡◌, ◌↔◌, refl, true, false, Option, some, none, List, [], ◌∷◌, ◌++◌, String,
  arith, length, subst,
}
use taskcluster_multistage_d.Exception.{Error, plain}
use taskcluster_multistage_d.Payload.{pos, EnvVar, Step, Artifact, Payload}
use taskcluster_multistage_d.PubSub.Buffer.{Buffer}
use taskcluster_multistage_d.Worker.Calls.{ok, err}
use taskcluster_multistage_d.Worker.Step.{World, add_envs, builtin_env, step_spec, run_step}
use taskcluster_multistage_d.Worker.Step.Outcome.{
  Handles, Succeeds, run_step-Handles, run_step-ok_iff,
}
use taskcluster_multistage_d.Worker.Artifact.{
  QueueWorld, FileWorld, upload_artifact_impl, create_redirect_artifact, create_s3_artifact,
  upload_open,
}
use taskcluster_multistage_d.Worker.Artifact.Outcome.{IsUploaded, upload_artifact_impl-ok}
use taskcluster_multistage_d.Worker.Logic.{
  TaskWorld, run_steps, run_uploads, leaves_first, pipeline, run_task_logic, max_run_time,
}
use taskcluster_multistage_d.Worker.Logic.TimeLimit.{max_run_time_bounds}
use taskcluster_multistage_d.Worker.Logic.Pipeline.{AllOk, pipeline-none_iff}
use taskcluster_multistage_d.Worker.Logic.Cleanup.{Leaves, run_task_logic-Leaves}
use taskcluster_multistage_d.Worker.Logic.Success.{Completes, run_task_logic-ok_iff}
use taskcluster_multistage_d.Worker.Task.{
  TaskQueue, TaskEvent, reclaim_due, logic_done, TaskCall, reports, failed, Reclaimed, run_task,
  report_of,
}
use taskcluster_multistage_d.Worker.Task.Reports.{
  count, is_report, is_reclaim, run_task-reports_once,
}
use taskcluster_multistage_d.Worker.Task.Outcome.{
  dues, claim_at_end, reclaim_calls, calls_before, run_task-report,
}
use taskcluster_multistage_d.Worker.Examples.{claim}

abbrev root_url : String
root_url = "https://tc.example"

abbrev world : World
world = record {
  pull_image = λ image. none;
  get_secret = λ name. ok "{}";
  gjson_get = λ json path. "secret";
  create_container = λ spec. ok "c1";
  run_container = λ id. (0, none);
}

abbrev variable : String → String → EnvVar
variable name value = record { name = name; value = value; value_from = none }

abbrev build : Step
build = record {
  image = "golang";
  command = "go" ∷ [];
  args = "build" ∷ [];
  env = variable "MODE" "step" ∷ [];
  working_dir = "";
  pull = none;
  privileged = false;
}

abbrev binary : Artifact
binary = record {
  name = "public/app";
  path = "app";
  artifact_type = "file";
  content_type = "application/octet-stream";
}

abbrev pub payload : Payload
payload = record {
  max_run_time = pos 60;
  steps = build ∷ [];
  env = variable "MODE" "task" ∷ variable "CI" "1" ∷ [];
  artifacts = binary ∷ binary ∷ [];
}

run_step-Handles_example :
    Handles world
      (λ env. step_spec 0 build env "proxy")
      (add_envs world (payload.env ++ build.env) (builtin_env root_url claim)).result
      (run_step world root_url claim "proxy" 0 payload build (none ∷ []))
run_step-Handles_example = run_step-Handles world root_url claim "proxy" 0 payload build (none ∷ [])

run_step-ok_iff_example :
    ((run_step world root_url claim "proxy" 0 payload build (none ∷ [])).result ≡ ok tt)
    ↔ Succeeds world root_url claim "proxy" 0 payload build (none ∷ [])
run_step-ok_iff_example = run_step-ok_iff world root_url claim "proxy" 0 payload build (none ∷ [])

abbrev broken : Error
broken = plain "exited with code 2"

abbrev pub queue_world : QueueWorld
queue_world = record {
  create_artifact = λ name request. ok "{}";
  decode_s3 = λ body. ok (record { put_url = "https://s3.example/app"; content_type = "" });
  new_put = λ url. none;
  put = λ url size body. ok (record { status = 200; body_text = "" });
}

abbrev file_world : FileWorld
file_world = record {
  read_files = λ path. ok (record { is_dir = false; size = 5 });
  first_header = λ path. ok 5;
  contents = λ path. some (b'h' ∷ b'e' ∷ b'l' ∷ b'l' ∷ b'o' ∷ []);
  ends = λ path. true;
  queue = queue_world;
}

upload_artifact_impl-ok_example : IsUploaded file_world "proxy" 900 binary
unfolding upload_artifact_impl upload_open create_s3_artifact
upload_artifact_impl-ok_example = upload_artifact_impl-ok file_world "proxy" 900 binary refl

abbrev pub task_world : TaskWorld
task_world = record {
  create_sandbox = λ name. ok tt;
  pull_image = λ image. none;
  create_container = λ spec. ok "proxy";
  step_world = λ idx. world;
  file_world = λ idx. file_world;
}

pipeline-none_iff_example :
    (pipeline task_world root_url claim "proxy" payload 1 leaves_first ≡ none) ↔ (
      AllOk (run_steps task_world root_url claim "proxy" payload 0 none payload.steps)
      × AllOk (run_uploads task_world root_url claim "proxy" payload 1 0 none payload.artifacts))
pipeline-none_iff_example =
    pipeline-none_iff task_world root_url claim "proxy" payload 1 (λ ne. omega arith)

run_task_logic-Leaves_example :
    Leaves task_world root_url "proxy:1" claim 0 leaves_first
      (ok payload)
      (run_task_logic task_world root_url "proxy:1" claim (ok payload) 0 leaves_first)
run_task_logic-Leaves_example =
    run_task_logic-Leaves task_world root_url "proxy:1" claim (ok payload) 0 leaves_first

decodes_payload : (p : Payload) → ok payload ≡ ok p → payload ≡ p
decodes_payload p e = cc

run_task_logic-ok_iff_example :
    ((run_task_logic task_world root_url "proxy:1" claim (ok payload) 1 leaves_first).result
      ≡ ok tt)
    ↔ Completes task_world root_url "proxy:1" claim (ok payload) 1 leaves_first
run_task_logic-ok_iff_example =
    run_task_logic-ok_iff task_world root_url "proxy:1" claim (ok payload) 1 leaves_first
      (λ p e ne. subst (λ q. 1 < length q.artifacts) (decodes_payload p e) (omega arith))

max_run_time_bounds_example : (0 < max_run_time (pos 60)) × (max_run_time (pos 60) < 2 ^ 63)
max_run_time_bounds_example = max_run_time_bounds (pos 60)

abbrev renewed : Reclaimed
renewed = record {
  task_id = "task";
  task_group_id = "group";
  credentials = record { client_id = "worker"; access_token = "new"; certificate = "" };
  taken_until = 40;
}

abbrev pub task_queue : TaskQueue
task_queue = record { artifacts = queue_world; reclaim = λ c. ok renewed }

abbrev unreachable : TaskQueue
unreachable = record {
  artifacts = record queue_world { create_artifact = λ name request. err broken };
  reclaim = λ c. ok renewed;
}

abbrev calls_of : Option (List TaskCall) → List TaskCall
calls_of none = []
calls_of (some calls) = calls

abbrev full_log : Buffer
full_log = record { contents = b'o' ∷ b'k' ∷ []; closed = false; parked = [] }

abbrev live : String
live = "https://live.example/log"

-- The timer is due twice before the steps fail.
abbrev events : List TaskEvent
events = reclaim_due ∷ reclaim_due ∷ logic_done (some broken) ∷ []

abbrev calls_made : List TaskCall
unfolding run_task
calls_made = calls_of (run_task task_queue full_log live claim events)

run_task-reports_once_example : (count is_report calls_made ≡ 1) × (count is_reclaim calls_made ≤ 1)
unfolding run_task
run_task-reports_once_example =
    run_task-reports_once task_queue full_log live claim events calls_made refl refl

run_task-report_example :
    run_task task_queue full_log live claim (dues 2 (some broken) [])
    ≡ some (
        calls_before task_queue full_log live claim
          (reclaim_calls 2 claim)
          (claim_at_end 2 renewed claim)
        ++ reports renewed.credentials "task" failed ∷ [])
unfolding create_redirect_artifact report_of
run_task-report_example =
    run_task-report task_queue full_log live claim renewed 2 (some broken) [] refl refl
