-- ===== src/Worker/Logic.antt =====
-- internal/worker/run.go, `runTaskLogic`. The goroutines of a task hand on one error value each: a
-- step receives that of the step before it. The channel of the last step is read by every artifact
-- upload; it holds one value and is then closed, so one upload, `winner`, receives the value and the
-- others receive nil. The final `select` takes what comes first, `Race`.
pub mod Pipeline
pub mod TimeLimit
pub mod Cleanup
pub mod Success
use Prim.Native.String.{◌++◌ as append}
use taskcluster_multistage_d.Common.{
  ℕ, zero, suc, ◌-◌, ◌*◌, ◌%◌, ◌^◌, ◌||◌, Bool, Option, none, some, List, [], ◌∷◌, String, ◌==◌,
  ltb, leb, if◌then◌else◌, decimal,
}
use taskcluster_multistage_d.Exception.{Error, wrapped, internal_error, malformed_payload}
use taskcluster_multistage_d.Payload.{ℤ, pos, negsuc, Step, Artifact, Payload}
use taskcluster_multistage_d.Cri.{ContainerSpec}
use taskcluster_multistage_d.Worker.Claim.{TaskClaim}
use taskcluster_multistage_d.Worker.Calls.{
  pulls, creates, removes, creates_sandbox, closes_sandbox, Result, ok, err, Run, pure, fail, call,
  finally, then_run, ◌>>=◌, ◌>>◌, check, error_of,
}
use taskcluster_multistage_d.Worker.Step.{World, run_step, workspace_dir}
use taskcluster_multistage_d.Worker.Artifact.{FileWorld, upload_artifact}

-- `time.Duration(payload.MaxRunTime) * time.Second`, an int64, as its bits.
abbrev pub second : ℕ
second = 1000000000

unfoldable pub duration_bits : ℤ → ℕ
duration_bits (pos n) = n * second % 2 ^ 64
duration_bits (negsuc n) = (2 ^ 64 - suc n * second % 2 ^ 64) % 2 ^ 64

-- The sign bit of an int64.
abbrev pub is_negative : ℕ → Bool
is_negative bits = leb (2 ^ 63) bits

abbrev pub default_task_run_timeout : ℕ
default_task_run_timeout = 3600 * second

unfoldable pub max_run_time : ℤ → ℕ
unfolding duration_bits
max_run_time t =
    let bits = duration_bits t in
    if is_negative bits || (bits == 0) then default_task_run_timeout else bits

-- How everything outside answers the goroutines of a task.
pub record TaskWorld : Type 0 where
  pub create_sandbox : String → Result (Unit {0})
  pub pull_image : String → Option Error
  pub create_container : ContainerSpec → Result String
  pub step_world : ℕ → World
  pub file_world : ℕ → FileWorld

module _ (w : TaskWorld) (root_url : String) (claim : TaskClaim) (root : String)
    (payload : Payload) where
  -- The steps from the one with index `idx` on, with the value that the first of them receives.
  unfoldable pub run_steps : ℕ → Option Error → List Step → List (Run (Unit {0}))
  run_steps idx dep [] = []
  run_steps idx dep (step ∷ steps) =
      let r = run_step (w.step_world idx) root_url claim root idx payload step (dep ∷ []) in
      r ∷ run_steps (suc idx) (error_of r.result) steps

  -- The uploads from the one with index `idx` on, after the last step sent `leaf`.
  unfoldable pub run_uploads : ℕ → ℕ → Option Error → List Artifact → List (Run (Unit {0}))
  run_uploads winner idx leaf [] = []
  run_uploads winner idx leaf (a ∷ artifacts) =
      upload_artifact (w.file_world idx) root claim.expires a
        ((if idx == winner then leaf else none) ∷ [])
      ∷ run_uploads winner (suc idx) leaf artifacts

-- What the last of the steps sent; with no step, the closed `startCh` gives nil.
abbrev pub leaf_of : Option Error → List (Run (Unit {0})) → Option Error
leaf_of dep [] = dep
leaf_of dep (r ∷ rs) = leaf_of (error_of r.result) rs

-- The goroutine that gathers the leaves: the first error, in their order.
abbrev pub gather : List (Run (Unit {0})) → Option Error
gather [] = none
gather (r ∷ rs) = elim (error_of r.result) [ none ↦ gather rs | some e ↦ some e ]

-- The leaves are the uploads or, if there are none, the last step.
abbrev pub gather_leaves : List Artifact → Option Error → List (Run (Unit {0})) → Option Error
gather_leaves [] leaf uploads = leaf
gather_leaves (a ∷ artifacts) leaf uploads = gather uploads

-- Which channel of the final `select` is ready first: that of the leaves, or that of the proxy
-- container, with the exit code and the error of its run.
pub data Race : Type 0 where
  leaves_first : Race
  proxy_first : ℕ × Option Error → Race

-- `watchContainer`: the error of the run is sent on, and the exit code only logged.
abbrev pub watch_container : ℕ × Option Error → Option Error
watch_container (exit_code, e) = e

abbrev pub pipeline : TaskWorld → String → TaskClaim → String → Payload → ℕ → Race → Option Error
pipeline w root_url claim root payload winner (proxy_first run) = watch_container run
pipeline w root_url claim root payload winner leaves_first =
    let leaf = leaf_of none (run_steps w root_url claim root payload 0 none payload.steps) in
    gather_leaves payload.artifacts leaf
      (run_uploads w root_url claim root payload winner 0 leaf payload.artifacts)

abbrev pub sandbox_name : TaskClaim → String
sandbox_name claim =
    append "taskcluster_" (append claim.task_id (append "_" (decimal claim.run_id)))

abbrev pub proxy_spec : String → String → TaskClaim → ContainerSpec
proxy_spec root_url proxy_image claim = record {
  name = "taskcluster-proxy";
  image = proxy_image;
  entrypoint = "/taskcluster-proxy" ∷ [];
  command = [];
  env =
      ("TASKCLUSTER_ROOT_URL", root_url)
      ∷ ("TASKCLUSTER_CLIENT_ID", claim.credentials.client_id)
      ∷ ("TASKCLUSTER_ACCESS_TOKEN", claim.credentials.access_token)
      ∷ ("TASKCLUSTER_CERTIFICATE", claim.credentials.certificate)
      ∷ [];
  working_dir = "";
  volumes = workspace_dir ∷ "/home" ∷ "/root" ∷ [];
  binds = [];
  privileged = Bool.false;
  pod_with = none;
}

-- An error as an internal error of the worker, behind a text.
abbrev pub or_internal {ℓ} : {A : Type ℓ} → String → Result A → Result A
or_internal text (ok a) = ok a
or_internal text (err e) = err (internal_error (wrapped text e))

abbrev pub or_malformed {ℓ} : {A : Type ℓ} → Result A → Result A
or_malformed (ok a) = ok a
or_malformed (err e) = err (malformed_payload e)

-- The calls are those of the goroutine of `runTaskLogic` itself. `decoded` is the payload that
-- `json.Unmarshal` finds in the claim.
unfoldable pub run_task_logic :
    TaskWorld → String → String → TaskClaim → Result Payload → ℕ → Race → Run (Unit {0})
run_task_logic w root_url proxy_image claim decoded winner race = do
  payload ← record { calls = []; result = or_malformed decoded }
  let name = sandbox_name claim
  call (creates_sandbox name) (or_internal "failed to start sandbox: " (w.create_sandbox name))
  finally
      (do
        call (pulls proxy_image)
            (or_internal "failed to pull taskcluster-oroxy: " (check (w.pull_image proxy_image)))
        let spec = proxy_spec root_url proxy_image claim
        root ←
            call (creates spec)
              (or_internal "failed to create taskcluster-proxy: " (w.create_container spec))
        finally
            (record {
              calls = [];
              result = check (pipeline w root_url claim root payload winner race);
            })
            (removes root))
      closes_sandbox
