-- ===== src/Worker/Step.antt =====
-- internal/worker/run.go: `resolveValueFrom` and `runStep`. The sandbox, the secrets service and
-- gjson answer through a `World`; log lines are left out.
pub mod Env
pub mod Halves
pub mod Outcome
use Prim.Native.String.{◌++◌ as append}
use taskcluster_multistage_d.Common.{
  ℕ, Bool, true, false, not, Option, none, some, List, [], ◌∷◌, ◌++◌, String, ◌==◌, if◌then◌else◌,
  str_eq, insert, is_abs, join_rooted, decimal,
}
use taskcluster_multistage_d.Exception.{Error, plain}
use taskcluster_multistage_d.Payload.{ValueFromSecret, ValueFrom, EnvVar, Step, Payload}
use taskcluster_multistage_d.Cri.{ContainerSpec}
use taskcluster_multistage_d.Worker.Claim.{TaskClaim}
use taskcluster_multistage_d.Worker.Calls.{
  Call, pulls, gets_secret, creates, runs, removes, Result, ok, err, Run, pure, fail, call, finally,
  then_run, ◌>>=◌, ◌>>◌, check,
}

-- How everything outside answers one step: the pull of an image, the secret of a name (its JSON),
-- the value of a path in a JSON text, the id of a created container, and the exit code and the error
-- of running a container.
pub record World : Type 0 where
  pub pull_image : String → Option Error
  pub get_secret : String → Result String
  pub gjson_get : String → String → String
  pub create_container : ContainerSpec → Result String
  pub run_container : String → ℕ × Option Error

unfoldable pub resolve_value_from : World → Option ValueFrom → Run String
resolve_value_from w none = pure ""
resolve_value_from w (some from) = elim from.value_from_secret [
  | none ↦ pure ""
  | some vfs ↦ call (gets_secret vfs.secret_name) (w.get_secret vfs.secret_name) >>= λ secret.
      pure (w.gjson_get secret vfs.path)
]

-- The entries that every step has.
abbrev pub builtin_env : String → TaskClaim → List (String × String)
builtin_env root_url claim =
    ("TASKCLUSTER_ROOT_URL", root_url)
    ∷ ("TASKCLUSTER_PROXY_URL", "http://localhost:8080/")
    ∷ ("TASK_GROUP_ID", claim.task_group_id)
    ∷ ("TASK_ID", claim.task_id)
    ∷ ("RUN_ID", decimal claim.run_id)
    ∷ []

-- The body of the loop over the variables, for one of them.
unfoldable pub add_env : World → EnvVar → List (String × String) → Run (List (String × String))
unfolding resolve_value_from
add_env w e env = resolve_value_from w e.value_from >>= λ value.
    pure (insert e.name (if str_eq e.value "" then value else e.value) env)

-- The loop: the payload's variables first, then the step's.
unfoldable pub add_envs :
    World → List EnvVar → List (String × String) → Run (List (String × String))
unfolding add_env
add_envs w [] env = pure env
add_envs w (e ∷ es) env = add_env w e env >>= add_envs w es

abbrev pub workspace_dir : String
workspace_dir = "/workspace"

unfoldable pub working_dir_of : String → String
unfolding is_abs join_rooted
working_dir_of dir =
    if str_eq dir ""
    then workspace_dir
    else if is_abs dir
    then dir
    else join_rooted ("workspace" ∷ []) dir

abbrev pub step_spec : ℕ → Step → List (String × String) → String → ContainerSpec
step_spec step_idx step env root = record {
  name = append "step-" (decimal step_idx);
  image = step.image;
  entrypoint = step.command;
  command = step.args;
  env = env;
  working_dir = working_dir_of step.working_dir;
  volumes = [];
  binds = "/var/run/docker.sock:/var/run/docker.sock" ∷ [];
  privileged = step.privileged;
  pod_with = some root;
}

-- `step.Pull == nil || *step.Pull`.
abbrev pub wants_pull : Option Bool → Bool
wants_pull none = true
wants_pull (some b) = b

abbrev pub pull_step : World → Step → Run (Unit {0})
pull_step w step =
    if wants_pull step.pull
    then call (pulls step.image) (check (w.pull_image step.image))
    else pure tt

-- The values received from the channels of the dependencies, up to the first error.
abbrev pub wait_deps : List (Option Error) → Run (Unit {0})
wait_deps [] = pure tt
wait_deps (none ∷ deps) = wait_deps deps
wait_deps (some e ∷ deps) = fail e

-- `if exitCode != 0 { err = … }`.
abbrev pub exit_result : ℕ × Option Error → Result (Unit {0})
exit_result (code, e) =
    if code == 0 then check e else err (plain (append "exited with code " (decimal code)))

-- `cleanupContainer`: an error of the removal is logged, and nothing else comes of it.
abbrev pub cleanup_container : String → Call
cleanup_container id = removes id

-- The container runs, and is removed at the end whatever comes of it.
abbrev pub run_and_remove : World → String → Run (Unit {0})
run_and_remove w id =
    finally (call (runs id) (exit_result (w.run_container id))) (cleanup_container id)

-- `runStep`: the result is the value sent to `ch`, which is then closed.
unfoldable pub run_step :
    World → String → TaskClaim → String → ℕ → Payload → Step → List (Option Error) → Run (Unit {0})
unfolding working_dir_of
run_step w root_url claim root step_idx payload step deps = do
  pull_step w step
  wait_deps deps
  env ← add_envs w (payload.env ++ step.env) (builtin_env root_url claim)
  let spec = step_spec step_idx step env root
  id ← call (creates spec) (w.create_container spec)
  run_and_remove w id
