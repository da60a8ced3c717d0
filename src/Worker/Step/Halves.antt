-- ===== src/Worker/Step/Halves.antt =====
-- The two halves of `runStep` of internal/worker/run.go: before its container is created, and from
-- there on.
use taskcluster_multistage_d.Common.{
  ℕ, ◌≡◌, refl, fun_ext, ◌∙◌, sym, ap, Bool, true, false, ◌&&◌, Option, none, some, List, [], ◌∷◌,
  ◌++◌, append_assoc, String, arith,
}
use taskcluster_multistage_d.Exception.{Error}
use taskcluster_multistage_d.Payload.{EnvVar, Step, Payload, ValueFrom}
use taskcluster_multistage_d.Worker.Claim.{TaskClaim}
use taskcluster_multistage_d.Worker.Calls.{
  Call, pulls, gets_secret, creates, Result, ok, err, Run, then_run, ◌>>=◌, ◌>>◌, call,
}
use taskcluster_multistage_d.Worker.Step.{
  World, resolve_value_from, add_env, add_envs, pull_step, wait_deps, run_step, builtin_env,
  step_spec, run_and_remove,
}

-- Calls that touch no container.
abbrev pub is_read : Call → Bool
is_read (pulls image) = true
is_read (gets_secret name) = true
is_read _ = false

abbrev pub only_reads : List Call → Bool
only_reads [] = true
only_reads (c ∷ cs) = is_read c && only_reads cs

only_reads-append :
    (xs ys : List Call) → only_reads xs ≡ true → only_reads ys ≡ true → only_reads (xs ++ ys) ≡ true
only_reads-append [] ys h k = k
only_reads-append (x ∷ xs) ys h k = ground (arith, only_reads-append xs ys)

pub only_reads-bind {ℓ κ} :
    {A : Type ℓ} {B : Type κ} (calls : List Call) (r : Result A) (f : A → Run B)
    → only_reads calls ≡ true
    → ((a : A) → only_reads (f a).calls ≡ true)
    → only_reads (then_run calls r f).calls ≡ true
only_reads-bind calls (ok a) f h k = only_reads-append calls (f a).calls h (k a)
only_reads-bind calls (err e) f h k = h

resolve-only_reads :
    (w : World) (v : Option ValueFrom) → only_reads (resolve_value_from w v).calls ≡ true
unfolding resolve_value_from
resolve-only_reads w none = refl
resolve-only_reads w (some from) = ground arith

add_envs-only_reads :
    (w : World) (es : List EnvVar) (env : List (String × String))
    → only_reads (add_envs w es env).calls ≡ true
unfolding add_envs
add_envs-only_reads w [] env = refl
add_envs-only_reads w (e ∷ es) env =
    only_reads-bind (add_env w e env).calls (add_env w e env).result (add_envs w es) (one e env)
      (λ env'. add_envs-only_reads w es env')
  where
    one : (e : EnvVar) (env : List (String × String)) → only_reads (add_env w e env).calls ≡ true
    one e env =
        only_reads-bind (resolve_value_from w e.value_from).calls
          (resolve_value_from w e.value_from).result _ (resolve-only_reads w e.value_from)
          (λ v. refl)

wait_deps-calls : (deps : List (Option Error)) → (wait_deps deps).calls ≡ []
wait_deps-calls [] = refl
wait_deps-calls (none ∷ deps) = wait_deps-calls deps
wait_deps-calls (some e ∷ deps) = refl

pub pull_step-only_reads : (w : World) (step : Step) → only_reads (pull_step w step).calls ≡ true
pull_step-only_reads w step = ground arith

-- The part of a step before its container is created.
abbrev pub prepare :
    World → String → TaskClaim → Payload → Step → List (Option Error) → Run (List (String × String))
prepare w root_url claim payload step deps = do
  pull_step w step
  wait_deps deps
  add_envs w (payload.env ++ step.env) (builtin_env root_url claim)

abbrev pub contain : World → String → ℕ → Step → List (String × String) → Run (Unit {0})
contain w root step_idx step env = do
  let spec = step_spec step_idx step env root
  id ← call (creates spec) (w.create_container spec)
  run_and_remove w id

then_run_prefix {ℓ κ} :
    {A : Type ℓ} {B : Type κ} (xs ys : List Call) (r : Result A) (g : A → Run B)
    → then_run (xs ++ ys) r g
      ≡ record { calls = xs ++ (then_run ys r g).calls; result = (then_run ys r g).result }
then_run_prefix xs ys (ok a) g =
    λ i. record { calls = append_assoc xs ys (g a).calls i; result = (g a).result }
then_run_prefix xs ys (err e) g = refl

then_run_assoc {ℓ κ μ} :
    {A : Type ℓ} {B : Type κ} {C : Type μ} (calls : List Call) (r : Result A) (f : A → Run B)
    (g : B → Run C)
    → (then_run calls r f >>= g) ≡ then_run calls r (λ a. f a >>= g)
then_run_assoc calls (ok a) f g = then_run_prefix calls (f a).calls (f a).result g
then_run_assoc calls (err e) f g = refl

module _ (w : World) (root_url : String) (claim : TaskClaim) (root : String) (step_idx : ℕ)
    (payload : Payload) (step : Step) (deps : List (Option Error)) where
  pub run_step-prepare :
      run_step w root_url claim root step_idx payload step deps
      ≡ (prepare w root_url claim payload step deps >>= contain w root step_idx step)
  unfolding run_step
  run_step-prepare =
      let envs = add_envs w (payload.env ++ step.env) (builtin_env root_url claim) in
      let p = pull_step w step in
      let d = wait_deps deps in
      sym (
        then_run_assoc p.calls p.result (λ _. d >>= λ _. envs) (contain w root step_idx step)
        ∙ ap (λ k. then_run p.calls p.result k)
            (fun_ext
              λ _. then_run_assoc d.calls d.result (λ _. envs) (contain w root step_idx step)))

  pub prepare-only_reads : only_reads (prepare w root_url claim payload step deps).calls ≡ true
  prepare-only_reads =
      only_reads-bind (pull_step w step).calls (pull_step w step).result _
        (pull_step-only_reads w step)
        λ _.
          only_reads-bind (wait_deps deps).calls (wait_deps deps).result _
            (rw (wait_deps-calls deps) refl)
            λ _. add_envs-only_reads w (payload.env ++ step.env) (builtin_env root_url claim)
