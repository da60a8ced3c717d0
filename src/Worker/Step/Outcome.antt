-- ===== src/Worker/Step/Outcome.antt =====
-- How `runStep` of internal/worker/run.go ends.
use taskcluster_multistage_d.Common.{
  ℕ, suc, zero, ◌≡◌, ◌↔◌, refl, ◌∙◌, ap, true, Option, none, some, List, [], ◌∷◌, ◌++◌, String,
  arith, replicate,
}
use taskcluster_multistage_d.Exception.{Error}
use taskcluster_multistage_d.Payload.{Step, Payload}
use taskcluster_multistage_d.Cri.{ContainerSpec}
use taskcluster_multistage_d.Worker.Claim.{TaskClaim}
use taskcluster_multistage_d.Worker.Calls.{
  Call, creates, runs, removes, Result, ok, err, Run, then_run, ◌>>=◌, call, check, fail,
}
use taskcluster_multistage_d.Worker.Step.{
  World, add_envs, pull_step, wants_pull, wait_deps, run_step, builtin_env, step_spec, exit_result,
  run_and_remove,
}
use taskcluster_multistage_d.Worker.Step.Env.{bind-ok, bind_result}
use taskcluster_multistage_d.Worker.Step.Halves.{
  only_reads-bind, pull_step-only_reads, only_reads, prepare, contain, run_step-prepare,
  prepare-only_reads,
}

-- What a step does to containers: nothing; a creation that fails; or it creates one container, runs
-- it, and removes it.
pub data Handles (w : World) (spec_of : List (String × String) → ContainerSpec)
    (envs : Result (List (String × String))) (r : Run (Unit {0})) : Type 0 where
  untouched : (e : Error) → only_reads r.calls ≡ true → r.result ≡ err e → Handles w spec_of envs r
  create_fails :
      (front : List Call) (env : List (String × String)) (e : Error)
      → only_reads front ≡ true
      → envs ≡ ok env
      → w.create_container (spec_of env) ≡ err e
      → r.calls ≡ front ++ creates (spec_of env) ∷ []
      → r.result ≡ err e
      → Handles w spec_of envs r
  removed :
      (front : List Call) (env : List (String × String)) (id : String)
      → only_reads front ≡ true
      → envs ≡ ok env
      → w.create_container (spec_of env) ≡ ok id
      → r.calls ≡ front ++ creates (spec_of env) ∷ runs id ∷ removes id ∷ []
      → r.result ≡ exit_result (w.run_container id)
      → Handles w spec_of envs r

contain-Handles :
    (w : World) (root : String) (step_idx : ℕ) (step : Step) (calls : List Call)
    (r envs : Result (List (String × String)))
    → only_reads calls ≡ true
    → ((env : List (String × String)) → r ≡ ok env → envs ≡ ok env)
    → Handles w
        (λ env. step_spec step_idx step env root)
        envs
        (then_run calls r (contain w root step_idx step))
contain-Handles w root step_idx step calls (err e) envs reads same = untouched e reads refl
contain-Handles w root step_idx step calls (ok env) envs reads same =
    created (w.create_container (step_spec step_idx step env root)) refl
  where
    spec : ContainerSpec
    spec = step_spec step_idx step env root

    created :
        (made : Result String)
        → w.create_container spec ≡ made
        → Handles w
            (λ env. step_spec step_idx step env root)
            envs
            (then_run calls (ok env) (contain w root step_idx step))
    created (ok id) e = removed calls env id reads (same env refl) e (ground arith) (ground arith)
    created (err x) e =
        create_fails calls env x reads (same env refl) e (ground arith) (ground arith)

prepare-ok :
    (w : World) (root_url : String) (claim : TaskClaim) (payload : Payload) (step : Step)
    (deps : List (Option Error)) (env : List (String × String))
    → (prepare w root_url claim payload step deps).result ≡ ok env
    → ((pull_step w step).result ≡ ok tt)
      × ((wait_deps deps).result ≡ ok tt)
      × ((add_envs w (payload.env ++ step.env) (builtin_env root_url claim)).result ≡ ok env)
prepare-ok w root_url claim payload step deps env h =
    let (_, pulled, rest) = bind-ok (pull_step w step) _ env h in
    let (_, waited, envs) = bind-ok (wait_deps deps) _ env rest in (pulled, waited, envs)

-- A step creates at most one container, with the environment of its payload and its own variables;
-- it does so after all its other calls, which touch no container. A container that was created is
-- run once and then removed, and the result is that of its run; in every other case the step fails.
pub run_step-Handles :
    (w : World) (root_url : String) (claim : TaskClaim) (root : String) (step_idx : ℕ)
    (payload : Payload) (step : Step) (deps : List (Option Error))
    → Handles w
        (λ env. step_spec step_idx step env root)
        (add_envs w (payload.env ++ step.env) (builtin_env root_url claim)).result
        (run_step w root_url claim root step_idx payload step deps)
run_step-Handles w root_url claim root step_idx payload step deps =
    rw (run_step-prepare w root_url claim root step_idx payload step deps) (
      contain-Handles w root step_idx step (prepare w root_url claim payload step deps).calls
        (prepare w root_url claim payload step deps).result _
        (prepare-only_reads w root_url claim root step_idx payload step deps)
        (λ env h. (prepare-ok w root_url claim payload step deps env h).2))

abbrev pub AllNone : List (Option Error) → Type 0
AllNone [] = Unit {0}
AllNone (d ∷ ds) = (d ≡ none) × AllNone ds

wait_deps-ok : (deps : List (Option Error)) → ((wait_deps deps).result ≡ ok tt) ↔ AllNone deps
wait_deps-ok [] = (λ _. tt, λ _. refl)
wait_deps-ok (none ∷ deps) = (λ h. (refl, (wait_deps-ok deps).0 h), λ h. (wait_deps-ok deps).1 h.1)
wait_deps-ok (some e ∷ deps) = (λ h. cc, λ h. cc)

exit_result-ok :
    (code : ℕ) (e : Option Error)
    → exit_result (code, e) ≡ ok tt
    → ◌≡◌ {A = ℕ × Option Error} (code, e) (0, none)
exit_result-ok zero none h = refl
exit_result-ok (suc code) none h = ground arith
exit_result-ok zero (some e) h = ground arith
exit_result-ok (suc code) (some e) h = ground arith

check-ok : (e : Option Error) → check e ≡ ok tt → e ≡ none
check-ok none h = refl
check-ok (some e) h = cc

pull_step-ok :
    (w : World) (step : Step)
    → (pull_step w step).result ≡ ok tt
    → wants_pull step.pull ≡ true
    → w.pull_image step.image ≡ none
pull_step-ok w step h wants = check-ok (w.pull_image step.image) (ground arith)

ok-pull_step :
    (w : World) (step : Step)
    → (wants_pull step.pull ≡ true → w.pull_image step.image ≡ none)
    → (pull_step w step).result ≡ ok tt
ok-pull_step w step h = ground arith

-- What it takes for a step to succeed.
pub record Succeeds (w : World) (root_url : String) (claim : TaskClaim) (root : String)
    (step_idx : ℕ) (payload : Payload) (step : Step) (deps : List (Option Error)) : Type 0 where
  pub pulled : (wants_pull step.pull ≡ true) → w.pull_image step.image ≡ none
  pub waited : AllNone deps
  pub env : List (String × String)
  pub resolved : (add_envs w (payload.env ++ step.env) (builtin_env root_url claim)).result ≡ ok env
  pub id : String
  pub created : w.create_container (step_spec step_idx step env root) ≡ ok id
  pub exited : w.run_container id ≡ (0, none)

-- A step sends nil to its channel exactly when the image is pulled or not asked for, every
-- dependency sent nil, all variables resolve, the container is created, and its run ends with exit
-- code 0 and no error.
pub run_step-ok_iff :
    (w : World) (root_url : String) (claim : TaskClaim) (root : String) (step_idx : ℕ)
    (payload : Payload) (step : Step) (deps : List (Option Error))
    → ((run_step w root_url claim root step_idx payload step deps).result ≡ ok tt)
      ↔ Succeeds w root_url claim root step_idx payload step deps
unfolding run_step
run_step-ok_iff w root_url claim root step_idx payload step deps = (forth, back)
  where
    forth :
        (run_step w root_url claim root step_idx payload step deps).result ≡ ok tt
        → Succeeds w root_url claim root step_idx payload step deps
    forth h =
        let (_, pulled, h₁) = bind-ok (pull_step w step) _ tt h in
        let (_, waited, h₂) = bind-ok (wait_deps deps) _ tt h₁ in
        let (env, resolved, h₃) =
          bind-ok (add_envs w (payload.env ++ step.env) (builtin_env root_url claim)) _ tt h₂ in
        let spec = step_spec step_idx step env root in
        let (id, created, exited) =
          bind-ok (call (creates spec) (w.create_container spec)) (run_and_remove w) tt h₃ in
        record {
          pulled = pull_step-ok w step pulled;
          waited = (wait_deps-ok deps).0 waited;
          env = env;
          resolved = resolved;
          id = id;
          created = created;
          exited = exit_result-ok (w.run_container id).0 (w.run_container id).1 exited;
        }

    back :
        Succeeds w root_url claim root step_idx payload step deps
        → (run_step w root_url claim root step_idx payload step deps).result ≡ ok tt
    back s =
        let spec = step_spec step_idx step s.env root in
        bind_result (pull_step w step) _ tt (ok-pull_step w step s.pulled)
        ∙ bind_result (wait_deps deps) _ tt ((wait_deps-ok deps).1 s.waited)
        ∙ bind_result (add_envs w (payload.env ++ step.env) (builtin_env root_url claim)) _ s.env
            s.resolved
        ∙ bind_result (call (creates spec) (w.create_container spec)) (run_and_remove w) s.id
            s.created
        ∙ ap exit_result s.exited

wait_deps-fail :
    (k : ℕ) (e : Error) (rest : List (Option Error))
    → wait_deps (replicate k none ++ some e ∷ rest) ≡ fail e
wait_deps-fail zero e rest = refl
wait_deps-fail (suc k) e rest = wait_deps-fail k e rest

fails_second {ℓ} :
    {A : Type ℓ} (p : Run (Unit {0})) (d : Run (Unit {0})) (g : Unit {0} → Run A) (e : Error)
    → p.result ≡ ok tt
    → only_reads p.calls ≡ true
    → d ≡ fail e
    → ((p >>= λ _. d >>= g).result ≡ err e) × (only_reads (p >>= λ _. d >>= g).calls ≡ true)
fails_second p d g e done reads de = (
  bind_result p (λ _. d >>= g) tt done ∙ ap (λ t. (t >>= g).result) de,
  only_reads-bind p.calls p.result (λ _. d >>= g) reads
      (λ _. ap (λ t. only_reads (t >>= g).calls) de),
)

-- A step whose image is pulled or not asked for, and one of whose dependencies sent an error, after
-- others that sent nil, sends on that error and touches no container.
pub run_step-dependency :
    (w : World) (root_url : String) (claim : TaskClaim) (root : String) (step_idx : ℕ)
    (payload : Payload) (step : Step) (k : ℕ) (e : Error) (rest : List (Option Error))
    → ((wants_pull step.pull ≡ true) → w.pull_image step.image ≡ none)
    → let r =
        run_step w root_url claim root step_idx payload step (replicate k none ++ some e ∷ rest) in
      (r.result ≡ err e) × (only_reads r.calls ≡ true)
unfolding run_step
run_step-dependency w root_url claim root step_idx payload step k e rest pulled =
    fails_second (pull_step w step) (wait_deps (replicate k none ++ some e ∷ rest)) _ e
      (ok-pull_step w step pulled) (pull_step-only_reads w step) (wait_deps-fail k e rest)
