-- ===== src/Worker/Logic/Success.antt =====
-- When `runTaskLogic` of internal/worker/run.go succeeds.
use taskcluster_multistage_d.Common.{
  ℕ, ◌<◌, ◌≡◌, ◌≢◌, ◌↔◌, refl, Option, none, some, [], String, length,
}
use taskcluster_multistage_d.Exception.{Error}
use taskcluster_multistage_d.Payload.{Payload}
use taskcluster_multistage_d.Worker.Claim.{TaskClaim}
use taskcluster_multistage_d.Worker.Calls.{
  pulls, creates, creates_sandbox, Result, ok, err, Run, call, check,
}
use taskcluster_multistage_d.Worker.Step.Env.{bind-ok}
use taskcluster_multistage_d.Worker.Logic.{
  TaskWorld, Race, leaves_first, proxy_first, run_steps, run_uploads, pipeline, run_task_logic,
  sandbox_name, proxy_spec, or_internal, or_malformed,
}
use taskcluster_multistage_d.Worker.Logic.Pipeline.{AllOk, pipeline-none_iff}

-- How the final `select` gives nil: every step and every upload has sent nil, or the run of the proxy
-- container has ended first, without an error of the container runtime.
abbrev pub Finishes : TaskWorld → String → TaskClaim → String → Payload → ℕ → Race → Type 0
Finishes w root_url claim root payload winner leaves_first =
    AllOk (run_steps w root_url claim root payload 0 none payload.steps)
    × AllOk (run_uploads w root_url claim root payload winner 0 none payload.artifacts)
Finishes w root_url claim root payload winner (proxy_first (exit_code, e)) = e ≡ none

-- All that has to go well.
pub record Completes (w : TaskWorld) (root_url proxy_image : String) (claim : TaskClaim)
    (decoded : Result Payload) (winner : ℕ) (race : Race) : Type 0 where
  payload : Payload
  root : String
  valid : decoded ≡ ok payload
  in_sandbox : w.create_sandbox (sandbox_name claim) ≡ ok tt
  pulled : w.pull_image proxy_image ≡ none
  proxied : w.create_container (proxy_spec root_url proxy_image claim) ≡ ok root
  finishes : Finishes w root_url claim root payload winner race

or_malformed-ok : (r : Result Payload) (a : Payload) → or_malformed r ≡ ok a → r ≡ ok a
or_malformed-ok (ok b) a h = h
or_malformed-ok (err e) a h = absurd (cc)

or_internal-ok :
    {A : Type 0} (text : String) (r : Result A) (a : A) → or_internal text r ≡ ok a → r ≡ ok a
or_internal-ok text (ok b) a h = h
or_internal-ok text (err e) a h = absurd (cc)

check-none : (e : Option Error) → check e ≡ ok tt → e ≡ none
check-none none h = refl
check-none (some e) h = absurd (cc)

module _ (w : TaskWorld) (root_url : String) (claim : TaskClaim) (root : String) (payload : Payload)
    (winner : ℕ) (lt : payload.artifacts ≢ [] → winner < length payload.artifacts) where
  pipeline-Finishes :
      (race : Race)
      → (pipeline w root_url claim root payload winner race ≡ none)
        ↔ Finishes w root_url claim root payload winner race
  pipeline-Finishes leaves_first = pipeline-none_iff w root_url claim root payload winner lt
  pipeline-Finishes (proxy_first (exit_code, e)) = (λ h. h, λ h. h)

module _ (w : TaskWorld) (root_url proxy_image : String) (claim : TaskClaim)
    (decoded : Result Payload) (winner : ℕ) (race : Race)
    (lt : (payload : Payload)
      → decoded ≡ ok payload
      → payload.artifacts ≢ []
      → winner < length payload.artifacts) where
  abbrev logic : Run (Unit {0})
  logic = run_task_logic w root_url proxy_image claim decoded winner race

  logic-Completes :
      logic.result ≡ ok tt → Completes w root_url proxy_image claim decoded winner race
  unfolding run_task_logic
  logic-Completes h =
      let (payload, read, h₁) =
        bind-ok (record { calls = []; result = or_malformed decoded }) _ tt h in
      let valid = or_malformed-ok decoded payload read in
      let (_, made, h₂) = bind-ok (call (creates_sandbox (sandbox_name claim)) _) _ tt h₁ in
      let (_, pulled, h₃) = bind-ok (call (pulls proxy_image) _) _ tt h₂ in
      let (root, proxied, h₄) =
        bind-ok (call (creates (proxy_spec root_url proxy_image claim)) _) _ tt h₃ in
      record {
        payload = payload;
        root = root;
        valid = valid;
        in_sandbox = or_internal-ok _ _ tt made;
        pulled = check-none _ (or_internal-ok _ _ tt pulled);
        proxied = or_internal-ok _ _ root proxied;
        finishes =
            (pipeline-Finishes w root_url claim root payload winner (lt payload valid) race).0
              (check-none _ h₄);
      }

  Completes-logic :
      Completes w root_url proxy_image claim decoded winner race → logic.result ≡ ok tt
  unfolding run_task_logic
  Completes-logic c =
      let ended =
        (pipeline-Finishes w root_url claim c.root c.payload winner (lt c.payload c.valid) race).1
          c.finishes in
      rw (c.valid, c.in_sandbox, c.pulled, c.proxied, ended) refl

-- `runTaskLogic` returns nil exactly if the payload can be decoded, the sandbox is there, the image of the proxy
-- is pulled, its container is created, and either the leaves are ready first and every step and every upload
-- has sent nil, or the run of the proxy is over first and the container runtime gave no error for it, whatever its
-- exit code. If there are artifacts, one of them receives the value of the last step.
pub run_task_logic-ok_iff :
    (w : TaskWorld) (root_url proxy_image : String) (claim : TaskClaim) (decoded : Result Payload)
    (winner : ℕ) (race : Race)
    → ((payload : Payload)
        → decoded ≡ ok payload
        → payload.artifacts ≢ []
        → winner < length payload.artifacts)
    → ((run_task_logic w root_url proxy_image claim decoded winner race).result ≡ ok tt)
      ↔ Completes w root_url proxy_image claim decoded winner race
run_task_logic-ok_iff w root_url proxy_image claim decoded winner race lt = (
  logic-Completes w root_url proxy_image claim decoded winner race lt,
  Completes-logic w root_url proxy_image claim decoded winner race lt,
)
