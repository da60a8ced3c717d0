-- ===== src/Worker/Logic/Cleanup.antt =====
-- What `runTaskLogic` of internal/worker/run.go leaves behind, and the errors it reports.
use taskcluster_multistage_d.Common.{ℕ, ◌≡◌, refl, Option, none, some, [], ◌∷◌, String, arith}
use taskcluster_multistage_d.Exception.{Error, wrapped, internal_error, malformed_payload}
use taskcluster_multistage_d.Payload.{Payload}
use taskcluster_multistage_d.Worker.Claim.{TaskClaim}
use taskcluster_multistage_d.Worker.Calls.{
  pulls, creates, removes, creates_sandbox, closes_sandbox, Result, ok, err, Run, check,
}
use taskcluster_multistage_d.Worker.Logic.{
  TaskWorld, Race, pipeline, run_task_logic, sandbox_name, proxy_spec,
}

-- What the task's own goroutine does to the sandbox and the proxy container, with the result.
pub data Leaves (w : TaskWorld) (root_url proxy_image : String) (claim : TaskClaim) (winner : ℕ)
    (race : Race) (decoded : Result Payload) (r : Run (Unit {0})) : Type 0 where
  malformed :
      (e : Error)
      → decoded ≡ err e
      → r.calls ≡ []
      → r.result ≡ err (malformed_payload e)
      → Leaves w root_url proxy_image claim winner race decoded r
  no_sandbox :
      (e : Error)
      → w.create_sandbox (sandbox_name claim) ≡ err e
      → r.calls ≡ creates_sandbox (sandbox_name claim) ∷ []
      → r.result ≡ err (internal_error (wrapped "failed to start sandbox: " e))
      → Leaves w root_url proxy_image claim winner race decoded r
  no_image :
      (e : Error)
      → w.pull_image proxy_image ≡ some e
      → r.calls ≡ creates_sandbox (sandbox_name claim) ∷ pulls proxy_image ∷ closes_sandbox ∷ []
      → r.result ≡ err (internal_error (wrapped "failed to pull taskcluster-oroxy: " e))
      → Leaves w root_url proxy_image claim winner race decoded r
  no_proxy :
      (e : Error)
      → w.create_container (proxy_spec root_url proxy_image claim) ≡ err e
      → r.calls
        ≡ creates_sandbox (sandbox_name claim)
          ∷ pulls proxy_image
          ∷ creates (proxy_spec root_url proxy_image claim)
          ∷ closes_sandbox
          ∷ []
      → r.result ≡ err (internal_error (wrapped "failed to create taskcluster-proxy: " e))
      → Leaves w root_url proxy_image claim winner race decoded r
  cleaned :
      (payload : Payload) (root : String)
      → decoded ≡ ok payload
      → w.create_container (proxy_spec root_url proxy_image claim) ≡ ok root
      → r.calls
        ≡ creates_sandbox (sandbox_name claim)
          ∷ pulls proxy_image
          ∷ creates (proxy_spec root_url proxy_image claim)
          ∷ removes root
          ∷ closes_sandbox
          ∷ []
      → r.result ≡ check (pipeline w root_url claim root payload winner race)
      → Leaves w root_url proxy_image claim winner race decoded r

-- However a task's logic ends, the calls of its own goroutine are one of these: none, with the
-- error `malformed-payload`, if the payload cannot be decoded; the sandbox that fails; a sandbox
-- that is closed after the proxy's image or container could not be had, these three with
-- `internal-error`; or the sandbox, the image and the proxy container are had, and the container
-- is removed and then the sandbox closed, with the result of the steps, the uploads or the proxy's
-- run.
pub run_task_logic-Leaves :
    (w : TaskWorld) (root_url proxy_image : String) (claim : TaskClaim) (decoded : Result Payload)
    (winner : ℕ) (race : Race)
    → Leaves w root_url proxy_image claim winner race decoded
        (run_task_logic w root_url proxy_image claim decoded winner race)
unfolding run_task_logic
run_task_logic-Leaves w root_url proxy_image claim decoded winner race = by_payload decoded refl
  where
    r : Run (Unit {0})
    r = run_task_logic w root_url proxy_image claim decoded winner race

    L : Type 0
    L = Leaves w root_url proxy_image claim winner race decoded r

    by_proxy :
        (payload : Payload)
        → decoded ≡ ok payload
        → w.create_sandbox (sandbox_name claim) ≡ ok tt
        → w.pull_image proxy_image ≡ none
        → (c : Result String) → w.create_container (proxy_spec root_url proxy_image claim) ≡ c
        → L
    by_proxy payload d s p (ok root) c = cleaned payload root d c (ground arith) (ground arith)
    by_proxy payload d s p (err e) c = no_proxy e c (ground arith) (ground arith)

    by_pull :
        (payload : Payload)
        → decoded ≡ ok payload
        → w.create_sandbox (sandbox_name claim) ≡ ok tt
        → (p : Option Error) → w.pull_image proxy_image ≡ p
        → L
    by_pull payload d s none p = by_proxy payload d s p _ refl
    by_pull payload d s (some e) p = no_image e p (ground arith) (ground arith)

    by_sandbox :
        (payload : Payload)
        → decoded ≡ ok payload
        → (s : Result (Unit {0})) → w.create_sandbox (sandbox_name claim) ≡ s
        → L
    by_sandbox payload d (ok u) s = by_pull payload d s _ refl
    by_sandbox payload d (err e) s = no_sandbox e s (ground arith) (ground arith)

    by_payload : (d : Result Payload) → decoded ≡ d → L
    by_payload (ok payload) d = by_sandbox payload d _ refl
    by_payload (err e) d = malformed e d (ground arith) (ground arith)
