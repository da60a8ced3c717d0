-- ===== src/Worker/Sandboxes.antt =====
-- `runTaskLogic` of internal/worker/run.go with the sandboxes of internal/cri/dind.go: what a task does
-- to the runtime of the host, where the containers of docker-in-docker are.
use taskcluster_multistage_d.Common.{
  ℕ, ◌≡◌, refl, sym, ap, ◌∙◌, Option, none, some, List, [], ◌∷◌, ◌++◌, append-nil, String,
}
use taskcluster_multistage_d.Exception.{Error, plain}
use taskcluster_multistage_d.Payload.{Payload}
use taskcluster_multistage_d.Cri.Dind.{
  Action, DindWorld, Ending, returns, fails, crashes, sandbox_create, close_sandbox,
}
use taskcluster_multistage_d.Cri.Dind.Cleanup.{
  kept, removed, removed-append, created, sandbox_create-removed,
}
use taskcluster_multistage_d.Worker.Claim.{TaskClaim}
use taskcluster_multistage_d.Worker.Calls.{
  Call, pulls, gets_secret, creates, runs, removes, reads_files, closes_files, creates_artifact,
  puts_artifact, creates_sandbox, closes_sandbox, Result, ok, err, Run,
}
use taskcluster_multistage_d.Worker.Logic.{TaskWorld, Race, run_task_logic, sandbox_name}
use taskcluster_multistage_d.Worker.Logic.Cleanup.{
  Leaves, malformed, no_sandbox, no_image, no_proxy, cleaned, run_task_logic-Leaves,
}

-- The sandbox or the error. `SandboxCreate` does not crash where `backoff.Retry` does what it should.
abbrev pub result_of : {Pair : Type 0} → Ending Pair → Result (Unit {0})
result_of (returns s) = ok tt
result_of (fails e) = err e
result_of crashes = err (plain "crashed")

-- `Close` of the sandbox that was returned.
abbrev pub close_ending : {Pair : Type 0} → Ending Pair → List Action
unfolding close_sandbox
close_ending (returns s) = close_sandbox s ∷ []
close_ending (fails e) = []
close_ending crashes = []

module _ {Pair : Type 0} (dw : DindWorld Pair) (image : String) where
  -- A task whose sandboxes are made by the factory; all else is answered as in `w`.
  abbrev pub in_dind : TaskWorld → TaskWorld
  in_dind w = record w { create_sandbox = λ name. result_of (sandbox_create dw image name).ending }

  -- What the calls of a task do on the host: the others go to the Docker inside the sandbox, to the
  -- queue or to the network. `name` is that of the sandbox.
  abbrev pub host_actions : String → List Call → List Action
  unfolding close_sandbox
  host_actions name [] = []
  host_actions name (creates_sandbox n ∷ calls) =
      (sandbox_create dw image n).actions ++ host_actions name calls
  host_actions name (closes_sandbox ∷ calls) =
      close_ending (sandbox_create dw image name).ending ++ host_actions name calls
  host_actions name (pulls i ∷ calls) = host_actions name calls
  host_actions name (gets_secret i ∷ calls) = host_actions name calls
  host_actions name (creates spec ∷ calls) = host_actions name calls
  host_actions name (runs i ∷ calls) = host_actions name calls
  host_actions name (removes i ∷ calls) = host_actions name calls
  host_actions name (reads_files i path ∷ calls) = host_actions name calls
  host_actions name (closes_files ∷ calls) = host_actions name calls
  host_actions name (creates_artifact i request ∷ calls) = host_actions name calls
  host_actions name (puts_artifact i n bytes ∷ calls) = host_actions name calls

removed-close_ending : {Pair : Type 0} (e : Ending Pair) → removed (close_ending e ++ []) ≡ kept e
unfolding close_sandbox
removed-close_ending (returns s) = refl
removed-close_ending (fails e) = refl
removed-close_ending crashes = refl

kept-err : {Pair : Type 0} (o : Ending Pair) (e : Error) → result_of o ≡ err e → kept o ≡ []
kept-err (returns s) e h = cc
kept-err (fails x) e h = refl
kept-err crashes e h = refl

-- At most one container is created, so the order in which it is kept and removed does not matter.
swap-created :
    (pull : Option Error) (create : Result String) (xs ys : List String)
    → xs ++ ys ≡ created pull create
    → ys ++ xs ≡ created pull create
swap-created pull create [] ys h = append-nil ys ∙ h
swap-created pull create (x ∷ []) [] h = h
swap-created (some e) create (x ∷ xs) ys h = cc
swap-created none (err e) (x ∷ xs) ys h = cc
swap-created none (ok id) (x ∷ []) (y ∷ ys) h = cc
swap-created none (ok id) (x ∷ y ∷ xs) ys h = cc

module _ {Pair : Type 0} (dw : DindWorld Pair) (image name : String) where
  -- A sandbox that is made and closed.
  removed_closed :
      removed (
        (sandbox_create dw image name).actions
        ++ (close_ending (sandbox_create dw image name).ending ++ []))
      ≡ created dw.pull dw.create
  removed_closed =
      let o = sandbox_create dw image name in
      removed-append o.actions (close_ending o.ending ++ [])
      ∙ ap (λ t. removed o.actions ++ t) (removed-close_ending o.ending)
      ∙ swap-created dw.pull dw.create (kept o.ending) (removed o.actions)
          (sandbox_create-removed dw image name)

  -- A sandbox that cannot be made.
  removed_refused :
      (e : Error)
      → result_of (sandbox_create dw image name).ending ≡ err e
      → removed ((sandbox_create dw image name).actions ++ []) ≡ created dw.pull dw.create
  removed_refused e refused =
      let o = sandbox_create dw image name in
      ap removed (append-nil o.actions)
      ∙ sym (ap (λ t. t ++ removed o.actions) (kept-err o.ending e refused))
      ∙ sandbox_create-removed dw image name

-- When `runTaskLogic` has run a payload that could be decoded, with a sandbox of docker-in-docker, `Remove`
-- has been called exactly once for the container that was created for it on the host, if one was, however
-- the sandbox, the steps, the uploads and the proxy ended; and it has been called for nothing else there. The
-- call itself may fail.
pub run_task_logic-removed :
    {Pair : Type 0} (dw : DindWorld Pair) (image : String) (w : TaskWorld)
    (root_url proxy_image : String) (claim : TaskClaim) (payload : Payload) (winner : ℕ)
    (race : Race)
    → removed (
        host_actions dw image
          (sandbox_name claim)
          (run_task_logic
            (in_dind dw image w)
            root_url
            proxy_image
            claim
            (ok payload)
            winner
            race).calls)
      ≡ created dw.pull dw.create
unfolding host_actions
run_task_logic-removed dw image w root_url proxy_image claim payload winner race =
    settled _ (
      run_task_logic-Leaves (in_dind dw image w) root_url proxy_image claim (ok payload) winner
        race)
  where
    settled :
        (r : Run (Unit {0}))
        → Leaves (in_dind dw image w) root_url proxy_image claim winner race (ok payload) r
        → removed (host_actions dw image (sandbox_name claim) r.calls) ≡ created dw.pull dw.create
    settled r (malformed e d calls result) = cc
    settled r (no_sandbox e s calls result) =
        ap (λ cs. removed (host_actions dw image (sandbox_name claim) cs)) calls
        ∙ removed_refused dw image (sandbox_name claim) e s
    settled r (no_image e i calls result) =
        ap (λ cs. removed (host_actions dw image (sandbox_name claim) cs)) calls
        ∙ removed_closed dw image (sandbox_name claim)
    settled r (no_proxy e p calls result) =
        ap (λ cs. removed (host_actions dw image (sandbox_name claim) cs)) calls
        ∙ removed_closed dw image (sandbox_name claim)
    settled r (cleaned p root d c calls result) =
        ap (λ cs. removed (host_actions dw image (sandbox_name claim) cs)) calls
        ∙ removed_closed dw image (sandbox_name claim)
