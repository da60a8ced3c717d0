-- ===== src/Worker/Logic/Pipeline.antt =====
-- The goroutines of a task (`runTaskLogic` of internal/worker/run.go), end to end.
use taskcluster_multistage_d.Common.{
  ℕ, zero, suc, ◌+◌, ◌<◌, ◌≤◌, ◌≡◌, ◌≢◌, ◌↔◌, refl, inl, inr, ap, Option, none, some, List, [], ◌∷◌,
  String, ◌==◌, length, get_elem?, arith, Bool-cases,
}
use taskcluster_multistage_d.Exception.{Error}
use taskcluster_multistage_d.Payload.{Step, Artifact, Payload}
use taskcluster_multistage_d.Worker.Claim.{TaskClaim}
use taskcluster_multistage_d.Worker.Calls.{Result, ok, err, Run, error_of}
use taskcluster_multistage_d.Worker.Step.{run_step}
use taskcluster_multistage_d.Worker.Step.Outcome.{run_step-ok_iff}
use taskcluster_multistage_d.Worker.Artifact.{upload_artifact}
use taskcluster_multistage_d.Worker.Logic.{
  TaskWorld, run_steps, run_uploads, leaf_of, gather, gather_leaves, leaves_first, pipeline,
}

-- Every run sends nil.
abbrev pub AllOk : List (Run (Unit {0})) → Type 0
AllOk [] = Unit {0}
AllOk (r ∷ rs) = (r.result ≡ ok tt) × AllOk rs

error_of-none : (r : Result (Unit {0})) → error_of r ≡ none → r ≡ ok tt
error_of-none (ok a) h = refl
error_of-none (err e) h = cc

gather-none : (rs : List (Run (Unit {0}))) → (gather rs ≡ none) ↔ AllOk rs
gather-none [] = (λ _. tt, λ _. refl)
gather-none (r ∷ rs) = (
  λ h. ground (arith, gather-none rs, error_of-none r.result),
  λ h. ground (arith, gather-none rs),
)

leaf_of-AllOk :
    (dep : Option Error) (rs : List (Run (Unit {0})))
    → dep ≡ none
    → AllOk rs
    → leaf_of dep rs ≡ none
leaf_of-AllOk dep [] e h = e
leaf_of-AllOk dep (r ∷ rs) e h = leaf_of-AllOk (error_of r.result) rs (ap error_of h.0) h.1

module _ (w : TaskWorld) (root_url : String) (claim : TaskClaim) (root : String)
    (payload : Payload) where
  -- A step that sends nil has received nil.
  step-received :
      (idx : ℕ) (step : Step) (dep : Option Error)
      → error_of
          (run_step (w.step_world idx) root_url claim root idx payload step (dep ∷ [])).result
        ≡ none
      → dep ≡ none
  step-received idx step dep h =
      ((run_step-ok_iff (w.step_world idx) root_url claim root idx payload step (dep ∷ [])).0
        (error_of-none _ h)).waited.0

  -- The last step sends nil only if all did, and the first received nil.
  leaf-steps :
      (idx : ℕ) (dep : Option Error) (steps : List Step)
      → leaf_of dep (run_steps w root_url claim root payload idx dep steps) ≡ none
      → (dep ≡ none) × AllOk (run_steps w root_url claim root payload idx dep steps)
  unfolding run_steps
  leaf-steps idx dep [] h = (h, tt)
  leaf-steps idx dep (step ∷ steps) h =
      let (sent, later) = leaf-steps (suc idx) _ steps h in
      (step-received idx step dep sent, (error_of-none _ sent, later))

  -- The upload that receives an error does not send nil.
  uploads-winner :
      (winner idx : ℕ) (e : Error) (artifacts : List Artifact)
      → idx ≤ winner
      → winner < idx + length artifacts
      → gather (run_uploads w root_url claim root payload winner idx (some e) artifacts) ≢ none
  unfolding run_uploads upload_artifact
  uploads-winner winner idx e [] le lt h = absurd (omega arith)
  uploads-winner winner idx e (a ∷ artifacts) le lt h =
      let (first, later) =
        (gather-none
            (run_uploads w root_url claim root payload winner idx (some e) (a ∷ artifacts))).0
          h in
      elim (Bool-cases (idx == winner)) [
        | inl here ↦ ground arith
        | inr further ↦
            uploads-winner winner (suc idx) e artifacts (ground arith) (omega arith)
              ((gather-none _).1 later)
      ]

  -- What the leaves gather to, for any list of artifacts and any value of the last step.
  leaves-none :
      (winner : ℕ) (leaf : Option Error) (artifacts : List Artifact)
      → (artifacts ≢ [] → winner < length artifacts)
      → gather_leaves artifacts leaf
          (run_uploads w root_url claim root payload winner 0 leaf artifacts)
        ≡ none
      → (leaf ≡ none) × AllOk (run_uploads w root_url claim root payload winner 0 none artifacts)
  leaves-none winner none [] lt h = (refl, unfold run_uploads in tt)
  leaves-none winner none (a ∷ artifacts) lt h = (refl, (gather-none _).0 h)
  leaves-none winner (some e) [] lt h = cc
  leaves-none winner (some e) (a ∷ artifacts) lt h =
      absurd
        (uploads-winner winner 0 e (a ∷ artifacts) (omega arith) (omega (arith, lt (λ x. cc))) h)

  none-leaves :
      (winner : ℕ) (artifacts : List Artifact)
      → AllOk (run_uploads w root_url claim root payload winner 0 none artifacts)
      → gather_leaves artifacts none
          (run_uploads w root_url claim root payload winner 0 none artifacts)
        ≡ none
  none-leaves winner [] h = refl
  none-leaves winner (a ∷ artifacts) h = (gather-none _).1 h

other-at :
    (w : TaskWorld) (root_url : String) (claim : TaskClaim) (root : String) (payload : Payload)
    (winner : ℕ) (leaf : Option Error) (idx : ℕ) (artifacts : List Artifact) (j : ℕ) (a : Artifact)
    → get_elem? artifacts j ≡ some a
    → idx + j ≢ winner
    → get_elem? (run_uploads w root_url claim root payload winner idx leaf artifacts) j
      ≡ some (upload_artifact (w.file_world (idx + j)) root claim.expires a (none ∷ []))
unfolding run_uploads
other-at w root_url claim root payload winner leaf idx [] j a h ne = cc
other-at w root_url claim root payload winner leaf idx (b ∷ artifacts) zero a h ne =
    let start : idx + 0 ≡ idx = omega arith in rw start (ground arith)
other-at w root_url claim root payload winner leaf idx (b ∷ artifacts) (suc j) a h ne =
    let next : idx + suc j ≡ suc idx + j = omega arith in
    rw next (
      other-at w root_url claim root payload winner leaf (suc idx) artifacts j a h
        (λ x. ne (omega arith)))

-- When the leaves are ready first, the task's error is nil exactly when every step and every upload
-- sends nil, whichever upload it is that receives the value of the last step.
pub pipeline-none_iff :
    (w : TaskWorld) (root_url : String) (claim : TaskClaim) (root : String) (payload : Payload)
    (winner : ℕ)
    → (payload.artifacts ≢ [] → winner < length payload.artifacts)
    → (pipeline w root_url claim root payload winner leaves_first ≡ none) ↔ (
        AllOk (run_steps w root_url claim root payload 0 none payload.steps)
        × AllOk (run_uploads w root_url claim root payload winner 0 none payload.artifacts))
pipeline-none_iff w root_url claim root payload winner lt = (forth, back)
  where
    steps : List (Run (Unit {0}))
    steps = run_steps w root_url claim root payload 0 none payload.steps

    forth :
        pipeline w root_url claim root payload winner leaves_first ≡ none
        → AllOk steps
          × AllOk (run_uploads w root_url claim root payload winner 0 none payload.artifacts)
    forth h =
        let (sent, uploads) =
          leaves-none w root_url claim root payload winner (leaf_of none steps) payload.artifacts lt
            h in
        ((leaf-steps w root_url claim root payload 0 none payload.steps sent).1, uploads)

    back :
        AllOk steps
          × AllOk (run_uploads w root_url claim root payload winner 0 none payload.artifacts)
        → pipeline w root_url claim root payload winner leaves_first ≡ none
    back h =
        rw (leaf_of-AllOk none steps refl h.0)
          (none-leaves w root_url claim root payload winner payload.artifacts h.1)

-- An upload other than `winner` goes on as if all steps had succeeded, whatever error the last step
-- sent: its run is that of an upload that received nil.
pub run_uploads-other :
    (w : TaskWorld) (root_url : String) (claim : TaskClaim) (root : String) (payload : Payload)
    (winner : ℕ) (e : Error) (artifacts : List Artifact) (j : ℕ) (a : Artifact)
    → get_elem? artifacts j ≡ some a
    → j ≢ winner
    → get_elem? (run_uploads w root_url claim root payload winner 0 (some e) artifacts) j
      ≡ some (upload_artifact (w.file_world j) root claim.expires a (none ∷ []))
run_uploads-other w root_url claim root payload winner e artifacts j a h ne =
    let start : 0 + j ≡ j = omega arith in
    rw start at (
      other-at w root_url claim root payload winner (some e) 0 artifacts j a h
        (λ x. ne (omega arith)))
