-- ===== src/Worker.antt =====
-- The worker: its set-up and main loop (internal/worker/worker.go) and the run of one task
-- (internal/worker/run.go, internal/worker/artifact.go).
pub mod Claim
pub mod Calls
pub mod Loop
pub mod Output
pub mod Step
pub mod Artifact
pub mod Logic
pub mod Task
pub mod Setup
pub mod Sandboxes
mod Examples
