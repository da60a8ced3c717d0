-- ===== src/Cri.antt =====
-- internal/cri/cri.go: what the worker asks of a container runtime.
pub mod Docker
pub mod Dind
pub mod Runtime
pub mod Host
mod Examples
use taskcluster_multistage_d.Common.{ℕ, Bool, Option, List, String}

pub record ContainerSpec : Type 0 where
  pub name : String
  pub image : String
  pub entrypoint : List String
  pub command : List String
  pub env : List (String × String)
  pub working_dir : String
  pub volumes : List String
  pub binds : List String
  pub privileged : Bool
  -- The id of the container whose network and volumes are shared.
  pub pod_with : Option String

pub record ContainerStatus : Type 0 where
  pub started_at : Option ℕ
  pub finished_at : Option ℕ
  pub ip_address : String
