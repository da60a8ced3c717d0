-- ===== src/Payload.antt =====
-- internal/config/payload.go: the payload of a task.
use taskcluster_multistage_d.Common.{ℕ, Bool, Option, List, String}

-- A Go `int`: `negsuc n` is -(n + 1).
pub data ℤ : Type 0 where
  pos : ℕ → ℤ
  negsuc : ℕ → ℤ

pub record ValueFromSecret : Type 0 where
  pub secret_name : String
  pub path : String

pub record ValueFrom : Type 0 where
  pub value_from_secret : Option ValueFromSecret

pub record EnvVar : Type 0 where
  pub name : String
  pub value : String
  pub value_from : Option ValueFrom

pub record Step : Type 0 where
  pub image : String
  pub command : List String
  pub args : List String
  pub env : List EnvVar
  pub working_dir : String
  pub pull : Option Bool
  pub privileged : Bool

pub record Artifact : Type 0 where
  pub name : String
  pub path : String
  pub artifact_type : String
  pub content_type : String

abbrev pub file_artifact : String
file_artifact = "file"

pub record Payload : Type 0 where
  pub max_run_time : ℤ
  pub steps : List Step
  pub env : List EnvVar
  pub artifacts : List Artifact
