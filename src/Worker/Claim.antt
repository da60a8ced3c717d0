-- ===== src/Worker/Claim.antt =====
-- What the worker reads of a claimed task (`tcqueue.TaskClaim`, as internal/worker uses it).
use taskcluster_multistage_d.Common.{ℕ, String}

pub record Credentials : Type 0 where
  pub client_id : String
  pub access_token : String
  pub certificate : String

pub record TaskClaim : Type 0 where
  pub task_id : String
  pub task_group_id : String
  pub run_id : ℕ
  pub credentials : Credentials
  pub expires : ℕ
  pub taken_until : ℕ
