-- ===== src/Worker/Calls.antt =====
-- The calls that a task's goroutines make to the container runtime and to Taskcluster, and the
-- monad of code that makes calls and may fail. Such code is a list of the calls that it made, in
-- order, with its result.
use taskcluster_multistage_d.Common.{ℕ, Option, none, some, List, [], ◌∷◌, ◌++◌, String}
use taskcluster_multistage_d.Exception.{Error}
use taskcluster_multistage_d.Cri.{ContainerSpec}

-- The request of `queue.CreateArtifact`; `target` is the URL of a redirect or the artifact that a
-- link names.
pub record ArtifactRequest : Type 0 where
  pub storage_type : String
  pub content_type : String
  pub expires : ℕ
  pub target : String

-- A PUT request has its URL, its content length and its body; `none` is a body that cannot be read to its end.
pub data Call : Type 0 where
  pulls : String → Call
  gets_secret : String → Call
  creates : ContainerSpec → Call
  runs : String → Call
  removes : String → Call
  reads_files : String → String → Call
  closes_files : Call
  creates_artifact : String → ArtifactRequest → Call
  puts_artifact : String → ℕ → Option (List ℕ) → Call
  creates_sandbox : String → Call
  closes_sandbox : Call

pub data Result {ℓ} (A : Type ℓ) : Type ℓ where
  ok : A → Result A
  err : Error → Result A

pub record Run {ℓ} (A : Type ℓ) : Type ℓ where
  pub calls : List Call
  pub result : Result A

module _ {ℓ} {A : Type ℓ} where
  abbrev pub pure : A → Run A
  pure a = record { calls = []; result = ok a }

  abbrev pub fail : Error → Run A
  fail e = record { calls = []; result = err e }

  -- A call and its answer.
  abbrev pub call : Call → Result A → Run A
  call c r = record { calls = c ∷ []; result = r }

  -- `defer`: a call that is made at the end, whatever the result is.
  abbrev pub finally : Run A → Call → Run A
  finally m c = record m { calls = m.calls ++ c ∷ [] }

abbrev pub then_run {ℓ κ} : {A : Type ℓ} {B : Type κ} → List Call → Result A → (A → Run B) → Run B
then_run calls (ok a) f = record { calls = calls ++ (f a).calls; result = (f a).result }
then_run calls (err e) f = record { calls = calls; result = err e }

infixl 5 ◌>>=◌ ◌>>◌
abbrev pub ◌>>=◌ {ℓ κ} : {A : Type ℓ} {B : Type κ} → Run A → (A → Run B) → Run B
m >>= f = then_run m.calls m.result f

abbrev pub ◌>>◌ {ℓ} : {B : Type ℓ} → Run (Unit {0}) → Run B → Run B
m >> k = m >>= λ _. k

-- An `error` value as a result.
abbrev pub check : Option Error → Result (Unit {0})
check none = ok tt
check (some e) = err e

abbrev pub error_of {ℓ} : {A : Type ℓ} → Result A → Option Error
error_of (ok a) = none
error_of (err e) = some e
