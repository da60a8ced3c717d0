-- ===== src/Cri/Dind.antt =====
-- internal/cri/dind.go: `SandboxCreate`, which starts docker-in-docker in a container, waits until it
-- answers, and fetches its TLS configuration. `backoff.Retry`, the Docker client and `X509KeyPair` are
-- parameters.
pub mod Tls
pub mod Cleanup
pub mod Ready
use Prim.Native.String.{◌++◌ as append}
use taskcluster_multistage_d.Common.{
  ℕ, Bool, true, false, Option, none, some, List, [], ◌∷◌, ◌++◌, map, String, str_eq, ◌==◌,
  if◌then◌else◌, last, decimal,
}
use taskcluster_multistage_d.Exception.{Error, plain, wrapped}
use taskcluster_multistage_d.Worker.Calls.{Result, ok, err}
use taskcluster_multistage_d.Cri.{ContainerSpec, ContainerStatus}
use taskcluster_multistage_d.Cri.Dind.Tls.{Tar, TlsConfig, Loaded, tls_config_from_tar}

-- What `SandboxCreate` does: its calls that change something, and what it logs.
pub data Action : Type 0 where
  pulls : String → Action
  creates : ContainerSpec → Action
  starts_run : String → Action
  connects : String → Action
  reads_files : String → String → Action
  closes_files : Action
  logs : String → String → Action
  logs_error : Error → String → Action
  removes : String → Action

-- What an attempt tells `backoff.Retry`: nil, an error, or an error made `Permanent`.
pub data Attempt : Type 0 where
  passes : Attempt
  retries : Error → Attempt
  permanent : Error → Attempt

-- Everything outside. `statuses` and `infos` are the answers to the attempts that the two calls of
-- `backoff.Retry` make; `retry` is what it returns, given what its attempts told it.
pub record DindWorld (Pair : Type 0) : Type 0 where
  pub pull : Option Error
  pub create : Result String
  pub retry : List Attempt → Option Error
  pub statuses : List (Result ContainerStatus)
  pub new_client : Option Error
  pub infos : List (Result String)
  pub is_connection_failed : Error → Bool
  pub read_files : Result Tar
  pub x509_key_pair : List ℕ → List ℕ → Result Pair
  pub info : Result String
  pub remove : Option Error

-- A Docker client for the host, with its TLS configuration, and the container to remove at the end.
pub record DindSandbox (Pair : Type 0) : Type 0 where
  pub host : String
  pub tls : TlsConfig Pair
  pub container : String

-- `crashes` is the use of a nil status.
pub data Ending (Pair : Type 0) : Type 0 where
  returns : DindSandbox Pair → Ending Pair
  fails : Error → Ending Pair
  crashes : Ending Pair

pub record Outcome (Pair : Type 0) : Type 0 where
  pub actions : List Action
  pub ending : Ending Pair

-- The attempt that waits for the container to start.
abbrev pub try_started : Option ℕ → Option ℕ → String → Attempt
try_started none finish ip = retries (plain "container not started yet")
try_started (some start) (some finish) ip = permanent (plain "container exited")
try_started (some start) none ip =
    if str_eq ip "" then retries (plain "container has no IP address") else passes

unfoldable pub try_status : Result ContainerStatus → Attempt
try_status (err e) = retries e
try_status (ok status) = try_started status.started_at status.finished_at status.ip_address

-- The attempt that waits for Docker: an error other than a failed connection counts as an answer.
abbrev pub try_info : (Error → Bool) → Result String → Attempt
try_info is_connection_failed (ok version) = passes
try_info is_connection_failed (err e) = if is_connection_failed e then retries e else passes

abbrev pub remove_container : Option Error → String → List Action
remove_container none id = removes id ∷ []
remove_container (some e) id = removes id ∷ logs_error e "Failed to remove docker-in-docker" ∷ []

-- `tlsConfigFromTar` logs the names of the files that it does not expect.
abbrev pub log_files : List String → List Action
log_files [] = []
log_files (file ∷ files) = logs "unexpected file" file ∷ log_files files

module _ {Pair : Type 0} where
  abbrev pub fail : Error → Outcome Pair
  fail e = record { actions = []; ending = fails e }

  abbrev pub after : List Action → Outcome Pair → Outcome Pair
  after actions o = record o { actions = actions ++ o.actions }

  -- `if err != nil { return nil, err }`.
  abbrev pub unless : Option Error → Outcome Pair → Outcome Pair
  unless none o = o
  unless (some e) o = fail e

  -- `defer`: unless the sandbox is returned, the container is removed.
  abbrev pub clean_up : Option Error → String → Ending Pair → List Action
  clean_up remove id (returns sandbox) = []
  clean_up remove id (fails e) = remove_container remove id
  clean_up remove id crashes = remove_container remove id

abbrev pub dind_spec : String → String → ContainerSpec
dind_spec image name = record {
  name = name;
  image = image;
  entrypoint = [];
  command = [];
  env = ("DOCKER_TLS_CERTDIR", "/certs") ∷ [];
  working_dir = "";
  volumes = "/var/lib/docker" ∷ [];
  binds = [];
  privileged = true;
  pod_with = none;
}

module _ {Pair : Type 0} (w : DindWorld Pair) (image : String) (name : String) where
  abbrev pub after_info : String → String → TlsConfig Pair → Result String → Outcome Pair
  after_info id host tls (err e) = fail (wrapped "failed to fetch docker info: " e)
  after_info id host tls (ok version) = record {
    actions = logs "Connected to docker" version ∷ [];
    ending = returns (record { host = host; tls = tls; container = id });
  }

  abbrev pub after_tls : String → String → Result (TlsConfig Pair) → Outcome Pair
  after_tls id host (err e) = fail (wrapped "failed to configure dind tls: " e)
  after_tls id host (ok tls) = after_info id host tls w.info

  abbrev pub after_read : String → String → Result Tar → Outcome Pair
  unfolding tls_config_from_tar
  after_read id host (err e) = fail (wrapped "failed to fetch dind tls: " e)
  after_read id host (ok tar) =
      let loaded = tls_config_from_tar w.x509_key_pair tar in
      after (log_files loaded.log ++ closes_files ∷ []) (after_tls id host loaded.result)

  abbrev pub fetch_tls : String → String → Outcome Pair
  unfolding tls_config_from_tar
  fetch_tls id host = after (reads_files id "/certs/client" ∷ []) (after_read id host w.read_files)

  abbrev pub after_client : String → String → Option Error → Outcome Pair
  unfolding tls_config_from_tar
  after_client id host (some e) = fail (wrapped "failed to connect to dind: " e)
  after_client id host none =
      unless (w.retry (map (try_info w.is_connection_failed) w.infos)) (fetch_tls id host)

  -- `status` is what the last attempt assigned: nil, if it was an error.
  abbrev pub connect : String → Option (Result ContainerStatus) → Outcome Pair
  unfolding tls_config_from_tar
  connect id (some (ok status)) =
      let host = append "tcp://" (append status.ip_address ":2376") in
      after (connects host ∷ []) (after_client id host w.new_client)
  connect id (some (err e)) = record { actions = []; ending = crashes }
  connect id none = record { actions = []; ending = crashes }

  abbrev pub wait_and_connect : String → Outcome Pair
  unfolding tls_config_from_tar try_status
  wait_and_connect id = unless (w.retry (map try_status w.statuses)) (connect id (last w.statuses))

  abbrev pub with_container : Result String → Outcome Pair
  unfolding tls_config_from_tar try_status
  with_container (err e) = fail e
  with_container (ok id) =
      let o = wait_and_connect id in
      record {
        actions = starts_run id ∷ (o.actions ++ clean_up w.remove id o.ending);
        ending = o.ending;
      }

  abbrev pub after_pull : Option Error → Outcome Pair
  unfolding tls_config_from_tar try_status
  after_pull (some e) = fail (wrapped "error pulling dind image: " e)
  after_pull none = after (creates (dind_spec image name) ∷ []) (with_container w.create)

  unfoldable pub sandbox_create : Outcome Pair
  unfolding tls_config_from_tar try_status
  sandbox_create = after (pulls image ∷ []) (after_pull w.pull)

-- The error that the goroutine of the container's run logs.
abbrev pub exit_error : ℕ → Option Error
exit_error code =
    if code == 0 then none else some (plain (append "exited with code " (decimal code)))

unfoldable pub run_error : Result ℕ → Option Error
run_error (err e) = some e
run_error (ok code) = exit_error code

-- `Close` of the sandbox removes the container.
unfoldable pub close_sandbox : {Pair : Type 0} → DindSandbox Pair → Action
close_sandbox s = removes s.container
