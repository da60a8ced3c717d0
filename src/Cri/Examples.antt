-- ===== src/Cri/Examples.antt =====
-- The theorems on internal/cri at concrete inputs.
mod Hosts
use Prim.Native.String.{◌++◌ as append}
use taskcluster_multistage_d.Common.{
  ℕ, ◌≡◌, ◌≢◌, refl, String, inl, inr, arith, true, false, Option, none, some, List, [], ◌∷◌, ◌++◌,
  last, read_lines, ◌==◌, if◌then◌else◌,
}
use taskcluster_multistage_d.Exception.{Error, plain}
use taskcluster_multistage_d.Worker.Calls.{Result, ok, err}
use taskcluster_multistage_d.Cri.Docker.Logs.{
  LogWorld, given, exits, panics, stuck, read_full, copy_payload, copy_frame, copy_frames,
  run_container,
}
use taskcluster_multistage_d.Cri.{ContainerSpec}
use taskcluster_multistage_d.Cri.Docker.Containers.{create_request, status}
use taskcluster_multistage_d.Cri.Docker.Logs.Payload.{flow, AllSmall}
use taskcluster_multistage_d.Cri.Docker.Logs.Ends.{run_container_ends}
use taskcluster_multistage_d.Cri.Docker.Logs.RoundTrip.{Frame, encode, run_container-encode}
use taskcluster_multistage_d.Cri.Docker.Pull.{PullWorld, base64, encode_auth, log_lines, image_pull}
use taskcluster_multistage_d.Cri.Dind.{
  Attempt, passes, retries, permanent, DindWorld, sandbox_create,
}
use taskcluster_multistage_d.Cri.Dind.Tls.{TarEntry, tls_config_from_tar}
use taskcluster_multistage_d.Cri.Dind.Tls.Pairs.{tls_config_from_tar-pairs}
use taskcluster_multistage_d.Cri.Dind.Cleanup.{kept, removed, sandbox_create-removed}
use taskcluster_multistage_d.Cri.Dind.Ready.{IsRetry, OnlyReady, sandbox_create-OnlyReady}

-- Two frames of stdout and one of stderr, both going to the writer 7.
abbrev frames : List Frame
frames =
    record { stream_type = 1; payload = b'h' ∷ b'i' ∷ [] }
    ∷ record { stream_type = 2; payload = b'!' ∷ [] }
    ∷ record { stream_type = 1; payload = [] }
    ∷ []

abbrev log_world : LogWorld
log_world = record {
  start = none;
  logs = ok (encode frames);
  ends = none;
  inspect = ok 3;
  write_error = λ h w bytes. none;
}

run_container_ends_example : (run_container log_world (some 7) none).ending ≢ stuck
run_container_ends_example = run_container_ends log_world (some 7) none

run_container-encode_example :
    ((run_container log_world (some 7) (some 7)).ending ≡ exits 3)
    × (flow (run_container log_world (some 7) (some 7)).chunks
        ≡ (given 7, b'h') ∷ (given 7, b'i') ∷ (given 7, b'!') ∷ [])
    × AllSmall (run_container log_world (some 7) (some 7)).chunks
run_container-encode_example =
    run_container-encode log_world (some 7) (some 7) frames 3 (λ h w bytes. refl) refl refl refl
      refl ((inl refl, omega arith), ((inr refl, omega arith), ((inl refl, omega arith), tt)))

-- A frame of the third stream, that of the daemon's own errors.
abbrev third_stream : LogWorld
third_stream = record log_world {
  logs = ok (encode (record { stream_type = 3; payload = b'x' ∷ [] } ∷ []));
}

third_stream_run : (run_container third_stream (some 7) none).ending ≡ panics
unfolding run_container copy_frames copy_frame copy_payload read_full
third_stream_run = refl

-- A container in the pod of another.
abbrev spec : ContainerSpec
spec = record {
  name = "step";
  image = "go";
  entrypoint = [];
  command = [];
  env = ("A", "1") ∷ [];
  working_dir = "";
  volumes = [];
  binds = [];
  privileged = false;
  pod_with = some "proxy";
}

create_request_run :
    ((create_request spec).host_config.network_mode ≡ "container:proxy")
    × ((create_request spec).config.env ≡ "A=1" ∷ [])
unfolding create_request
create_request_run = (refl, refl)

-- A container that has not started: Docker gives the zero time.
status_run :
    status (λ time. ok 0) (ok (record { started_at = "0"; finished_at = "0"; ip_address = "" }))
    ≡ ok (record { started_at = none; finished_at = none; ip_address = "" })
unfolding status
status_run = refl

-- "Man" is "TWFu", and "Ma" is "TWE=".
base64_run : base64 (77 ∷ 97 ∷ 110 ∷ 77 ∷ 97 ∷ []) ≡ 84 ∷ 87 ∷ 70 ∷ 117 ∷ 84 ∷ 87 ∷ 69 ∷ 61 ∷ []
unfolding base64
base64_run = refl

abbrev decode_line : List ℕ → Option (List ℕ × List ℕ)
decode_line [] = none
decode_line (b ∷ bytes) =
    if b == b'1'
    then some (b'P' ∷ b'i' ∷ b'n' ∷ b'g' ∷ [], [])
    else if b == b'2'
    then some (b'O' ∷ b'K' ∷ [], b'a' ∷ [])
    else none

-- A pull of "nginx" that reports `Ping`, which is not logged, then `OK` of the layer "a", and a line that is not JSON.
abbrev pub pull_world : PullWorld String
pull_world = record {
  parse_normalized_named = λ image. ok ("docker.io", append "docker.io/library/" image);
  get_auth_config = λ domain. ok domain;
  marshal = λ auth. ok (77 ∷ 97 ∷ 110 ∷ []);
  image_pull = λ canonical encoded.
      ok (record { bytes = b'1' ∷ 10 ∷ b'2' ∷ 10 ∷ b'?' ∷ []; ends = none; close = none });
  decode = decode_line;
}

image_pull_run :
    (image_pull pull_world "nginx").log ≡ (b'a' ∷ b':' ∷ b' ' ∷ b'O' ∷ b'K' ∷ []) ∷ (b'?' ∷ []) ∷ []
unfolding image_pull encode_auth log_lines read_lines
image_pull_run = refl

-- The key comes before the certificate, with a directory and another file between them.
abbrev pub entries : List TarEntry
entries =
    record { name = "client/"; is_dir = true; content = ok [] }
    ∷ record { name = "client/key.pem"; is_dir = false; content = ok (1 ∷ []) }
    ∷ record { name = "client/ca.pem"; is_dir = false; content = ok (2 ∷ []) }
    ∷ record { name = "client/cert.pem"; is_dir = false; content = ok (3 ∷ []) }
    ∷ []

abbrev pub key_pair : List ℕ → List ℕ → Result (List ℕ × List ℕ)
key_pair cert key = ok (cert, key)

tls_config_from_tar-pairs_example :
    (tls_config_from_tar key_pair (record { entries = entries; ends = none })).result
    ≡ ok (record { root_cas = (2 ∷ []) ∷ []; certificates = (3 ∷ [], 1 ∷ []) ∷ [] })
tls_config_from_tar-pairs_example =
    tls_config_from_tar-pairs key_pair entries (tt, (tt, (tt, (tt, tt)))) tt tt

-- `backoff.Retry` as the last attempt says.
abbrev pub error_of_last : Option Attempt → Option Error
error_of_last none = some (plain "no attempt")
error_of_last (some passes) = none
error_of_last (some (retries e)) = some e
error_of_last (some (permanent e)) = some e

abbrev pub retry_last : List Attempt → Option Error
retry_last outcomes = error_of_last (last outcomes)

pub retry_last-IsRetry : IsRetry retry_last
retry_last-IsRetry outcomes h = passed (last outcomes) h
  where
    passed : (o : Option Attempt) → error_of_last o ≡ none → o ≡ some passes
    passed none h = absurd (cc)
    passed (some passes) h = refl
    passed (some (retries e)) h = absurd (cc)
    passed (some (permanent e)) h = absurd (cc)

-- The container starts at the second look; `info` is the answer of Docker to the worker.
abbrev dind_world : Result String → DindWorld (List ℕ × List ℕ)
dind_world info = record {
  pull = none;
  create = ok "c1";
  retry = retry_last;
  statuses =
      err (plain "not yet")
      ∷ ok (record { started_at = some 5; finished_at = none; ip_address = "10.0.0.2" })
      ∷ [];
  new_client = none;
  infos = err (plain "refused") ∷ ok "20.10" ∷ [];
  is_connection_failed = λ e. true;
  read_files = ok (record { entries = entries; ends = none });
  x509_key_pair = key_pair;
  info = info;
  remove = none;
}

-- Docker's last answer fails, after all else has succeeded: the container is removed.
sandbox_create-removed_example :
    kept (sandbox_create (dind_world (err (plain "gone"))) "docker:dind" "t").ending
      ++ removed (sandbox_create (dind_world (err (plain "gone"))) "docker:dind" "t").actions
    ≡ "c1" ∷ []
sandbox_create-removed_example =
    sandbox_create-removed (dind_world (err (plain "gone"))) "docker:dind" "t"

sandbox_create_run :
    kept (sandbox_create (dind_world (ok "20.10")) "docker:dind" "t").ending ≡ "c1" ∷ []
unfolding sandbox_create
sandbox_create_run = refl
