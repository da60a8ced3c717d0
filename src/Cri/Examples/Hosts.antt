-- ===== src/Cri/Examples/Hosts.antt =====
-- The theorem on sandboxes over Docker (internal/cri) at a concrete Docker.
use taskcluster_multistage_d.Common.{
  ℕ, refl, ◌≡◌, false, none, List, [], ◌∷◌, String, str_eq, ◌==◌, if◌then◌else◌,
}
use taskcluster_multistage_d.Worker.Calls.{ok}
use taskcluster_multistage_d.Cri.Docker.Containers.{Inspected, status, read_files, container_create}
use taskcluster_multistage_d.Cri.Docker.Pull.{image_pull, encode_auth}
use taskcluster_multistage_d.Cri.Docker.Logs.{LogWorld}
use taskcluster_multistage_d.Cri.Runtime.{DockerClient, docker_cri, docker_container}
use taskcluster_multistage_d.Cri.Dind.{sandbox_create, try_status}
use taskcluster_multistage_d.Cri.Dind.Cleanup.{kept}
use taskcluster_multistage_d.Cri.Dind.Tls.{Tar, tls_config_from_tar}
use taskcluster_multistage_d.Cri.Host.{Surroundings, new_docker_in_docker_sandbox, create_sandbox}
use taskcluster_multistage_d.Cri.Host.Ready.{Backed, create_sandbox-Backed}
use taskcluster_multistage_d.Cri.Examples.{
  pull_world, entries, key_pair, retry_last, retry_last-IsRetry,
}

-- At the first look the container has not started.
abbrev inspected : ℕ → Inspected
inspected i = record {
  started_at = if i == 0 then "0" else "5";
  finished_at = "0";
  ip_address = "10.0.0.2";
}

abbrev no_output : LogWorld
no_output = record {
  start = none;
  logs = ok [];
  ends = none;
  inspect = ok 0;
  write_error = λ chunks writer bytes. none;
}

abbrev client : DockerClient String Tar
client = record {
  pull_world = pull_world;
  create = λ request. ok "c1";
  inspect = λ i id. ok (inspected i);
  remove = λ request. none;
  copy = λ id path. ok (
    record { entries = entries; ends = none },
    record { name = "client"; size = 0; mode = 0; mtime = 0 },
  );
  parse_time = λ time. if str_eq time "0" then ok 0 else ok 5;
  logs = λ id. no_output;
  mode_is_dir = λ mode. false;
}

abbrev env : Surroundings (List ℕ × List ℕ)
env = record {
  retry = retry_last;
  attempts = 2;
  new_client = none;
  infos = ok "20.10" ∷ [];
  is_connection_failed = λ e. false;
  x509_key_pair = key_pair;
  info = ok "20.10";
}

create_sandbox-Backed_example :
    Backed client env "docker:dind" "t"
      (create_sandbox
        (docker_container client)
        env
        (new_docker_in_docker_sandbox (docker_cri client) "docker:dind")
        "t").ending
create_sandbox-Backed_example =
    create_sandbox-Backed client env "docker:dind" "t" retry_last-IsRetry

create_sandbox_run :
    kept
      (create_sandbox
        (docker_container client)
        env
        (new_docker_in_docker_sandbox (docker_cri client) "docker:dind")
        "t").ending
    ≡ "c1" ∷ []
unfolding create_sandbox sandbox_create docker_cri docker_container image_pull encode_auth
    container_create status read_files tls_config_from_tar try_status
create_sandbox_run = refl
