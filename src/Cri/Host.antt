-- ===== src/Cri/Host.antt =====
-- internal/cri/dind.go over an implementation of the interfaces of internal/cri/cri.go: the factory of
-- sandboxes that `NewDockerInDockerSandbox` makes of a `CRI`.
mod Looks
pub mod Ready
use taskcluster_multistage_d.Common.{ℕ, zero, suc, Bool, Option, none, List, [], ◌∷◌, String}
use taskcluster_multistage_d.Exception.{Error}
use taskcluster_multistage_d.Worker.Calls.{Result, ok, err}
use taskcluster_multistage_d.Cri.{ContainerStatus}
use taskcluster_multistage_d.Cri.Runtime.{CriOps, ContainerOps}
use taskcluster_multistage_d.Cri.Docker.Containers.{FileInfo}
use taskcluster_multistage_d.Cri.Dind.Tls.{Tar}
use taskcluster_multistage_d.Cri.Dind.{Attempt, DindWorld, dind_spec, sandbox_create, Outcome}

-- What `SandboxCreate` uses besides the runtime: `backoff.Retry`, the number of attempts to see the
-- container started, the Docker client for the sandbox, and `X509KeyPair`.
pub record Surroundings (Pair : Type 0) : Type 0 where
  pub retry : List Attempt → Option Error
  pub attempts : ℕ
  pub new_client : Option Error
  pub infos : List (Result String)
  pub is_connection_failed : Error → Bool
  pub x509_key_pair : List ℕ → List ℕ → Result Pair
  pub info : Result String

-- `dindFactory`.
pub record DindFactory (Container : Type 0) : Type 0 where
  pub cri : CriOps Container
  pub image : String

-- `NewDockerInDockerSandbox`; the configuration is that of the sandbox's own client.
abbrev pub new_docker_in_docker_sandbox :
    {Container : Type 0} → CriOps Container → String → DindFactory Container
new_docker_in_docker_sandbox cri image = record { cri = cri; image = image }

module _ {Container : Type 0} {Pair : Type 0} (ops : ContainerOps Container Tar)
    (env : Surroundings Pair) where
  -- The answers to the attempts number `i`, `i + 1` and so on.
  abbrev pub statuses_from : ℕ → ℕ → Container → List (Result ContainerStatus)
  statuses_from i zero c = []
  statuses_from i (suc n) c = ops.status i c ∷ statuses_from (suc i) n c

  abbrev pub only_archive : Result (Tar × FileInfo) → Result Tar
  only_archive (err e) = err e
  only_archive (ok (archive, info)) = ok archive

  -- The container that `ContainerCreate` gave answers.
  abbrev pub world_of : Option Error → Result Container → DindWorld Pair
  world_of pull (ok c) = record {
    pull = pull;
    create = ok (ops.id c);
    retry = env.retry;
    statuses = statuses_from 0 env.attempts c;
    new_client = env.new_client;
    infos = env.infos;
    is_connection_failed = env.is_connection_failed;
    read_files = only_archive (ops.read_files "/certs/client" c);
    x509_key_pair = env.x509_key_pair;
    info = env.info;
    remove = ops.remove c;
  }
  -- Nothing else is asked.
  world_of pull (err e) = record {
    pull = pull;
    create = err e;
    retry = env.retry;
    statuses = [];
    new_client = env.new_client;
    infos = env.infos;
    is_connection_failed = env.is_connection_failed;
    read_files = err e;
    x509_key_pair = env.x509_key_pair;
    info = env.info;
    remove = none;
  }

  abbrev pub factory_world : DindFactory Container → String → DindWorld Pair
  factory_world f name =
      world_of (f.cri.image_pull f.image) (f.cri.container_create (dind_spec f.image name))

  -- `SandboxCreate` of the factory.
  unfoldable pub create_sandbox : DindFactory Container → String → Outcome Pair
  unfolding sandbox_create
  create_sandbox f name = sandbox_create (factory_world f name) f.image name
