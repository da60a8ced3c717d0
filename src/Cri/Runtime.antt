-- ===== src/Cri/Runtime.antt =====
-- internal/cri/cri.go: the interfaces `CRI` and `Container`, and `Docker` of internal/cri/docker.go as one of
-- their implementations. What changes from call to call has the number of the call.
use taskcluster_multistage_d.Common.{ℕ, Bool, Option, String}
use taskcluster_multistage_d.Exception.{Error}
use taskcluster_multistage_d.Worker.Calls.{Result, ok, err}
use taskcluster_multistage_d.Cri.{ContainerSpec, ContainerStatus}
use taskcluster_multistage_d.Cri.Docker.Pull.{PullWorld, image_pull}
use taskcluster_multistage_d.Cri.Docker.Logs.{Copy, LogWorld, run_container}
use taskcluster_multistage_d.Cri.Docker.Containers.{
  CreateRequest, container_create, Inspected, status, RemoveRequest, remove_request, PathStat,
  FileInfo, read_files,
}

pub record CriOps (Container : Type 0) : Type 0 where
  pub image_pull : String → Option Error
  pub container_create : ContainerSpec → Result Container

pub record ContainerOps (Container : Type 0) (Archive : Type 0) : Type 0 where
  pub id : Container → String
  pub status : ℕ → Container → Result ContainerStatus
  pub remove : Container → Option Error
  pub run : Container → Option ℕ → Option ℕ → Copy
  pub read_files : String → Container → Result (Archive × FileInfo)

-- The client of Docker, by its methods that the package calls (`logs` holds those of `Run`, for each container), with `time.Parse` and `IsDir` of a mode.
pub record DockerClient (Auth : Type 0) (Archive : Type 0) : Type 0 where
  pub pull_world : PullWorld Auth
  pub create : CreateRequest → Result String
  pub inspect : ℕ → String → Result Inspected
  pub remove : RemoveRequest → Option Error
  pub copy : String → String → Result (Archive × PathStat)
  pub parse_time : String → Result ℕ
  pub logs : String → LogWorld
  pub mode_is_dir : ℕ → Bool

-- `dockerContainer`; its client is that of the runtime.
pub record DockerContainer : Type 0 where
  pub container_id : String

abbrev pub new_container : Result String → Result DockerContainer
new_container (err e) = err e
new_container (ok id) = ok (record { container_id = id })

module _ {Auth : Type 0} {Archive : Type 0} (client : DockerClient Auth Archive) where
  -- `NewDocker`, as a `CRI`.
  unfoldable pub docker_cri : CriOps DockerContainer
  unfolding container_create image_pull
  docker_cri = record {
    image_pull = λ image. (image_pull client.pull_world image).error;
    container_create = λ spec. new_container (container_create client.create spec);
  }

  -- Its containers, as `Container`.
  unfoldable pub docker_container : ContainerOps DockerContainer Archive
  unfolding run_container status remove_request read_files
  docker_container = record {
    id = λ c. c.container_id;
    status = λ i c. status client.parse_time (client.inspect i c.container_id);
    remove = λ c. client.remove (remove_request c.container_id);
    run = λ c stdout stderr. run_container (client.logs c.container_id) stdout stderr;
    read_files = λ path c. read_files client.mode_is_dir (client.copy c.container_id path);
  }
