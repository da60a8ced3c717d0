-- ===== src/Cri/Docker/Containers.antt =====
-- internal/cri/docker.go: `ContainerCreate`, `Status`, `Remove` and `ReadFiles`. The client of Docker
-- and `time.Parse` are parameters; a time is a number, and `dockerEpoch`, the zero time, is 0.
use Prim.Native.String.{◌++◌ as append}
use taskcluster_multistage_d.Common.{
  ℕ, Bool, Option, none, some, List, [], ◌∷◌, map, String, ◌==◌, if◌then◌else◌,
}
use taskcluster_multistage_d.Worker.Calls.{Result, ok, err}
use taskcluster_multistage_d.Cri.{ContainerSpec, ContainerStatus}

-- `container.Config`, `container.HostConfig` and the name: what `ContainerCreate` asks the client for.
pub record Config : Type 0 where
  pub image : String
  pub entrypoint : List String
  pub cmd : List String
  pub env : List String
  pub working_dir : String
  pub volumes : List String

pub record HostConfig : Type 0 where
  pub binds : List String
  pub privileged : Bool
  pub network_mode : String
  pub volumes_from : List String

pub record CreateRequest : Type 0 where
  pub config : Config
  pub host_config : HostConfig
  pub name : String

abbrev pub env_entry : String × String → String
env_entry (k, v) = append k (append "=" v)

abbrev pub network_mode : Option String → String
network_mode none = ""
network_mode (some pod_id) = append "container:" pod_id

abbrev pub volumes_from : Option String → List String
volumes_from none = []
volumes_from (some pod_id) = pod_id ∷ []

unfoldable pub create_request : ContainerSpec → CreateRequest
create_request spec = record {
  config = record {
    image = spec.image;
    entrypoint = spec.entrypoint;
    cmd = spec.command;
    env = map env_entry spec.env;
    working_dir = spec.working_dir;
    volumes = spec.volumes;
  };
  host_config = record {
    binds = spec.binds;
    privileged = spec.privileged;
    network_mode = network_mode spec.pod_with;
    volumes_from = volumes_from spec.pod_with;
  };
  name = spec.name;
}

-- The id of the container, given the client.
unfoldable pub container_create : (CreateRequest → Result String) → ContainerSpec → Result String
unfolding create_request
container_create client spec = client (create_request spec)

-- What `ContainerInspect` finds: the texts of the two times, and the address.
pub record Inspected : Type 0 where
  pub started_at : String
  pub finished_at : String
  pub ip_address : String

-- A time other than `dockerEpoch`.
abbrev pub time_or_none : ℕ → Option ℕ
time_or_none t = if t == 0 then none else some t

abbrev pub after_finished : String → ℕ → Result ℕ → Result ContainerStatus
after_finished ip_address started (err e) = err e
after_finished ip_address started (ok finished) = ok (record {
  started_at = time_or_none started;
  finished_at = time_or_none finished;
  ip_address = ip_address;
})

abbrev pub after_started : (String → Result ℕ) → Inspected → Result ℕ → Result ContainerStatus
after_started parse_time r (err e) = err e
after_started parse_time r (ok started) =
    after_finished r.ip_address started (parse_time r.finished_at)

unfoldable pub status : (String → Result ℕ) → Result Inspected → Result ContainerStatus
status parse_time (err e) = err e
status parse_time (ok r) = after_started parse_time r (parse_time r.started_at)

-- `ContainerRemove` with its options.
pub record RemoveRequest : Type 0 where
  pub id : String
  pub remove_volumes : Bool
  pub force : Bool

unfoldable pub remove_request : String → RemoveRequest
remove_request id = record { id = id; remove_volumes = Bool.true; force = Bool.true }

-- A file's name, size, mode and time in the container, and the same as an `fs.FileInfo`; `is_dir` of a
-- mode is a parameter.
pub record PathStat : Type 0 where
  pub name : String
  pub size : ℕ
  pub mode : ℕ
  pub mtime : ℕ

pub record FileInfo : Type 0 where
  pub name : String
  pub size : ℕ
  pub mode : ℕ
  pub mod_time : ℕ
  pub is_dir : Bool

abbrev pub file_info : (ℕ → Bool) → PathStat → FileInfo
file_info mode_is_dir stat = record {
  name = stat.name;
  size = stat.size;
  mode = stat.mode;
  mod_time = stat.mtime;
  is_dir = mode_is_dir stat.mode;
}

-- The archive that `CopyFromContainer` opens is handed on as it is.
unfoldable pub read_files :
    {Archive : Type 0} → (ℕ → Bool) → Result (Archive × PathStat) → Result (Archive × FileInfo)
read_files mode_is_dir (err e) = err e
read_files mode_is_dir (ok (archive, stat)) = ok (archive, file_info mode_is_dir stat)
