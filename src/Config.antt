-- ===== src/Config.antt =====
-- internal/config/config.go: the configuration of the worker. The numbers are not negative.
use taskcluster_multistage_d.Common.{ℕ, Option, none, List, [], String}
use taskcluster_multistage_d.Exception.{Error}

pub record Config : Type 0 where
  pub root_url : String
  pub client_id : String
  pub access_token : String
  pub certificate : String
  pub authorized_scopes : List String
  pub provisioner_id : String
  pub worker_type : String
  pub worker_group : String
  pub worker_id : String
  pub public_ip : String
  pub live_log_port : ℕ
  pub live_log_cert_path : String
  pub live_log_key_path : String
  pub shutdown_on_idle_seconds : Option ℕ
  pub dind_image : String
  pub taskcluster_proxy_image : String
  pub concurrent_tasks : ℕ
  pub wst_audience : String
  pub wst_server_url : String

-- `DefaultConfig`; the fields that it leaves out have their zero values.
abbrev pub default_config : Config
default_config = record {
  root_url = "";
  client_id = "";
  access_token = "";
  certificate = "";
  authorized_scopes = [];
  provisioner_id = "";
  worker_type = "";
  worker_group = "";
  worker_id = "";
  public_ip = "localhost";
  live_log_port = 13000;
  live_log_cert_path = "";
  live_log_key_path = "";
  shutdown_on_idle_seconds = none;
  dind_image = "docker:dind";
  taskcluster_proxy_image = "taskcluster/taskcluster-proxy:v41.0.0";
  concurrent_tasks = 1;
  wst_audience = "";
  wst_server_url = "";
}

-- `ParseEnv`: the environment adds nothing, and there is no error.
unfoldable pub parse_env : Config → Config × Option Error
parse_env c = (c, none)

-- `tcclient.Credentials`.
pub record ClientCredentials : Type 0 where
  pub client_id : String
  pub access_token : String
  pub certificate : String
  pub authorized_scopes : List String

unfoldable pub credentials : Config → ClientCredentials
credentials c = record {
  client_id = c.client_id;
  access_token = c.access_token;
  certificate = c.certificate;
  authorized_scopes = c.authorized_scopes;
}
