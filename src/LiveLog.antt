-- ===== src/LiveLog.antt =====
-- internal/livelog/livelog.go: the server of live logs. The client of websocktunnel, the tokens of
-- Taskcluster and the network are parameters.
pub mod Urls
pub mod Serving
use Prim.Native.Char.{Char, code}
use Prim.Native.String.{◌++◌ as append}
use taskcluster_multistage_d.Common.{
  ℕ, Bool, true, false, Option, none, some, String, str_eq, ◌==◌, if◌then◌else◌, decimal,
}
use taskcluster_multistage_d.Exception.{Error}
use taskcluster_multistage_d.Worker.Calls.{Result, ok, err}
use taskcluster_multistage_d.Config.{Config, ClientCredentials, credentials}
use taskcluster_multistage_d.PubSub.Server.{Server, Writer, new_server, allocate as allocate_buffer}

-- `client.Config` of websocktunnel.
pub record TunnelConfig : Type 0 where
  pub id : String
  pub tunnel_addr : String
  pub token : String

-- `tcauth.New` and `WebsocktunnelToken`; `client.New`, given what its configurer answers, with the URL
-- of the client; and `net.Listen`.
pub record ListenWorld : Type 0 where
  pub websocktunnel_token : ClientCredentials → String → String → String → Result String
  pub new_client : Result TunnelConfig → Result String
  pub listen : String → Option Error

pub record LiveLog : Type 0 where
  pub base_url : String
  pub server : Server

abbrev pub tunnel_config : Config → String → Result String → Result TunnelConfig
tunnel_config config id (err e) = err e
tunnel_config config id (ok token) =
    ok (record { id = id; tunnel_addr = config.wst_server_url; token = token })

abbrev pub wst_client_id : Config → String
wst_client_id config = append config.worker_group (append "." config.worker_id)

-- The URL, and the error if there is one.
unfoldable pub create_wst_listener : ListenWorld → Config → Result String
unfolding credentials
create_wst_listener w config =
    let id = wst_client_id config in
    w.new_client (
      tunnel_config config id
        (w.websocktunnel_token (credentials config) config.root_url config.wst_audience id))

abbrev pub protocol : Config → String
protocol config = if str_eq config.live_log_cert_path "" then "http" else "https"

abbrev pub port_url : Config → String
port_url config = append (protocol config) (
    append "://" (append config.public_ip (append ":" (append (decimal config.live_log_port) "/"))))

abbrev pub after_listen : Config → Option Error → Result String
after_listen config none = ok (port_url config)
after_listen config (some e) = err e

unfoldable pub create_listener : ListenWorld → Config → Result String
unfolding create_wst_listener
create_listener w config =
    if str_eq config.wst_server_url ""
    then after_listen config (w.listen (append ":" (decimal config.live_log_port)))
    else create_wst_listener w config

-- `strings.HasSuffix(url, "/")`.
unfoldable pub has_suffix_slash : String → Bool
has_suffix_slash String.[] = false
has_suffix_slash (String.◌∷◌ c String.[]) = code c == b'/'
has_suffix_slash (String.◌∷◌ c (String.◌∷◌ d s)) = has_suffix_slash (String.◌∷◌ d s)

unfoldable pub with_slash : String → String
unfolding has_suffix_slash
with_slash url = if has_suffix_slash url then url else append url "/"

abbrev pub after_create : Result String → Result LiveLog
after_create (err e) = err e
after_create (ok url) = ok (record { base_url = with_slash url; server = new_server })

-- `New`.
unfoldable pub new : ListenWorld → Config → Result LiveLog
unfolding create_listener
new w config = after_create (create_listener w config)

pub record Allocated : Type 0 where
  pub url : String
  pub writer : Writer
  pub live_log : LiveLog

-- `Allocate`, given the id that slugid made.
unfoldable pub allocate : String → LiveLog → Allocated
unfolding allocate_buffer
allocate id l =
    let (server, writer) = allocate_buffer id l.server in
    record {
      url = append l.base_url writer.id;
      writer = writer;
      live_log = record l { server = server };
    }

-- `BaseURL`.
abbrev pub base_url_of : LiveLog → String
base_url_of l = l.base_url
