-- ===== src/Examples.antt =====
-- The theorems on internal/log, internal/livelog and cmd/multistage-docker-worker at concrete inputs.
use Prim.Native.String.{◌++◌ as append}
use taskcluster_multistage_d.Common.{
  ℕ, suc, ◌≡◌, refl, inl, true, none, some, List, [], ◌∷◌, ◌++◌, String, get_elem?, replicate,
}
use taskcluster_multistage_d.Exception.{plain}
use taskcluster_multistage_d.Worker.Calls.{ok, err}
use taskcluster_multistage_d.Config.{Config, default_config}
use taskcluster_multistage_d.PubSub.Buffer.{new_buffer}
use taskcluster_multistage_d.PubSub.Server.{new_server, serves, serve_http}
use taskcluster_multistage_d.LiveLog.{ListenWorld, LiveLog, with_slash, new, allocate}
use taskcluster_multistage_d.LiveLog.Urls.{Base, allocate-serve_http}
use taskcluster_multistage_d.Log.Fancy.{
  Value, text, printed, Style, LogEntry, pretty_value, write_fields, prefix_of, fancy_log,
}
use taskcluster_multistage_d.Log.Tee.{LoggerOps}
use taskcluster_multistage_d.WorkerProto.Communicator.{Codec}
use taskcluster_multistage_d.Command.{CommandWorld}

-- A style without colours.
abbrev style : Style
style = record {
  marshal_text = λ s. b'"' ∷ (s ++ b'"' ∷ []);
  marshal_texts = λ ss. b'[' ∷ b']' ∷ [];
  white = λ s. s;
  red = λ s. s;
  coloured = λ c s. s;
  name_hash = λ s. 7;
}

-- An entry with the fields given.
abbrev entry : List Value → LogEntry
entry fields = record { name = []; message = b'm' ∷ []; error = none; fields = fields }

abbrev unpaired : List Value
unpaired = text (b'a' ∷ []) ∷ printed (b'1' ∷ []) ∷ text (b'b' ∷ []) ∷ []

-- "t" and blanks up to the column 30, the message, and the one pair of fields.
fancy_log_run :
    fancy_log style (b't' ∷ []) (entry (text (b'a' ∷ []) ∷ printed (b'1' ∷ []) ∷ []))
    ≡ some (b't' ∷ (replicate 29 b' ' ++ b'm' ∷ b' ' ∷ b'a' ∷ b'=' ∷ b'"' ∷ b'1' ∷ b'"' ∷ []))
unfolding fancy_log write_fields pretty_value prefix_of
fancy_log_run = refl

-- Loggers that are numbers, each of which writes itself and the message to the state.
abbrev numbered : LoggerOps ℕ ℕ (List (ℕ × String))
numbered = record {
  enabled = λ l. true;
  info = λ l msg keys_and_values s. s ++ (l, msg) ∷ [];
  error = λ l e msg keys_and_values s. s ++ (l, msg) ∷ [];
  v = λ level l. l;
  with_values = λ keys_and_values l. l;
  with_name = λ name l. suc l;
}

abbrev loggers : List (List ℕ)
loggers = (1 ∷ 2 ∷ []) ∷ (3 ∷ []) ∷ []

abbrev listen_world : ListenWorld
listen_world = record {
  websocktunnel_token = λ credentials root audience id. ok "token";
  new_client = λ config. ok "https://tunnel/w.1";
  listen = λ address. none;
}

abbrev tunnelled : Config
tunnelled = record default_config { wst_server_url = "wss://tunnel" }

abbrev live_log : LiveLog
live_log = record { base_url = "https://tunnel/w.1/"; server = new_server }

allocate-serve_http_example :
    ((base : String) × ((allocate "id" live_log).url ≡ append base (append "/" "id"))
      × Base listen_world tunnelled base)
    × (serve_http (append "/" "id") (allocate "id" live_log).live_log.server
        ≡ serves (allocate "id" live_log).writer.addr)
    × (get_elem? (allocate "id" live_log).live_log.server.store (allocate "id" live_log).writer.addr
        ≡ some new_buffer)
    × ((allocate "id" live_log).live_log.base_url ≡ live_log.base_url)
unfolding new with_slash
allocate-serve_http_example =
    allocate-serve_http listen_world tunnelled live_log live_log "id" refl refl
      (refl, inl (refl, λ e. cc))

abbrev world : CommandWorld
world = record {
  read_file = λ path. err (plain "not found");
  unmarshal = λ contents config. ok config;
  new_env_client = none;
  listen_world = listen_world;
}

abbrev codec : Codec
codec = record {
  decode_hello = λ packet. some ("log" ∷ []);
  decode_termination = λ packet. some true;
}
