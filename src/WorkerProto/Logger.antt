-- ===== src/WorkerProto/Logger.antt =====
-- internal/workerproto/log.go: the logger that sends its entries as packets.
pub mod Properties
use Prim.Native.String.{◌++◌ as append}
use taskcluster_multistage_d.Common.{
  ℕ, suc, ◌*◌, ◌/◌, Bool, true, false, not, Option, some, none, List, [], ◌∷◌, ◌++◌, String,
  if◌then◌else◌, lookup, insert, length, take,
}
use taskcluster_multistage_d.Exception.{error_text}
use taskcluster_multistage_d.Log.Tee.{LoggerOps}
use taskcluster_multistage_d.WorkerProto.Communicator.{
  Value, text, printed, logs, Communicator, add_capability, has_capability, send_packet,
}

pub record Logger : Type 0 where
  pub name : String
  pub values : List Value

abbrev pub key_of : Value → String
key_of (text s) = s
key_of (printed s) = s

unfoldable pub add_property :
    String → Value → Option Value → List (String × Value) → List (String × Value)
unfolding insert
add_property key value none m = insert key value m
add_property key value (some old) m = m

-- `writePropertyList`: the map, and the extra value that the base logger is told of.
unfoldable pub write_property_list :
    List (String × Value) → List Value → List (String × Value) × Option Value
unfolding lookup add_property
write_property_list m [] = (m, none)
write_property_list m (v ∷ []) = (m, some v)
write_property_list m (k ∷ v ∷ rest) =
    write_property_list (add_property (key_of k) v (lookup (key_of k) m) m) rest

-- `writeLogProperties`: the logger's own values come before those of the call.
unfoldable pub write_log_properties :
    Logger → List (String × Value) → List Value → List (String × Value)
unfolding write_property_list
write_log_properties l m keys_and_values =
    (write_property_list (write_property_list m l.values).0 keys_and_values).0

unfoldable pub send_log : List (String × Value) → Communicator → Communicator
unfolding has_capability send_packet
send_log payload c = if has_capability "log" c then send_packet (logs payload) c else c

abbrev pub info_payload : String → List (String × Value)
info_payload msg = ("textPayload", text msg) ∷ []

abbrev pub error_payload : String → String → List (String × Value)
error_payload err msg = ("textPayload", text msg) ∷ ("error", text err) ∷ []

unfoldable pub info : Logger → String → List Value → Communicator → Communicator
unfolding write_log_properties send_log
info l msg keys_and_values c =
    send_log (write_log_properties l (info_payload msg) keys_and_values) c

-- `Error`, given the text of the error.
unfoldable pub error : Logger → String → String → List Value → Communicator → Communicator
unfolding write_log_properties send_log
error l err msg keys_and_values c =
    send_log (write_log_properties l (error_payload err msg) keys_and_values) c

-- `WithValues`: a value without its partner, at the end, is left out.
unfoldable pub with_values : List Value → Logger → Logger
with_values keys_and_values l =
    let num_items = length keys_and_values / 2 * 2 in
    record l { values = l.values ++ take num_items keys_and_values }

unfoldable pub with_name : String → Logger → Logger
with_name name l = record l { name = append l.name (append "." name) }

-- `AddLogger`.
unfoldable pub add_logger : Communicator → Communicator × Logger
unfolding add_capability
add_logger c =
    (add_capability "error-report" (add_capability "log" c), record { name = ""; values = [] })

-- The logger as a `logr.Logger`: `Enabled` always holds, and `V` gives the logger itself.
abbrev pub logger_ops : LoggerOps Logger Value Communicator
logger_ops = record {
  enabled = λ l. true;
  info = λ l msg keys_and_values c. info l msg keys_and_values c;
  error = λ l e msg keys_and_values c. error l (error_text e) msg keys_and_values c;
  v = λ level l. l;
  with_values = with_values;
  with_name = with_name;
}
