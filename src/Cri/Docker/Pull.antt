-- ===== src/Cri/Docker/Pull.antt =====
-- internal/cri/docker.go: `Docker.ImagePull`, which logs the progress that Docker reports in lines of
-- JSON, and `encodeAuthToBase64`. Texts of the stream are lists of bytes. Image references, the
-- configuration file of Docker, its client and the JSON codec are parameters.
pub mod Progress
use Prim.Native.String.{◌++◌ as append}
use taskcluster_multistage_d.Common.{
  ℕ, ◌+◌, ◌-◌, ◌*◌, ◌/◌, ◌%◌, Bool, true, false, Option, none, some, List, [], ◌∷◌, ◌++◌, String,
  ltb, ◌==◌, if◌then◌else◌, read_lines,
}
use taskcluster_multistage_d.Exception.{Error, wrapped}
use taskcluster_multistage_d.Worker.Calls.{Result, ok, err}

-- `base64.URLEncoding`.
abbrev pub base64_char : ℕ → ℕ
base64_char n =
    if ltb n 26
    then 65 + n
    else if ltb n 52
    then 71 + n
    else if n == 62
    then b'-'
    else if n == 63
    then b'_'
    else n - 4

unfoldable pub base64 : List ℕ → List ℕ
base64 [] = []
base64 (a ∷ []) = base64_char (a / 4) ∷ base64_char (a % 4 * 16) ∷ b'=' ∷ b'=' ∷ []
base64 (a ∷ b ∷ []) =
    base64_char (a / 4) ∷ base64_char (a % 4 * 16 + b / 16) ∷ base64_char (b % 16 * 4) ∷ b'=' ∷ []
base64 (a ∷ b ∷ c ∷ bytes) =
    base64_char (a / 4)
    ∷ base64_char (a % 4 * 16 + b / 16)
    ∷ base64_char (b % 16 * 4 + c / 64)
    ∷ base64_char (c % 64)
    ∷ base64 bytes

-- `encodeAuthToBase64`, after the marshalling.
unfoldable pub encode_auth : Result (List ℕ) → Result (List ℕ)
unfolding base64
encode_auth (err e) = err e
encode_auth (ok bytes) = ok (base64 bytes)

-- A response: its bytes, the error at their end (`none` is `io.EOF`) and that of closing it.
pub record Response : Type 0 where
  pub bytes : List ℕ
  pub ends : Option Error
  pub close : Option Error

-- A named reference: its domain and its canonical text. `decode` gives the fields `status` and `id` of
-- a line that is a JSON object.
pub record PullWorld (Auth : Type 0) : Type 0 where
  pub parse_normalized_named : String → Result (String × String)
  pub get_auth_config : String → Result Auth
  pub marshal : Auth → Result (List ℕ)
  pub image_pull : String → List ℕ → Result Response
  pub decode : List ℕ → Option (List ℕ × List ℕ)

pub record Pulled : Type 0 where
  pub log : List (List ℕ)
  pub error : Option Error

-- `strings.HasSuffix(status, "ing")`.
abbrev pub is_ing : List ℕ → Bool
is_ing (a ∷ b ∷ c ∷ []) = if a == b'i' then (if b == b'n' then c == b'g' else false) else false
is_ing _ = false

abbrev pub has_suffix_ing : List ℕ → Bool
has_suffix_ing [] = false
has_suffix_ing (b ∷ bytes) =
    let rest = has_suffix_ing bytes in if is_ing (b ∷ bytes) then true else rest

abbrev pub with_id : List ℕ → List ℕ → List ℕ
with_id [] status = status
with_id (b ∷ id) status = (b ∷ id) ++ b':' ∷ b' ' ∷ status

-- What a line makes `ImagePull` log.
abbrev pub log_status : List ℕ → Option (List ℕ × List ℕ) → List (List ℕ)
log_status line none = line ∷ []
log_status line (some (status, id)) = if has_suffix_ing status then [] else with_id id status ∷ []

unfoldable pub log_lines : (List ℕ → Option (List ℕ × List ℕ)) → List (List ℕ) → List (List ℕ)
log_lines decode [] = []
log_lines decode (line ∷ lines) = log_status line (decode line) ++ log_lines decode lines

abbrev pub fail : Error → Pulled
fail e = record { log = []; error = some e }

-- The deferred `Close`: its error counts if there is no other.
abbrev pub or_close : Option Error → Option Error → Option Error
or_close (some e) close = some e
or_close none close = close

module _ {Auth : Type 0} (w : PullWorld Auth) where
  abbrev pub after_pull : Result Response → Pulled
  after_pull (err e) = fail e
  after_pull (ok r) = record {
    log = log_lines w.decode (read_lines r.bytes);
    error = or_close r.ends r.close;
  }

  abbrev pub after_encode : String → Result (List ℕ) → Pulled
  after_encode canonical (err e) = fail (wrapped "error encoding auth: " e)
  after_encode canonical (ok encoded) = after_pull (w.image_pull canonical encoded)

  abbrev pub error_pulling : String → Error → Error
  error_pulling image e = wrapped (append "error pulling " (append image ": ")) e

  abbrev pub after_auth : String → String → Result Auth → Pulled
  after_auth image canonical (err e) = fail (error_pulling image e)
  after_auth image canonical (ok auth) = after_encode canonical (encode_auth (w.marshal auth))

  abbrev pub after_parse : String → Result (String × String) → Pulled
  after_parse image (err e) = fail (error_pulling image e)
  after_parse image (ok (domain, canonical)) = after_auth image canonical (w.get_auth_config domain)

  unfoldable pub image_pull : String → Pulled
  image_pull image = after_parse image (w.parse_normalized_named image)
