-- ===== src/Exception.antt =====
-- internal/exception/exception.go, and the other errors that the worker makes. An error of a
-- library is `plain`, with its text; `wrapped` is `fmt.Errorf("<text>%w", inner)`.
use Prim.Native.String.{◌++◌}
use taskcluster_multistage_d.Common.{String, Option, none, some}

pub data Error : Type 0 where
  plain : String → Error
  wrapped : String → Error → Error
  exception : String → Error → Error

-- `WithKind`, `InternalError`, `MalformedPayload`.
abbrev pub with_kind : String → Error → Error
with_kind kind inner = exception kind inner

abbrev pub internal_error : Error → Error
internal_error inner = with_kind "internal-error" inner

abbrev pub malformed_payload : Error → Error
malformed_payload inner = with_kind "malformed-payload" inner

-- `Error()`.
unfoldable pub error_text : Error → String
error_text (plain text) = text
error_text (wrapped text inner) = text ++ error_text inner
error_text (exception kind inner) = "Exception (" ++ kind ++ ") " ++ error_text inner

-- `Unwrap()`.
unfoldable pub unwrap : Error → Option Error
unwrap (plain text) = none
unwrap (wrapped text inner) = some inner
unwrap (exception kind inner) = some inner

-- `err.(exception.Error)` and its `ExceptionKind()`: only the outermost error is looked at.
unfoldable pub exception_kind : Error → Option String
exception_kind (plain text) = none
exception_kind (wrapped text inner) = none
exception_kind (exception kind inner) = some kind
