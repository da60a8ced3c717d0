-- ===== src/Log.antt =====
-- internal/log/log.go: copying a stream to a log, and closing what is no longer used. Texts are lists
-- of bytes.
pub mod Copies
pub mod Fancy
pub mod Pipe
pub mod Tee
use taskcluster_multistage_d.Common.{
  ℕ, Option, none, some, List, [], ◌∷◌, ◌++◌, map, String, read_lines,
}
use taskcluster_multistage_d.Exception.{Error}

-- What a `logr.Logger` is told.
pub data Entry : Type 0 where
  info : List ℕ → Entry
  error : Error → String → Entry

-- The entries of `CopyToLogPrefix`, and its error.
pub record Copied : Type 0 where
  pub entries : List Entry
  pub error : Option Error

-- `if prefix != "" { s = prefix + s }` is `prefix ++ s`.
abbrev pub prefixed : List ℕ → List ℕ → Entry
prefixed prefix line = info (prefix ++ line)

-- The stream is its bytes and the error at their end (`none` is `io.EOF`).
unfoldable pub copy_to_log_prefix : List ℕ → List ℕ → Option Error → Copied
unfolding read_lines
copy_to_log_prefix prefix bytes ends = record {
  entries = map (prefixed prefix) (read_lines bytes);
  error = ends;
}

unfoldable pub copy_to_log : List ℕ → Option Error → Copied
unfolding copy_to_log_prefix
copy_to_log bytes ends = copy_to_log_prefix [] bytes ends

-- `if err != nil { log.Error(err, msg) }`.
abbrev pub log_error : String → Option Error → List Entry
log_error msg none = []
log_error msg (some e) = error e msg ∷ []

unfoldable pub copy_to_log_prefix_no_error : List ℕ → List ℕ → Option Error → List Entry
unfolding copy_to_log_prefix
copy_to_log_prefix_no_error prefix bytes ends =
    let c = copy_to_log_prefix prefix bytes ends in
    c.entries ++ log_error "Error copying log" c.error

unfoldable pub copy_to_log_no_error : List ℕ → Option Error → List Entry
unfolding copy_to_log_prefix_no_error
copy_to_log_no_error bytes ends = copy_to_log_prefix_no_error [] bytes ends

-- `LogClose`, given the error of `Close`.
unfoldable pub log_close : Option Error → String → List Entry
log_close close msg = log_error msg close
