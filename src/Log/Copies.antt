-- ===== src/Log/Copies.antt =====
-- What the copying of a stream logs (internal/log/log.go).
use taskcluster_multistage_d.Common.{
  ◌≡◌, ap, ℕ, Option, List, ◌++◌, map, read_lines-with_newlines, with_newlines, AllFit,
}
use taskcluster_multistage_d.Exception.{Error}
use taskcluster_multistage_d.Log.{prefixed, log_error, copy_to_log_prefix_no_error}

-- Of a stream of lines that fit the reader's buffer, each is logged behind the prefix, in their order,
-- and then the error at the end of the stream, if there is one.
pub copy_to_log_prefix_no_error-with_newlines :
    (prefix : List ℕ) (lines : List (List ℕ)) (ends : Option Error)
    → AllFit lines
    → copy_to_log_prefix_no_error prefix (with_newlines lines) ends
      ≡ map (prefixed prefix) lines ++ log_error "Error copying log" ends
unfolding copy_to_log_prefix_no_error
copy_to_log_prefix_no_error-with_newlines prefix lines ends fit =
    ap (λ ls. map (prefixed prefix) ls ++ log_error "Error copying log" ends)
      (read_lines-with_newlines lines fit)
