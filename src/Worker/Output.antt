-- ===== src/Worker/Output.antt =====
-- internal/worker/run.go: the way of a step's output to the live log. `runStep` starts a copy at the end
-- of each of its pipes, and all copies and the code itself write entries with the logger that `RunTask`
-- makes over the live log.
pub mod Entries
mod Delivered
pub mod Copied
pub mod Lost
pub mod Uploaded
use taskcluster_multistage_d.Common.{
  ℕ, Bool, true, false, Option, none, some, List, [], ◌∷◌, ◌++◌, ◌==◌, if◌then◌else◌, newline,
}
use taskcluster_multistage_d.PubSub.Buffer.{Buffer, WriteError, new_buffer, write, close}
use taskcluster_multistage_d.Log.Fancy.{Style, LogEntry, fancy_log}
use taskcluster_multistage_d.Log.Pipe.{Stream, new_stream, copy_turn, write_chunk, close_pipe}

-- An entry of the logger, with the text of the time: a line that the copy of pipe `i` logs, or another.
pub data Said : Type 0 where
  line_of : List ℕ → ℕ → List ℕ → Said
  tells : List ℕ → LogEntry → Said

-- The pipes, by number, and the live log. `logged` and `refused` record the entries that the live log
-- took and those that it did not take.
pub record Output : Type 0 where
  pub stream : ℕ → Stream
  pub live : Buffer
  pub logged : List Said
  pub refused : List Said
  pub panicked : Bool

-- What happens next. A copy takes a turn at a given time; another entry is written; the live log is
-- closed by the function that `RunTask` defers.
pub data Turn : Type 0 where
  writes : ℕ → List ℕ → Turn
  closes : ℕ → Turn
  copies : ℕ → List ℕ → Turn
  speaks : List ℕ → LogEntry → Turn
  ends : Turn

-- A pipe is read under a name, and its lines have a prefix.
pub record Labels : Type 0 where
  pub name : ℕ → List ℕ
  pub prefix : ℕ → List ℕ

-- `lg.CopyToLogNoError(log, outRead)` and `lg.CopyToLogPrefixNoError(log, errRead, "\033[31m")`.
abbrev pub step_labels : List ℕ → Labels
step_labels name = record {
  name = λ i. name;
  prefix = λ i. if i == 0 then [] else 27 ∷ b'[' ∷ b'3' ∷ b'1' ∷ b'm' ∷ [];
}

abbrev pub new_output : Output
new_output = record {
  stream = λ i. new_stream;
  live = new_buffer;
  logged = [];
  refused = [];
  panicked = false;
}

abbrev pub set_stream : ℕ → Stream → Output → Output
set_stream i s o = record o { stream = λ j. if i == j then s else o.stream j }

-- The write and what comes of it: an error goes to the log of the worker.
abbrev pub after_write : Said → Buffer × ℕ × Option WriteError → Output → Output
after_write said (live, n, none) o = record o { live = live; logged = o.logged ++ said ∷ [] }
after_write said (live, n, some e) o = record o { live = live; refused = o.refused ++ said ∷ [] }

abbrev pub write_live : Option (List ℕ) → Said → Output → Output
write_live none said o = record o { panicked = true }
write_live (some bytes) said o = after_write said (write bytes o.live) o

module _ (style : Style) (labels : Labels) where
  abbrev pub time_of : Said → List ℕ
  time_of (line_of time i line) = time
  time_of (tells time e) = time

  abbrev pub entry_of : Said → LogEntry
  entry_of (line_of time i line) = record {
    name = labels.name i;
    message = labels.prefix i ++ line;
    error = none;
    fields = [];
  }
  entry_of (tells time e) = e

  -- What `fmt.Fprintf(liveLog, "%s\n", lg.FancyLog(e))` writes; `none` is a panic.
  abbrev pub with_newline : Option (List ℕ) → Option (List ℕ)
  with_newline none = none
  with_newline (some bytes) = some (bytes ++ newline ∷ [])

  unfoldable pub render : Said → Option (List ℕ)
  render said = with_newline (fancy_log style (time_of said) (entry_of said))

  -- `genericr.New` of `RunTask`.
  unfoldable pub say : Said → Output → Output
  say said o = write_live (render said) said o

  abbrev pub log_line : ℕ → List ℕ → Stream × Option (List ℕ) → Output → Output
  log_line i time (s, none) o = set_stream i s o
  log_line i time (s, some line) o = say (line_of time i line) (set_stream i s o)

  abbrev pub act : Turn → Output → Output
  act (writes i chunk) o = set_stream i (write_chunk chunk (o.stream i)) o
  act (closes i) o = set_stream i (close_pipe (o.stream i)) o
  act (copies i time) o = log_line i time (copy_turn (o.stream i)) o
  act (speaks time e) o = say (tells time e) o
  act ends o = record o { live = close o.live }

  unfoldable pub turn : Turn → Output → Output
  turn t o = if o.panicked then o else act t o

  unfoldable pub run_output : List Turn → Output → Output
  run_output [] o = o
  run_output (t ∷ ts) o = run_output ts (turn t o)
