-- ===== src/Log/Pipe.antt =====
-- internal/log/log.go, `CopyToLogPrefix` at the reading end of an `io.Pipe`, one call of `ReadLine` or
-- of the pipe's `Read` at a time: what runStep and watchContainer of internal/worker/run.go start.
pub mod Turns
pub mod Measure
pub mod Kept
use taskcluster_multistage_d.Common.{
  ℕ, suc, ◌-◌, Bool, true, false, Option, none, some, List, [], ◌∷◌, ◌++◌, length, take, drop, ◌==◌,
  if◌then◌else◌, newline, carriage_return, buffer_size, drop_return,
}

-- A pipe and the copy at its reading end. `unread`: what is left of the `Write` in progress, which returns once
-- it is empty. `buffer`: what the `bufio.Reader` holds. `written`: all that `Write` was given.
pub record Stream : Type 0 where
  pub unread : List ℕ
  pub closed : Bool
  pub buffer : List ℕ
  pub finished : Bool
  pub written : List ℕ

-- `io.Pipe` and `bufio.NewReader`.
abbrev pub new_stream : Stream
new_stream = record { unread = []; closed = false; buffer = []; finished = false; written = [] }

-- The line at the front of the buffer, up to a newline or a full buffer, and what stays in it; `piece`
-- has been looked at.
unfoldable pub next_line : List ℕ → List ℕ → Option (List ℕ × List ℕ)
next_line piece [] = none
next_line piece (b ∷ bytes) =
    let on = next_line (piece ++ b ∷ []) bytes in
    if b == newline
    then some (drop_return piece, bytes)
    else if suc (length piece) == buffer_size
    then (if b == carriage_return
        then some (piece, carriage_return ∷ bytes)
        else some (piece ++ b ∷ [], bytes))
    else on

-- The pipe is empty: at the end of the stream what is in the buffer is the last line.
abbrev pub at_end : Bool → List ℕ → Stream → Stream × Option (List ℕ)
at_end false buffer s = (s, none)
at_end true [] s = (record s { finished = true }, none)
at_end true (b ∷ buffer) s = (record s { buffer = [] }, some (b ∷ buffer))

-- `Read` of the pipe, into what is free of the buffer.
abbrev pub fill : List ℕ → Stream → Stream × Option (List ℕ)
fill [] s = at_end s.closed s.buffer s
fill (b ∷ unread) s =
    let n = buffer_size - length s.buffer in
    (record s { buffer = s.buffer ++ take n (b ∷ unread); unread = drop n (b ∷ unread) }, none)

abbrev pub take_line : Option (List ℕ × List ℕ) → Stream → Stream × Option (List ℕ)
take_line none s = fill s.unread s
take_line (some (line, rest)) s = (record s { buffer = rest }, some line)

-- A turn of the copy, and the line that it logs. It changes nothing while it waits for a `Write`.
unfoldable pub copy_turn : Stream → Stream × Option (List ℕ)
unfolding next_line
copy_turn s = if s.finished then (s, none) else take_line (next_line [] s.buffer) s

-- A `Write` begins when the one before has returned.
unfoldable pub write_chunk : List ℕ → Stream → Stream
write_chunk chunk s = elim s.unread [
  | [] ↦ if s.closed then s else record s { unread = chunk; written = s.written ++ chunk }
  | b ∷ unread ↦ s
]

-- The deferred `LogClose` of the writing end, once `Run` has returned and no `Write` is in progress.
unfoldable pub close_pipe : Stream → Stream
close_pipe s = elim s.unread [ [] ↦ record s { closed = true } | b ∷ unread ↦ s ]
