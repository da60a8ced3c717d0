-- ===== src/Cri/Docker/Logs.antt =====
-- internal/cri/docker.go: `dockerContainer.Run`, which starts a container and copies its log stream.
-- The stream is a sequence of frames: the type of the stream, three bytes, the length of the payload
-- as a big-endian uint32, and the payload, which is copied in parts of at most 4096 bytes.
pub mod Ends
pub mod Payload
pub mod RoundTrip
use taskcluster_multistage_d.Common.{
  ℕ, zero, suc, ◌+◌, ◌-◌, ◌*◌, Bool, true, false, Option, none, some, List, [], ◌∷◌, ◌++◌, ltb,
  ◌==◌, if◌then◌else◌, length, take, drop,
}
use taskcluster_multistage_d.Exception.{Error, plain}
use taskcluster_multistage_d.Worker.Calls.{Result, ok, err}

-- Where output goes: `ioutil.Discard` in place of nil, or a writer of the caller, by a number.
pub data Writer : Type 0 where
  discard : Writer
  given : ℕ → Writer

abbrev pub or_discard : Option ℕ → Writer
or_discard none = discard
or_discard (some w) = given w

-- One call of `Write`.
pub record Chunk : Type 0 where
  pub writer : Writer
  pub bytes : List ℕ

-- What is outside: whether the container starts; the log stream, as its bytes and the error at its
-- end (none is `io.EOF`), or the error of asking for it; the exit code at the end; and the error of a
-- write by a caller's writer, given the writes before it.
pub record LogWorld : Type 0 where
  pub start : Option Error
  pub logs : Result (List ℕ)
  pub ends : Option Error
  pub inspect : Result ℕ
  pub write_error : List Chunk → ℕ → List ℕ → Option Error

-- `io.ReadFull`: `io.EOF` only where nothing was read.
pub data Filled : Type 0 where
  full : List ℕ → List ℕ → Filled
  at_eof : Filled
  broken : Error → Filled

abbrev pub unexpected_eof : Error
unexpected_eof = plain "unexpected EOF"

abbrev pub short_read : Option Error → List ℕ → Filled
short_read (some e) bytes = broken e
short_read none [] = at_eof
short_read none (b ∷ bytes) = broken unexpected_eof

unfoldable pub read_full : ℕ → Option Error → List ℕ → Filled
read_full n ends bytes =
    if ltb (length bytes) n then short_read ends bytes else full (take n bytes) (drop n bytes)

-- How `Run` ends. `panics`: the stream type 0, or a write to a nil writer. `stuck` is no Go value: the
-- fuel has run out.
pub data Ending : Type 0 where
  exits : ℕ → Ending
  fails : Error → Ending
  panics stuck : Ending

pub record Copy : Type 0 where
  pub chunks : List Chunk
  pub ending : Ending

-- A frame copied, with the bytes that follow it, or the end of `Run`.
pub data Step : Type 0 where
  copied : List ℕ → List Chunk → Step
  stops : Copy → Step

abbrev pub stop : List Chunk → Ending → Step
stop h e = stops (record { chunks = h; ending = e })

abbrev pub max : ℕ
max = 4096

abbrev pub to_read : ℕ → ℕ
to_read n = if ltb max n then max else n

-- `w.Write`: a discarded write is kept in the history too. `w` is nil for any other stream type.
abbrev pub error_of_write : LogWorld → List Chunk → Writer → List ℕ → Option Error
error_of_write lw h discard bytes = none
error_of_write lw h (given k) bytes = lw.write_error h k bytes

abbrev pub after_write : Option Error → Writer → List ℕ → List ℕ → List Chunk → Step
after_write (some e) w part rest h = stop h (fails e)
after_write none w part rest h = copied rest (h ++ record { writer = w; bytes = part } ∷ [])

abbrev pub write_part : LogWorld → Option Writer → List ℕ → List ℕ → List Chunk → Step
write_part lw none part rest h = stop h panics
write_part lw (some w) part rest h = after_write (error_of_write lw h w part) w part rest h

-- A round of the inner loop.
abbrev pub copy_part : LogWorld → Option Writer → List Chunk → Filled → Step
copy_part lw w h at_eof = stop h (fails (plain "EOF"))
copy_part lw w h (broken e) = stop h (fails e)
copy_part lw w h (full part rest) = write_part lw w part rest h

-- The next round, if there is one.
abbrev pub go_on : (List ℕ → List Chunk → Step) → Step → Step
go_on more (copied rest h) = more rest h
go_on more (stops o) = stops o

-- The inner loop, for the `n` bytes of a payload.
unfoldable pub copy_payload : LogWorld → Option Writer → ℕ → ℕ → List ℕ → List Chunk → Step
unfolding read_full
copy_payload lw w zero n bytes h = if n == 0 then copied bytes h else stop h stuck
copy_payload lw w (suc fuel) n bytes h =
    let round =
      go_on (copy_payload lw w fuel (n - to_read n))
        (copy_part lw w h (read_full (to_read n) lw.ends bytes)) in
    if n == 0 then copied bytes h else round

abbrev pub u32 : List ℕ → ℕ
u32 (a ∷ b ∷ c ∷ d ∷ []) = a * 16777216 + b * 65536 + c * 256 + d
u32 _ = 0

-- `buf[0]` and `binary.BigEndian.Uint32(buf[4:8])`.
abbrev pub head_or_zero : List ℕ → ℕ
head_or_zero [] = 0
head_or_zero (b ∷ bs) = b

abbrev pub payload_length : List ℕ → ℕ
payload_length header = u32 (drop 4 header)

abbrev pub writer_of : Option ℕ → Option ℕ → ℕ → Option Writer
writer_of stdout stderr stream_type =
    if stream_type == 1
    then some (or_discard stdout)
    else if stream_type == 2
    then some (or_discard stderr)
    else none

unfoldable pub copy_frame : LogWorld → Option ℕ → Option ℕ → List ℕ → List ℕ → List Chunk → Step
unfolding copy_payload
copy_frame lw stdout stderr header bytes h =
    let n = payload_length header in
    let payload = copy_payload lw (writer_of stdout stderr (head_or_zero header)) n n bytes h in
    if head_or_zero header == 0 then stop h panics else payload

abbrev pub finish : List Chunk → Result ℕ → Copy
finish h (ok code) = record { chunks = h; ending = exits code }
finish h (err e) = record { chunks = h; ending = fails e }

-- The next frame, if there is one.
abbrev pub next_frame : (List ℕ → List Chunk → Copy) → Step → Copy
next_frame more (copied rest h) = more rest h
next_frame more (stops o) = o

abbrev pub on_header :
    LogWorld → Option ℕ → Option ℕ → List Chunk → (List ℕ → List Chunk → Copy) → Filled → Copy
unfolding copy_frame
on_header lw stdout stderr h more at_eof = finish h lw.inspect
on_header lw stdout stderr h more (broken e) = record { chunks = h; ending = fails e }
on_header lw stdout stderr h more (full header rest) =
    next_frame more (copy_frame lw stdout stderr header rest h)

-- The outer loop.
unfoldable pub copy_frames : LogWorld → Option ℕ → Option ℕ → ℕ → List ℕ → List Chunk → Copy
unfolding read_full copy_frame
copy_frames lw stdout stderr zero bytes h = record { chunks = h; ending = stuck }
copy_frames lw stdout stderr (suc fuel) bytes h =
    on_header lw stdout stderr h (copy_frames lw stdout stderr fuel) (read_full 8 lw.ends bytes)

-- Each round of the outer loop but the last reads eight bytes, so this fuel is more than enough.
abbrev pub follow_logs : LogWorld → Option ℕ → Option ℕ → Result (List ℕ) → Copy
unfolding copy_frames
follow_logs lw stdout stderr (err e) = record { chunks = []; ending = fails e }
follow_logs lw stdout stderr (ok bytes) = copy_frames lw stdout stderr (suc (length bytes)) bytes []

abbrev pub after_start : LogWorld → Option ℕ → Option ℕ → Option Error → Copy
unfolding copy_frames
after_start lw stdout stderr (some e) = record { chunks = []; ending = fails e }
after_start lw stdout stderr none = follow_logs lw stdout stderr lw.logs

unfoldable pub run_container : LogWorld → Option ℕ → Option ℕ → Copy
unfolding copy_frames
run_container lw stdout stderr = after_start lw stdout stderr lw.start
