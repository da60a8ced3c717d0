-- ===== src/PubSub/Buffer.antt =====
-- internal/pubsubbuffer/pubsubbuffer.go: `Buffer` and `reader`. Bytes are numbers and sizes are
-- unbounded. Each function is one critical section under `b.lock`; `parked` holds the ids of the
-- readers that wait in `cond.Wait()`, and `cond.Broadcast()` empties it.
use taskcluster_multistage_d.Common.{
  ℕ, ◌+◌, ◌-◌, Bool, true, false, Option, none, some, List, [], ◌∷◌, ◌++◌, length, take, drop, ltb,
  if◌then◌else◌,
}

pub record Buffer : Type 0 where
  pub contents : List ℕ
  pub closed : Bool
  pub parked : List ℕ

pub data WriteError : Type 0 where
  buffer_closed : WriteError

unfoldable pub new_buffer : Buffer
new_buffer = record { contents = []; closed = false; parked = [] }

abbrev pub broadcast : Buffer → Buffer
broadcast b = record b { parked = [] }

-- `Close`: it never fails, and may be called again.
unfoldable pub close : Buffer → Buffer
close b = broadcast (record b { closed = true })

-- `Write`: the number of bytes taken, and the error. (`bytes.Buffer.Write` takes all.)
unfoldable pub write : List ℕ → Buffer → Buffer × ℕ × Option WriteError
write src b =
    if b.closed
    then (b, 0, some buffer_closed)
    else (broadcast (record b { contents = b.contents ++ src }), length src, none)

unfoldable pub len : Buffer → ℕ
len b = length b.contents

-- A subscription: the reader's id stands for the goroutine that calls `Read`.
pub record Reader : Type 0 where
  pub id : ℕ
  pub offset : ℕ

unfoldable pub subscribe : ℕ → Reader
subscribe i = record { id = i; offset = 0 }

pub data ReadError : Type 0 where
  context_error eof : ReadError

-- What one turn of the loop in `Read` does: it returns bytes, returns an error, or waits.
pub data ReadResult : Type 0 where
  got : List ℕ → ReadResult
  failed : ReadError → ReadResult
  waits : ReadResult

abbrev pub to_copy : ℕ → ℕ → ℕ
to_copy remainder dest = if ltb remainder dest then remainder else dest

-- One turn of the loop in `reader.Read`, for a destination of `dest` bytes. `remainder` is cut off
-- at 0, where the source's may be negative: both are then not above 0.
unfoldable pub read : Bool → ℕ → Buffer → Reader → Buffer × Reader × ReadResult
read cancelled dest b r =
    let remainder = length b.contents - r.offset in
    let n = to_copy remainder dest in
    if cancelled
    then (b, r, failed context_error)
    else if ltb 0 remainder
    then (b, record r { offset = r.offset + n }, got (take n (drop r.offset b.contents)))
    else if b.closed
    then (b, r, failed eof)
    else (record b { parked = r.id ∷ b.parked }, r, waits)
