-- ===== src/PubSub/Contents.antt =====
-- internal/pubsubbuffer/pubsubbuffer.go: a subscription that is read to its end, as by `ioutil.ReadAll` or
-- `io.Copy`.
use taskcluster_multistage_d.Common.{
  ℕ, zero, suc, ◌+◌, ◌-◌, ◌<◌, ◌≤◌, ◌≡◌, ◌⊎◌, ap, sym, ◌∙◌, inl, inr, Option, none, some, true,
  false, List, [], ◌++◌, length, take, drop, arith, Bool-cases, ltb, drop_all,
  take-drop-append-drop,
}
use taskcluster_multistage_d.PubSub.Buffer.{
  Buffer, Reader, ReadResult, context_error, got, failed, waits, eof, read, subscribe, len, to_copy,
}

abbrev pub prepend : List ℕ → Option (List ℕ) → Option (List ℕ)
prepend bytes none = none
prepend bytes (some rest) = some (bytes ++ rest)

abbrev pub after_read : ReadResult → Option (List ℕ) → Option (List ℕ)
after_read (got bytes) rest = prepend bytes rest
after_read (failed eof) rest = some []
after_read (failed context_error) rest = none
after_read waits rest = none

lt-cases : (a b : ℕ) → (a < b) ⊎ (b ≤ a)
lt-cases a b = elim (Bool-cases (ltb a b)) [
  | inl e ↦ inl (ground arith)
  | inr e ↦ inr (ground arith)
]

-- The bytes that `fuel` calls of `Read` give up to `io.EOF`; `none` if they do not come to it, since one of them
-- gives another error or waits, or the fuel runs out.
unfoldable pub read_to_end : ℕ → ℕ → Buffer → Reader → Option (List ℕ)
unfolding read
read_to_end zero dest b r = none
read_to_end (suc fuel) dest b r =
    let (b', r', result) = read false dest b r in after_read result (read_to_end fuel dest b' r')

-- A turn on a buffer that is closed gives all that is left, or a part of it that is not empty.
read-closed :
    (dest : ℕ) (b : Buffer) (r : Reader)
    → b.closed ≡ true
    → 0 < dest
    → length b.contents ≤ r.offset
    → read false dest b r ≡ (b, r, failed eof)
unfolding read
read-closed dest b r shut pos past = ground arith

read-left :
    (dest : ℕ) (b : Buffer) (r : Reader)
    → r.offset < length b.contents
    → let n = to_copy (length b.contents - r.offset) dest in
      read false dest b r
      ≡ (b, record r { offset = r.offset + n }, got (take n (drop r.offset b.contents)))
unfolding read
read-left dest b r more = ground arith

-- A closed buffer that is read from an offset on, which is not beyond its end, gives all its bytes from there, if there are more reads than
-- such bytes, and each has room for a byte.
pub read_to_end-drop :
    (fuel dest : ℕ) (b : Buffer) (r : Reader)
    → b.closed ≡ true
    → 0 < dest
    → r.offset ≤ length b.contents
    → length b.contents < r.offset + fuel
    → read_to_end fuel dest b r ≡ some (drop r.offset b.contents)
unfolding read_to_end
read_to_end-drop zero dest b r shut pos within enough = absurd (omega arith)
read_to_end-drop (suc fuel) dest b r shut pos within enough =
    elim (lt-cases r.offset (length b.contents)) [
      | inl more ↦
          let n = to_copy (length b.contents - r.offset) dest in
          rw (read-left dest b r more) (
            ap (prepend (take n (drop r.offset b.contents))) (
              read_to_end-drop fuel dest b (record r { offset = r.offset + n }) shut pos
                (ground arith) (ground arith))
            ∙ ap some (take-drop-append-drop r.offset n b.contents))
      | inr past ↦
          rw (read-closed dest b r shut pos past)
            (ap some (sym (drop_all r.offset b.contents past)))
    ]

-- A new subscription of a closed buffer reads its contents.
pub read_to_end-contents :
    (dest : ℕ) (b : Buffer)
    → b.closed ≡ true
    → 0 < dest
    → read_to_end (suc (len b)) dest b (subscribe 0) ≡ some b.contents
unfolding len subscribe
read_to_end-contents dest b shut pos =
    read_to_end-drop (suc (length b.contents)) dest b (record { id = 0; offset = 0 }) shut pos
      (omega arith) (omega arith)
