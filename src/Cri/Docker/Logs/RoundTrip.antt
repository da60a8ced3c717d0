-- ===== src/Cri/Docker/Logs/RoundTrip.antt =====
-- The log stream that the Docker daemon writes, and `dockerContainer.Run` (internal/cri/docker.go).
use taskcluster_multistage_d.Common.{
  ℕ, zero, suc, ◌/◌, ◌%◌, ◌^◌, ◌<◌, ◌≡◌, refl, sym, ap, ◌∙◌, subst, false, Option, none, some, List,
  [], ◌∷◌, ◌++◌, ◌==◌, if◌then◌else◌, length, arith, length-append, inl, inr, ◌⊎◌, append_assoc,
  append-nil,
}
use taskcluster_multistage_d.Worker.Calls.{Result, ok, err}
use taskcluster_multistage_d.Cri.Docker.Logs.{
  LogWorld, Writer, or_discard, Chunk, exits, Copy, copied, stop, panics, short_read, next_frame,
  on_header, writer_of, u32, copy_payload, copy_frame, finish, copy_frames, follow_logs,
  after_start, run_container,
}
use taskcluster_multistage_d.Cri.Docker.Logs.Payload.{
  tag, flow, AllSmall, read_full-append, Grows, copy_payload-Grows,
}

-- A frame as the daemon writes it.
pub record Frame : Type 0 where
  pub stream_type : ℕ
  pub payload : List ℕ

abbrev pub big_endian : ℕ → List ℕ
big_endian n = n / 16777216 ∷ n / 65536 % 256 ∷ n / 256 % 256 ∷ n % 256 ∷ []

abbrev pub encode_frame : Frame → List ℕ
encode_frame f = f.stream_type ∷ 0 ∷ 0 ∷ 0 ∷ (big_endian (length f.payload) ++ f.payload)

abbrev pub encode : List Frame → List ℕ
encode [] = []
encode (f ∷ fs) = encode_frame f ++ encode fs

abbrev pub IsFrame : Frame → Type 0
IsFrame f = ((f.stream_type ≡ 1) ⊎ (f.stream_type ≡ 2)) × (length f.payload < 2 ^ 32)

abbrev pub AllFrames : List Frame → Type 0
AllFrames [] = Unit {0}
AllFrames (f ∷ fs) = IsFrame f × AllFrames fs

abbrev pub target : Option ℕ → Option ℕ → Frame → Writer
target stdout stderr f = if f.stream_type == 1 then or_discard stdout else or_discard stderr

abbrev pub sent : Option ℕ → Option ℕ → List Frame → List (Writer × ℕ)
sent stdout stderr [] = []
sent stdout stderr (f ∷ fs) = tag (target stdout stderr f) f.payload ++ sent stdout stderr fs

u32-big_endian : (n : ℕ) → n < 2 ^ 32 → u32 (big_endian n) ≡ n
u32-big_endian n h = omega arith

module _ (lw : LogWorld)
    (takes : (h : List Chunk) (k : ℕ) (bs : List ℕ) → lw.write_error h k bs ≡ none) where
  abbrev header : Frame → List ℕ
  header f = f.stream_type ∷ 0 ∷ 0 ∷ 0 ∷ big_endian (length f.payload)

  writer_of-target :
      (stdout stderr : Option ℕ) (f : Frame)
      → IsFrame f
      → (writer_of stdout stderr f.stream_type ≡ some (target stdout stderr f))
        × ((f.stream_type == 0) ≡ false)
  writer_of-target stdout stderr f (inl one, lt) = rw one (refl, refl)
  writer_of-target stdout stderr f (inr two, lt) = rw two (refl, refl)

  copy_frame-Grows :
      (stdout stderr : Option ℕ) (f : Frame) (rest : List ℕ) (h : List Chunk)
      → IsFrame f
      → Grows h
          (tag (target stdout stderr f) f.payload)
          rest
          (copy_frame lw stdout stderr (header f) (f.payload ++ rest) h)
  unfolding copy_frame
  copy_frame-Grows stdout stderr f rest h valid =
      let n = length f.payload in
      let (to_target, not_stdin) = writer_of-target stdout stderr f valid in
      let payload =
        subst
          (λ v.
            Grows h (tag (target stdout stderr f) f.payload) rest
              (copy_payload lw v n n (f.payload ++ rest) h))
          (sym to_target)
          (copy_payload-Grows lw takes (target stdout stderr f) n f.payload rest h (omega arith)) in
      let decoded =
        subst
          (λ k.
            Grows h (tag (target stdout stderr f) f.payload) rest
              (copy_payload lw (writer_of stdout stderr f.stream_type) k k (f.payload ++ rest) h))
          (sym (u32-big_endian n valid.1)) payload in
      subst
        (λ t. Grows h (tag (target stdout stderr f) f.payload) rest (
          if t
          then stop h panics
          else copy_payload lw (writer_of stdout stderr f.stream_type) (u32 (big_endian n))
              (u32 (big_endian n)) (f.payload ++ rest) h))
        (sym not_stdin) decoded

  copy_frames-step :
      (stdout stderr : Option ℕ) (fuel : ℕ) (f : Frame) (rest : List ℕ) (h h' : List Chunk)
      → copy_frame lw stdout stderr (header f) (f.payload ++ rest) h ≡ copied rest h'
      → copy_frames lw stdout stderr (suc fuel) (encode_frame f ++ rest) h
        ≡ copy_frames lw stdout stderr fuel rest h'
  unfolding copy_frames on_header
  copy_frames-step stdout stderr fuel f rest h h' e =
      ap (on_header lw stdout stderr h (copy_frames lw stdout stderr fuel))
        (read_full-append 8 lw.ends (header f) (f.payload ++ rest) (omega arith))
      ∙ ap (next_frame (copy_frames lw stdout stderr fuel)) e

  -- All frames are copied, and then the container is inspected.
  record IsCopied (stdout stderr : Option ℕ) (h : List Chunk) (fs : List Frame) (c : Copy)
      : Type 0 where
    ends : c.ending ≡ (finish [] lw.inspect).ending
    flows : flow c.chunks ≡ flow h ++ sent stdout stderr fs
    small : AllSmall h → AllSmall c.chunks

  finish-IsCopied :
      (stdout stderr : Option ℕ) (h : List Chunk) (r : Result ℕ)
      → lw.inspect ≡ r
      → IsCopied stdout stderr h [] (finish h r)
  finish-IsCopied stdout stderr h (ok code) e = record {
    ends = rw e refl;
    flows = sym (append-nil (flow h));
    small = λ a. a;
  }
  finish-IsCopied stdout stderr h (err x) e = record {
    ends = rw e refl;
    flows = sym (append-nil (flow h));
    small = λ a. a;
  }

  copy_frames-encode :
      (stdout stderr : Option ℕ) (fuel : ℕ) (fs : List Frame) (h : List Chunk)
      → lw.ends ≡ none
      → AllFrames fs
      → length (encode fs) < fuel
      → IsCopied stdout stderr h fs (copy_frames lw stdout stderr fuel (encode fs) h)
  unfolding copy_frames
  copy_frames-encode stdout stderr zero fs h eof valid lt = absurd (omega arith)
  copy_frames-encode stdout stderr (suc fuel) [] h eof valid lt =
      subst
        (λ e.
          IsCopied stdout stderr h []
            (on_header lw stdout stderr h (copy_frames lw stdout stderr fuel) (short_read e [])))
        (sym eof) (finish-IsCopied stdout stderr h lw.inspect refl)
  copy_frames-encode stdout stderr (suc fuel) (f ∷ fs) h eof valid lt =
      let g = copy_frame-Grows stdout stderr f (encode fs) h valid.0 in
      let k =
        copy_frames-encode stdout stderr fuel fs g.history eof valid.1
          (omega (arith, length-append f.payload (encode fs))) in
      rw (copy_frames-step stdout stderr fuel f (encode fs) h g.history g.goes_on) (record {
        ends = k.ends;
        flows =
            k.flows
            ∙ ap (λ t. t ++ sent stdout stderr fs) g.flows
            ∙ append_assoc (flow h) (tag (target stdout stderr f) f.payload)
                (sent stdout stderr fs);
        small = λ a. k.small (g.small a);
      })

  follow_logs-encode :
      (stdout stderr : Option ℕ) (fs : List Frame)
      → lw.logs ≡ ok (encode fs)
      → lw.ends ≡ none
      → AllFrames fs
      → IsCopied stdout stderr [] fs (follow_logs lw stdout stderr lw.logs)
  unfolding follow_logs
  follow_logs-encode stdout stderr fs streams eof valid =
      subst (λ r. IsCopied stdout stderr [] fs (follow_logs lw stdout stderr r)) (sym streams)
        (copy_frames-encode stdout stderr (suc (length (encode fs))) fs [] eof valid (omega arith))

-- What the Docker daemon wrote in frames of the streams 1 and 2, with payloads below 2^32 bytes, is
-- what `Run` writes: each byte to stdout or stderr by its frame, all of them in the order of the
-- frames, also where the two are one writer, and in writes of at most 4096 bytes. Then `Run` gives
-- the exit code. This is for a container that starts, a log stream that ends in `io.EOF`, and writers
-- that take every write.
pub run_container-encode :
    (lw : LogWorld) (stdout stderr : Option ℕ) (fs : List Frame) (code : ℕ)
    → ((h : List Chunk) (k : ℕ) (bs : List ℕ) → lw.write_error h k bs ≡ none)
    → lw.start ≡ none
    → lw.logs ≡ ok (encode fs)
    → lw.ends ≡ none
    → lw.inspect ≡ ok code
    → AllFrames fs
    → let c = run_container lw stdout stderr in
      (c.ending ≡ exits code) × (flow c.chunks ≡ sent stdout stderr fs) × AllSmall c.chunks
unfolding run_container after_start
run_container-encode lw stdout stderr fs code takes starts streams eof inspected valid =
    let c = follow_logs-encode lw takes stdout stderr fs streams eof valid in
    subst
      (λ e.
        ((after_start lw stdout stderr e).ending ≡ exits code)
        × (flow (after_start lw stdout stderr e).chunks ≡ sent stdout stderr fs)
        × AllSmall (after_start lw stdout stderr e).chunks)
      (sym starts) (c.ends ∙ ap (λ r. (finish [] r).ending) inspected, c.flows, c.small tt)
