-- ===== src/Cri/Docker/Logs/Ends.antt =====
-- How `dockerContainer.Run` of internal/cri/docker.go ends, and its fuel.
use taskcluster_multistage_d.Common.{
  ℕ, zero, suc, ◌+◌, ◌-◌, ◌≤◌, ◌<◌, ◌≢◌, Option, none, some, List, [], ◌∷◌, ltb, ◌==◌, length,
  arith, length-drop, Bool-cases, inl, inr,
}
use taskcluster_multistage_d.Exception.{Error}
use taskcluster_multistage_d.Worker.Calls.{Result, ok, err}
use taskcluster_multistage_d.Cri.Docker.Logs.{
  LogWorld, Writer, Chunk, Filled, full, at_eof, broken, read_full, short_read, stuck, Copy, Step,
  copied, stops, copy_part, write_part, to_read, copy_payload, copy_frame, finish, error_of_write,
  after_write, go_on, next_frame, on_header, head_or_zero, payload_length, copy_frames, follow_logs,
  after_start, run_container,
}

-- A step that is not stuck, and leaves no more than `n` bytes.
abbrev Leaves : ℕ → Step → Type 0
Leaves n (copied rest h) = length rest ≤ n
Leaves n (stops o) = o.ending ≢ stuck

abbrev Cuts : ℕ → List ℕ → Filled → Type 0
Cuts n bytes (full part rest) = length rest + n ≤ length bytes
Cuts n bytes _ = Unit {0}

short_read-Cuts :
    (n : ℕ) (ends : Option Error) (bytes : List ℕ) → Cuts n bytes (short_read ends bytes)
short_read-Cuts n (some e) bytes = tt
short_read-Cuts n none [] = tt
short_read-Cuts n none (b ∷ bytes) = tt

read_full-Cuts :
    (n : ℕ) (ends : Option Error) (bytes : List ℕ) → Cuts n bytes (read_full n ends bytes)
unfolding read_full
read_full-Cuts n ends bytes = elim (Bool-cases (ltb (length bytes) n)) [
  | inl short ↦ rw short (short_read-Cuts n ends bytes)
  | inr enough ↦ rw enough (ground (arith, length-drop n bytes))
]

after_write-Leaves :
    (e : Option Error) (w : Writer) (part rest : List ℕ) (h : List Chunk)
    → Leaves (length rest) (after_write e w part rest h)
after_write-Leaves (some e) w part rest h = λ s. cc
after_write-Leaves none w part rest h = omega arith

write_part-Leaves :
    (lw : LogWorld) (w : Option Writer) (part rest : List ℕ) (h : List Chunk)
    → Leaves (length rest) (write_part lw w part rest h)
write_part-Leaves lw none part rest h = cc
write_part-Leaves lw (some w) part rest h =
    after_write-Leaves (error_of_write lw h w part) w part rest h

Leaves-mono : (m n : ℕ) (s : Step) → m ≤ n → Leaves m s → Leaves n s
Leaves-mono m n (copied rest h) le l = omega arith
Leaves-mono m n (stops o) le l = l

copy_part-Leaves :
    (lw : LogWorld) (w : Option Writer) (h : List Chunk) (n : ℕ) (bytes : List ℕ) (r : Filled)
    → Cuts n bytes r
    → Leaves (length bytes) (copy_part lw w h r)
copy_part-Leaves lw w h n bytes at_eof c = λ s. cc
copy_part-Leaves lw w h n bytes (broken e) c = λ s. cc
copy_part-Leaves lw w h n bytes (full part rest) c =
    Leaves-mono (length rest) (length bytes) _ (omega arith) (write_part-Leaves lw w part rest h)

go_on-Leaves :
    (n : ℕ) (more : List ℕ → List Chunk → Step) (s : Step)
    → Leaves n s
    → ((rest : List ℕ) (h : List Chunk) → length rest ≤ n → Leaves n (more rest h))
    → Leaves n (go_on more s)
go_on-Leaves n more (copied rest h) l next = next rest h l
go_on-Leaves n more (stops o) l next = l

copy_payload-Leaves :
    (lw : LogWorld) (w : Option Writer) (fuel n : ℕ) (bytes : List ℕ) (h : List Chunk)
    → n ≤ fuel
    → Leaves (length bytes) (copy_payload lw w fuel n bytes h)
unfolding copy_payload
copy_payload-Leaves lw w zero n bytes h le = elim (Bool-cases (n == 0)) [
  | inl e ↦ rw (e, Leaves) (omega arith)
  | inr e ↦ absurd (ground arith)
]
copy_payload-Leaves lw w (suc fuel) n bytes h le = elim (Bool-cases (n == 0)) [
  | inl e ↦ rw (e, Leaves) (omega arith)
  | inr e ↦
      rw (e, Leaves)
        (go_on-Leaves (length bytes) _ (copy_part lw w h (read_full (to_read n) lw.ends bytes))
          (copy_part-Leaves lw w h (to_read n) bytes _ (read_full-Cuts (to_read n) lw.ends bytes))
          λ rest h' shorter.
            Leaves-mono (length rest) (length bytes) _ shorter
              (copy_payload-Leaves lw w fuel (n - to_read n) rest h' (ground arith)))
]

copy_frame-Leaves :
    (lw : LogWorld) (stdout stderr : Option ℕ) (header bytes : List ℕ) (h : List Chunk)
    → Leaves (length bytes) (copy_frame lw stdout stderr header bytes h)
unfolding copy_frame
copy_frame-Leaves lw stdout stderr header bytes h = elim (Bool-cases (head_or_zero header == 0)) [
  | inl e ↦ rw (e, Leaves) (λ s. cc)
  | inr e ↦
      rw (e, Leaves)
        (copy_payload-Leaves lw _ (payload_length header) (payload_length header) bytes h
          (omega arith))
]

finish_ne_stuck : (h : List Chunk) (r : Result ℕ) → (finish h r).ending ≢ stuck
finish_ne_stuck h (ok code) = λ s. cc
finish_ne_stuck h (err e) = λ s. cc

next_frame_ne_stuck :
    (n : ℕ) (more : List ℕ → List Chunk → Copy) (s : Step)
    → Leaves n s
    → ((rest : List ℕ) (h : List Chunk) → length rest ≤ n → (more rest h).ending ≢ stuck)
    → (next_frame more s).ending ≢ stuck
next_frame_ne_stuck n more (copied rest h) l next = next rest h l
next_frame_ne_stuck n more (stops o) l next = l

on_header_ne_stuck :
    (lw : LogWorld) (stdout stderr : Option ℕ) (h : List Chunk) (n : ℕ) (bytes : List ℕ)
    (more : List ℕ → List Chunk → Copy) (r : Filled)
    → Cuts 8 bytes r
    → length bytes < suc n
    → ((rest : List ℕ) (h' : List Chunk) → length rest < n → (more rest h').ending ≢ stuck)
    → (on_header lw stdout stderr h more r).ending ≢ stuck
unfolding on_header
on_header_ne_stuck lw stdout stderr h n bytes more at_eof c lt next = finish_ne_stuck h lw.inspect
on_header_ne_stuck lw stdout stderr h n bytes more (broken e) c lt next = λ s. cc
on_header_ne_stuck lw stdout stderr h n bytes more (full header rest) c lt next =
    next_frame_ne_stuck (length rest) more (copy_frame lw stdout stderr header rest h)
      (copy_frame-Leaves lw stdout stderr header rest h)
      (λ rest' h' le. next rest' h' (omega arith))

copy_frames_ne_stuck :
    (lw : LogWorld) (stdout stderr : Option ℕ) (fuel : ℕ) (bytes : List ℕ) (h : List Chunk)
    → length bytes < fuel
    → (copy_frames lw stdout stderr fuel bytes h).ending ≢ stuck
unfolding copy_frames
copy_frames_ne_stuck lw stdout stderr zero bytes h lt = absurd (omega arith)
copy_frames_ne_stuck lw stdout stderr (suc fuel) bytes h lt =
    on_header_ne_stuck lw stdout stderr h fuel bytes _ (read_full 8 lw.ends bytes)
      (read_full-Cuts 8 lw.ends bytes) lt (copy_frames_ne_stuck lw stdout stderr fuel)

follow_logs_ne_stuck :
    (lw : LogWorld) (stdout stderr : Option ℕ) (r : Result (List ℕ))
    → (follow_logs lw stdout stderr r).ending ≢ stuck
unfolding follow_logs
follow_logs_ne_stuck lw stdout stderr (err e) = λ s. cc
follow_logs_ne_stuck lw stdout stderr (ok bytes) =
    copy_frames_ne_stuck lw stdout stderr (suc (length bytes)) bytes [] (omega arith)

after_start_ne_stuck :
    (lw : LogWorld) (stdout stderr : Option ℕ) (e : Option Error)
    → (after_start lw stdout stderr e).ending ≢ stuck
unfolding after_start
after_start_ne_stuck lw stdout stderr (some e) = λ s. cc
after_start_ne_stuck lw stdout stderr none = follow_logs_ne_stuck lw stdout stderr lw.logs

-- Whatever bytes the log stream holds and however it ends, `Run` ends in an exit code, an error or a
-- panic: the fuel that the model gives it is enough.
pub run_container_ends :
    (lw : LogWorld) (stdout stderr : Option ℕ) → (run_container lw stdout stderr).ending ≢ stuck
unfolding run_container
run_container_ends lw stdout stderr = after_start_ne_stuck lw stdout stderr lw.start
