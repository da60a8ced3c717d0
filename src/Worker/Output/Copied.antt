-- ===== src/Worker/Output/Copied.antt =====
-- The copies that `runStep` of internal/worker/run.go starts, once they are given enough turns.
use taskcluster_multistage_d.Common.{
  ℕ, zero, suc, ◌≤◌, ◌≡◌, refl, ◌∙◌, ap, sym, subst, true, false, Bool-cases, ==_iff, inl, inr,
  Option, none, some, List, [], ◌∷◌, ◌++◌, append-nil, arith, if◌then◌else◌, read_lines, lines_from,
}
use taskcluster_multistage_d.PubSub.Buffer.{write}
use taskcluster_multistage_d.Log.Fancy.{Style}
use taskcluster_multistage_d.Log.Pipe.{Stream, copy_turn}
use taskcluster_multistage_d.Log.Pipe.Measure.{
  Sound, rest_of, turns_left, copy_turn-Turned, copy_turn-turns,
}
use taskcluster_multistage_d.Log.Pipe.Kept.{Held}
use taskcluster_multistage_d.Worker.Output.{
  Said, line_of, Output, Turn, copies, Labels, new_output, set_stream, after_write, write_live, say,
  log_line, act, turn, run_output,
}
use taskcluster_multistage_d.Worker.Output.Entries.{lines_of, total, rendered, render-line}
use taskcluster_multistage_d.Worker.Output.Delivered.{
  Delivered, run_output-Delivered, new_output-Delivered,
}

-- `n` turns of the copy of pipe `i`.
abbrev pub copying : ℕ → ℕ → List ℕ → List Turn
copying zero i time = []
copying (suc n) i time = copies i time ∷ copying n i time

-- What a turn of the copy of pipe `i` does: the stream moves on, and the live log stays open.
record Moved (i : ℕ) (o p : Output) : Type 0 where
  running : p.panicked ≡ false
  live_open : p.live.closed ≡ false
  moved : p.stream i ≡ (copy_turn (o.stream i)).0

at_self : (i : ℕ) (s : Stream) (o : Output) → (set_stream i s o).stream i ≡ s
at_self i s o = ap (λ b. if b then s else o.stream i) ((==_iff i i).1 refl)

after_write-open :
    (said : Said) (bytes : List ℕ) (o : Output)
    → o.live.closed ≡ false
    → let p = after_write said (write bytes o.live) o in
      (p.live.closed ≡ false) × (p.panicked ≡ o.panicked) × (p.stream ≡ o.stream)
unfolding write
after_write-open said bytes o c = ground arith

copy_turn-finished : (s : Stream) → s.finished ≡ true → (copy_turn s).0 ≡ s
unfolding copy_turn
copy_turn-finished s done = ground arith

one_less :
    (n : ℕ) (s : Stream)
    → Sound s
    → s.closed ≡ true
    → turns_left s ≤ suc n
    → turns_left (copy_turn s).0 ≤ n
one_less n s g shut le = elim (Bool-cases s.finished) [
  | inl done ↦
      let (_, no_unread, no_buffer) = g.at_finish done in
      let same = ap turns_left (copy_turn-finished s done) in
      ground (arith, same, no_unread, no_buffer)
  | inr on ↦ omega (arith, copy_turn-turns s shut on)
]

module _ (style : Style) (labels : Labels) where
  say-open :
      (time line : List ℕ) (i : ℕ) (o : Output)
      → o.live.closed ≡ false
      → let p = say style labels (line_of time i line) o in
        (p.live.closed ≡ false) × (p.panicked ≡ o.panicked) × (p.stream ≡ o.stream)
  unfolding say
  say-open time line i o c =
      let (bytes, e) = render-line style labels time line i in
      subst
        (λ r.
          let p = write_live r (line_of time i line) o in
          (p.live.closed ≡ false) × (p.panicked ≡ o.panicked) × (p.stream ≡ o.stream))
        (sym e) (after_write-open (line_of time i line) bytes o c)

  log_line-Moved :
      (i : ℕ) (time : List ℕ) (line : Option (List ℕ)) (o : Output)
      → o.panicked ≡ false
      → o.live.closed ≡ false
      → Moved i o (log_line style labels i time ((copy_turn (o.stream i)).0, line) o)
  log_line-Moved i time none o alive c = record {
    running = alive;
    live_open = c;
    moved = at_self i (copy_turn (o.stream i)).0 o;
  }
  log_line-Moved i time (some line) o alive c =
      let s = (copy_turn (o.stream i)).0 in
      let (c', alive', same) = say-open time line i (set_stream i s o) c in
      record {
        running = alive' ∙ alive;
        live_open = c';
        moved = ap (λ f. f i) same ∙ at_self i s o;
      }

  turn-Moved :
      (i : ℕ) (time : List ℕ) (o : Output)
      → o.panicked ≡ false
      → o.live.closed ≡ false
      → Moved i o (turn style labels (copies i time) o)
  unfolding turn
  turn-Moved i time o alive c =
      subst (λ b. Moved i o (if b then o else act style labels (copies i time) o)) (sym alive)
        (log_line-Moved i time (copy_turn (o.stream i)).1 o alive c)

  -- The copy finishes, and the live log is open still.
  copying-finished :
      (n i : ℕ) (time : List ℕ) (o : Output)
      → Delivered style labels o
      → o.panicked ≡ false
      → o.live.closed ≡ false
      → (o.stream i).closed ≡ true
      → turns_left (o.stream i) ≤ n
      → let p = run_output style labels (copying n i time) o in
        ((p.stream i).finished ≡ true)
        × ((p.stream i).written ≡ (o.stream i).written)
        × (p.live.closed ≡ false)
  unfolding run_output
  copying-finished zero i time o d alive c shut le = (ground arith, refl, c)
  copying-finished (suc n) i time o d alive c shut le =
      let m = turn-Moved i time o alive c in
      let p = turn style labels (copies i time) o in
      let t = copy_turn-Turned (o.stream i) (d.streams i).0 in
      let shut' = ap (λ s. s.closed) m.moved ∙ t.same_closed ∙ shut in
      let le' =
        subst (λ s. turns_left s ≤ n) (sym m.moved)
          (one_less n (o.stream i) (d.streams i).0 shut le) in
      let d' = run_output-Delivered style labels (copies i time ∷ []) o d in
      let (done, same, c') = copying-finished n i time p d' m.running m.live_open shut' le' in
      (done, same ∙ ap (λ s. s.written) m.moved ∙ t.same_written, c')

-- At the end of a copy nothing is left to log.
all_lines :
    (i : ℕ) (p : Output) (written : List ℕ)
    → Held (total i p) (p.stream i)
    → (p.stream i).finished ≡ true
    → (p.stream i).written ≡ written
    → p.refused ≡ []
    → lines_of i p.logged ≡ lines_from [] written
unfolding lines_from
all_lines i p written (g, k) done same none_lost =
    let (shut, no_unread, no_buffer) = g.at_finish done in
    let left : lines_from [] (rest_of (p.stream i) ++ []) ≡ [] =
      ap (λ u. lines_from [] (((p.stream i).buffer ++ u) ++ [])) no_unread
      ∙ ap (λ b. lines_from [] ((b ++ []) ++ [])) no_buffer in
    sym (append-nil (lines_of i p.logged))
    ∙ ap (λ r. lines_of i p.logged ++ lines_of i r) (sym none_lost)
    ∙ sym (append-nil (total i p))
    ∙ ap (λ l. total i p ++ l) (sym left)
    ∙ k [] (λ h. refl)
    ∙ ap (λ w. lines_from [] w) (append-nil (p.stream i).written ∙ same)

-- If the live log is still open after a schedule, however the writes to the pipes, the turns of the copies, the
-- other entries and the closing of pipes are mixed in it, and pipe `i` is closed and no entry has made
-- the logger panic, then a number of turns of its copy, which is computed from the bytes left, finishes it:
-- the lines that the live log then took from pipe `i` are the lines that `ReadLine` gives of all bytes
-- written to that pipe, in their order, none is refused, and the contents of the live log are the
-- rendered entries.
pub run_output-copied :
    (style : Style) (labels : Labels) (ts : List Turn) (i : ℕ) (time : List ℕ)
    → (run_output style labels ts new_output).panicked ≡ false
    → (run_output style labels ts new_output).live.closed ≡ false
    → ((run_output style labels ts new_output).stream i).closed ≡ true
    → let o = run_output style labels ts new_output in
      let p = run_output style labels (copying (turns_left (o.stream i)) i time) o in
      ((p.stream i).finished ≡ true)
      × (lines_of i p.logged ≡ read_lines (o.stream i).written)
      × (p.refused ≡ [])
      × (p.live.contents ≡ rendered style labels p.logged)
unfolding read_lines
run_output-copied style labels ts i time alive c shut =
    let o = run_output style labels ts new_output in
    let d = run_output-Delivered style labels ts new_output (new_output-Delivered style labels) in
    let n = turns_left (o.stream i) in
    let (done, same, c') = copying-finished style labels n i time o d alive c shut (omega arith) in
    let p = run_output style labels (copying n i time) o in
    let d' = run_output-Delivered style labels (copying n i time) o d in
    (
      done,
      all_lines i p (o.stream i).written (d'.streams i) done same (d'.refused_late c'),
      d'.refused_late c',
      d'.shown,
    )
