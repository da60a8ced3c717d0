-- ===== src/Worker/Output/Lost.antt =====
-- The output of internal/worker/run.go after the live log is closed: nothing waits for the copies.
use taskcluster_multistage_d.Common.{
  ℕ, ◌≤◌, ◌≡◌, refl, ◌∙◌, ap, sym, subst, true, false, Bool-cases, inl, inr, Option, none, some,
  List, [], ◌∷◌, ◌++◌, append-nil, length, arith, if◌then◌else◌, read_lines, lines_from,
  buffer_size,
}
use taskcluster_multistage_d.PubSub.Buffer.{write, close}
use taskcluster_multistage_d.Log.Fancy.{Style}
use taskcluster_multistage_d.Log.Pipe.{Stream, copy_turn}
use taskcluster_multistage_d.Log.Pipe.Measure.{rest_of}
use taskcluster_multistage_d.Worker.Output.{
  Said, line_of, tells, Output, Turn, writes, closes, copies, speaks, ends, Labels, new_output,
  set_stream, render, after_write, write_live, say, log_line, act, turn, run_output,
}
use taskcluster_multistage_d.Worker.Output.Entries.{lines_of, total}
use taskcluster_multistage_d.Worker.Output.Delivered.{run_output-Delivered, new_output-Delivered}

-- The live log is closed, and holds what it held.
abbrev Shut : Output → Output → Type 0
Shut o p = (p.live.closed ≡ true) × (p.live.contents ≡ o.live.contents) × (p.logged ≡ o.logged)

after_write-Shut :
    (said : Said) (bytes : List ℕ) (o p : Output)
    → Shut o p
    → Shut o (after_write said (write bytes p.live) p)
unfolding write
after_write-Shut said bytes o p k = ground arith

module _ (style : Style) (labels : Labels) where
  say-Shut : (said : Said) (o p : Output) → Shut o p → Shut o (say style labels said p)
  unfolding say
  say-Shut said o p k = go (render style labels said)
    where
      go : (r : Option (List ℕ)) → Shut o (write_live r said p)
      go none = k
      go (some bytes) = after_write-Shut said bytes o p k

  act-Shut : (t : Turn) (o p : Output) → Shut o p → Shut o (act style labels t p)
  unfolding close
  act-Shut (writes i chunk) o p k = k
  act-Shut (closes i) o p k = k
  act-Shut (copies i time) o p k = go (copy_turn (p.stream i)).0 (copy_turn (p.stream i)).1
    where
      go : (s : Stream) (line : Option (List ℕ)) → Shut o (log_line style labels i time (s, line) p)
      go s none = k
      go s (some line) = say-Shut (line_of time i line) o (set_stream i s p) k
  act-Shut (speaks time e) o p k = say-Shut (tells time e) o p k
  act-Shut ends o p k = (refl, k.1, k.2)

  run_output-Shut :
      (ts : List Turn) (o p : Output) → Shut o p → Shut o (run_output style labels ts p)
  unfolding run_output turn
  run_output-Shut [] o p k = k
  run_output-Shut (t ∷ ts) o p k = elim (Bool-cases p.panicked) [
    | inl q ↦
        run_output-Shut ts o _
          (subst (λ b. Shut o (if b then p else act style labels t p)) (sym q) k)
    | inr q ↦
        run_output-Shut ts o _
          (subst (λ b. Shut o (if b then p else act style labels t p)) (sym q) (act-Shut t o p k))
  ]

-- With no write in progress, what is not logged is in the buffer of the copy.
taken :
    (i : ℕ) (o p : Output)
    → (o.stream i).unread ≡ []
    → o.refused ≡ []
    → p.logged ≡ o.logged
    → total i o ++ lines_from [] (rest_of (o.stream i) ++ [])
      ≡ lines_from [] ((o.stream i).written ++ [])
    → lines_of i p.logged ++ read_lines (o.stream i).buffer ≡ read_lines (o.stream i).written
unfolding read_lines
taken i o p no_unread none_lost same kept =
    let s = o.stream i in
    let held : rest_of s ++ [] ≡ s.buffer =
      append-nil (rest_of s) ∙ ap (λ u. s.buffer ++ u) no_unread ∙ append-nil s.buffer in
    let all : total i o ≡ lines_of i p.logged =
      ap (λ r. lines_of i o.logged ++ lines_of i r) none_lost
      ∙ append-nil (lines_of i o.logged)
      ∙ ap (lines_of i) (sym same) in
    ap (λ l. l ++ lines_from [] s.buffer) (sym all)
    ∙ ap (λ b. total i o ++ lines_from [] b) (sym held)
    ∙ kept
    ∙ ap (λ w. lines_from [] w) (append-nil s.written)

-- The function that `RunTask` defers closes the live log whatever the copies have still to do. After a
-- schedule that no panic has ended, at whose end the live log is open and no write to pipe `i` is in
-- progress, it is closed: whatever follows, the live log never changes again, and of the lines of all
-- that had been written to pipe `i` it lacks just those of what the copy had in its buffer, which
-- is 4096 bytes at most.
pub run_output-lost :
    (style : Style) (labels : Labels) (ts us : List Turn) (i : ℕ)
    → (run_output style labels ts new_output).panicked ≡ false
    → (run_output style labels ts new_output).live.closed ≡ false
    → ((run_output style labels ts new_output).stream i).unread ≡ []
    → let o = run_output style labels ts new_output in
      let p = run_output style labels (ends ∷ us) o in
      (p.live.contents ≡ o.live.contents)
      × (lines_of i p.logged ++ read_lines (o.stream i).buffer ≡ read_lines (o.stream i).written)
      × (length (o.stream i).buffer ≤ buffer_size)
unfolding run_output turn read_lines close
run_output-lost style labels ts us i alive c no_unread =
    let o = run_output style labels ts new_output in
    let d = run_output-Delivered style labels ts new_output (new_output-Delivered style labels) in
    let (g, k) = d.streams i in
    let ended : Shut o (turn style labels ends o) =
      subst (λ b. Shut o (if b then o else act style labels ends o)) (sym alive)
        (refl, refl, refl) in
    let (_, same, logged) = run_output-Shut style labels us o (turn style labels ends o) ended in
    (
      same,
      taken i o (run_output style labels us (turn style labels ends o)) no_unread (d.refused_late c)
          logged (k [] (λ h. refl)),
      g.fits,
    )
