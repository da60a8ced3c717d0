-- ===== src/Worker/Output/Delivered.antt =====
-- What every turn of the output of internal/worker/run.go keeps.
use taskcluster_multistage_d.Common.{
  ℕ, ◌≡◌, refl, ◌∙◌, ap, sym, subst, false, Bool-cases, ==_iff, inl, inr, Option, none, some, List,
  [], ◌∷◌, ◌++◌, append-nil, ◌==◌, if◌then◌else◌,
}
use taskcluster_multistage_d.PubSub.Buffer.{new_buffer, close}
use taskcluster_multistage_d.Log.Fancy.{Style}
use taskcluster_multistage_d.Log.Pipe.{Stream, copy_turn, write_chunk, close_pipe}
use taskcluster_multistage_d.Log.Pipe.Measure.{Turned, copy_turn-Turned}
use taskcluster_multistage_d.Log.Pipe.Kept.{
  Held, Kept, new_stream-Sound, Turned-Kept, write_chunk-Held, close_pipe-Held,
}
use taskcluster_multistage_d.Worker.Output.{
  line_of, tells, Output, Turn, writes, closes, copies, speaks, ends, Labels, new_output,
  set_stream, say, log_line, act, turn, run_output,
}
use taskcluster_multistage_d.Worker.Output.Entries.{line_at, total, rendered, say-Heard}

module _ (style : Style) (labels : Labels) where
  pub record Delivered (o : Output) : Type 0 where
    pub streams : (i : ℕ) → Held (total i o) (o.stream i)
    -- Nothing is refused before the live log is closed.
    pub refused_late : o.live.closed ≡ false → o.refused ≡ []
    pub shown : o.live.contents ≡ rendered style labels o.logged

  -- A stream that changes with what is logged of it.
  update-Held :
      (i : ℕ) (s : Stream) (o p : Output)
      → p.stream ≡ (set_stream i s o).stream
      → ((j : ℕ) → Held (total j o) (o.stream j))
      → Held (total i p) s
      → ((j : ℕ) → (i == j) ≡ false → total j p ≡ total j o)
      → (j : ℕ) → Held (total j p) (p.stream j)
  update-Held i s o p e before this others j = elim (Bool-cases (i == j)) [
    | inl same ↦
        let at : p.stream j ≡ s = ap (λ f. f j) e ∙ ap (λ b. if b then s else o.stream j) same in
        subst (λ t. Held (total j p) t) (sym at)
          (subst (λ k. Held (total k p) s) ((==_iff i j).0 same) this)
    | inr other ↦
        let at : p.stream j ≡ o.stream j =
          ap (λ f. f j) e ∙ ap (λ b. if b then s else o.stream j) other in
        subst (λ t. Held (total j p) t) (sym at)
          (subst (λ l. Held l (o.stream j)) (sym (others j other)) (before j))
  ]

  copied-Delivered :
      (i : ℕ) (time : List ℕ) (o : Output) (s : Stream) (line : Option (List ℕ))
      → Delivered o
      → Turned (o.stream i) s line
      → Delivered (log_line style labels i time (s, line) o)
  copied-Delivered i time o s none d t = record {
    streams =
        update-Held i s o (set_stream i s o) refl d.streams
          (
            t.sound,
            subst (λ l. Kept l s) (append-nil (total i o))
                (Turned-Kept (total i o) (o.stream i) s none (d.streams i).1 t),
          )
          (λ j other. refl);
    refused_late = d.refused_late;
    shown = d.shown;
  }
  copied-Delivered i time o s (some line) d t =
      let h =
        say-Heard style labels (line_of time i line) (set_stream i s o) d.refused_late d.shown in
      record {
        streams =
            update-Held i s o (say style labels (line_of time i line) (set_stream i s o))
              h.same_stream d.streams
              (
                t.sound,
                subst (λ l. Kept l s) (sym (h.told i ∙ ap (λ l. total i o ++ l) mine))
                    (Turned-Kept (total i o) (o.stream i) s (some line) (d.streams i).1 t),
              )
              (λ j other.
                h.told j
                ∙ ap (λ b. total j o ++ (if b then line ∷ [] else [])) other
                ∙ append-nil (total j o));
        refused_late = h.refused_late;
        shown = h.shown;
      }
    where
      mine : line_at i (line_of time i line) ≡ line ∷ []
      mine = ap (λ b. if b then line ∷ [] else []) ((==_iff i i).1 refl)

  act-Delivered : (t : Turn) (o : Output) → Delivered o → Delivered (act style labels t o)
  unfolding close
  act-Delivered (writes i chunk) o d = record {
    streams =
        update-Held i (write_chunk chunk (o.stream i)) o
          (set_stream i (write_chunk chunk (o.stream i)) o) refl d.streams
          (write_chunk-Held (total i o) chunk (o.stream i) (d.streams i)) (λ j other. refl);
    refused_late = d.refused_late;
    shown = d.shown;
  }
  act-Delivered (closes i) o d = record {
    streams =
        update-Held i (close_pipe (o.stream i)) o (set_stream i (close_pipe (o.stream i)) o) refl
          d.streams (close_pipe-Held (total i o) (o.stream i) (d.streams i)) (λ j other. refl);
    refused_late = d.refused_late;
    shown = d.shown;
  }
  act-Delivered (copies i time) o d =
      copied-Delivered i time o (copy_turn (o.stream i)).0 (copy_turn (o.stream i)).1 d
        (copy_turn-Turned (o.stream i) (d.streams i).0)
  act-Delivered (speaks time e) o d =
      let h = say-Heard style labels (tells time e) o d.refused_late d.shown in
      record {
        streams = λ j.
            subst (λ f. Held (total j (say style labels (tells time e) o)) (f j))
              (sym h.same_stream)
              (subst (λ l. Held l (o.stream j)) (sym (h.told j ∙ append-nil (total j o)))
                (d.streams j));
        refused_late = h.refused_late;
        shown = h.shown;
      }
  act-Delivered ends o d = record {
    streams = d.streams;
    refused_late = λ h. absurd (cc);
    shown = d.shown;
  }

  turn-Delivered : (t : Turn) (o : Output) → Delivered o → Delivered (turn style labels t o)
  unfolding turn
  turn-Delivered t o d = elim (Bool-cases o.panicked) [
    | inl p ↦ subst (λ b. Delivered (if b then o else act style labels t o)) (sym p) d
    | inr p ↦
        subst (λ b. Delivered (if b then o else act style labels t o)) (sym p) (act-Delivered t o d)
  ]

  pub run_output-Delivered :
      (ts : List Turn) (o : Output) → Delivered o → Delivered (run_output style labels ts o)
  unfolding run_output
  run_output-Delivered [] o d = d
  run_output-Delivered (t ∷ ts) o d =
      run_output-Delivered ts (turn style labels t o) (turn-Delivered t o d)

  pub new_output-Delivered : Delivered new_output
  unfolding rendered new_buffer
  new_output-Delivered = record {
    streams = λ i. (new_stream-Sound, λ more ends. refl);
    refused_late = λ h. refl;
    shown = refl;
  }
