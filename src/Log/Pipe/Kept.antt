-- ===== src/Log/Pipe/Kept.antt =====
-- The lines of a pipe (internal/log/log.go): those that were logged, and those still to come.
use taskcluster_multistage_d.Common.{
  ℕ, ◌≡◌, refl, ◌∙◌, ap, sym, true, false, Bool, Option, none, some, List, [], ◌∷◌, ◌++◌,
  append-nil, append_assoc, arith, lines_from, if◌then◌else◌,
}
use taskcluster_multistage_d.Log.Pipe.{Stream, new_stream, write_chunk, close_pipe}
use taskcluster_multistage_d.Log.Pipe.Turns.{with_line}
use taskcluster_multistage_d.Log.Pipe.Measure.{Sound, Turned, rest_of}

-- `total`, and then the lines of the bytes that are not logged, are the lines of all that was written, also with
-- what may still be written.
abbrev pub Kept : List (List ℕ) → Stream → Type 0
Kept total s =
    (more : List ℕ)
    → (s.closed ≡ true → more ≡ [])
    → total ++ lines_from [] (rest_of s ++ more) ≡ lines_from [] (s.written ++ more)

pub new_stream-Sound : Sound new_stream
new_stream-Sound = record { fits = omega arith; at_finish = λ h. absurd (cc) }

pub Turned-Kept :
    (total : List (List ℕ)) (s t : Stream) (line : Option (List ℕ))
    → Kept total s
    → Turned s t line
    → Kept (total ++ with_line line []) t
Turned-Kept total s t none k d more ends =
    let ends' : (s.closed ≡ true → more ≡ []) = λ h. ends (d.same_closed ∙ h) in
    ap (λ a. a ++ lines_from [] (rest_of t ++ more)) (append-nil total)
    ∙ ap (λ l. total ++ l) (d.lines more ends')
    ∙ k more ends'
    ∙ ap (λ w. lines_from [] (w ++ more)) (sym d.same_written)
Turned-Kept total s t (some line) k d more ends =
    let ends' : (s.closed ≡ true → more ≡ []) = λ h. ends (d.same_closed ∙ h) in
    append_assoc total (line ∷ []) (lines_from [] (rest_of t ++ more))
    ∙ ap (λ l. total ++ l) (d.lines more ends')
    ∙ k more ends'
    ∙ ap (λ w. lines_from [] (w ++ more)) (sym d.same_written)

-- What a write or the end of the pipe keeps.
abbrev pub Held : List (List ℕ) → Stream → Type 0
Held total s = Sound s × Kept total s

write_chunk-case :
    (total : List (List ℕ)) (chunk : List ℕ) (closed : Bool) (s : Stream)
    → Held total s
    → s.unread ≡ []
    → s.closed ≡ closed
    → Held total (if closed then s else record s { unread = chunk; written = s.written ++ chunk })
write_chunk-case total chunk true s h e shut = h
write_chunk-case total chunk false s (g, k) e is_open = (
  record { fits = g.fits; at_finish = λ h. let shut = (g.at_finish h).0 in absurd (cc) },
  λ more ends.
      ap (λ t. total ++ lines_from [] t)
        (append_assoc s.buffer chunk more
          ∙ ap (λ t. t ++ (chunk ++ more))
              (sym (append-nil s.buffer) ∙ ap (λ u. s.buffer ++ u) (sym e)))
      ∙ k (chunk ++ more) (λ h. absurd cc)
      ∙ ap (λ t. lines_from [] t) (sym (append_assoc s.written chunk more)),
)

pub write_chunk-Held :
    (total : List (List ℕ)) (chunk : List ℕ) (s : Stream)
    → Held total s
    → Held total (write_chunk chunk s)
unfolding write_chunk
write_chunk-Held total chunk s h = go s.unread refl
  where
    go :
        (unread : List ℕ)
        → s.unread ≡ unread
        → Held total (elim unread [
          | [] ↦ if s.closed then s else record s { unread = chunk; written = s.written ++ chunk }
          | b ∷ rest ↦ s
        ])
    go [] e = write_chunk-case total chunk s.closed s h e refl
    go (b ∷ rest) e = h

pub close_pipe-Held :
    (total : List (List ℕ)) (s : Stream) → Held total s → Held total (close_pipe s)
unfolding close_pipe
close_pipe-Held total s (g, k) = go s.unread refl
  where
    go :
        (unread : List ℕ)
        → s.unread ≡ unread
        → Held total (elim unread [ [] ↦ record s { closed = true } | b ∷ rest ↦ s ])
    go [] e = (
      record { fits = g.fits; at_finish = λ h. let (a, b, c) = g.at_finish h in (refl, b, c) },
      λ more ends. rw (ends refl) (k [] (λ h. refl)),
    )
    go (b ∷ rest) e = (g, k)
