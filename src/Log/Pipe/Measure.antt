-- ===== src/Log/Pipe/Measure.antt =====
-- What the turns of a copy (internal/log/log.go) keep, and how many of them there are.
use taskcluster_multistage_d.Common.{
  ℕ, ◌+◌, ◌-◌, ◌*◌, ◌≤◌, ◌<◌, ◌≡◌, refl, ◌∙◌, ap, sym, subst, Bool, true, false, Option, none, some,
  List, [], ◌∷◌, ◌++◌, append-nil, append_assoc, length, length-append, take, drop,
  take-append-drop, length-take, length-drop, if◌then◌else◌, arith, inl, inr, Bool-cases,
  buffer_size, lines_from, last_piece,
}
use taskcluster_multistage_d.Log.Pipe.{Stream, next_line, at_end, fill, take_line, copy_turn}
use taskcluster_multistage_d.Log.Pipe.Turns.{
  with_line, next_line-some, next_line-shorter, next_line-none,
}

-- The bytes that have not been logged.
abbrev pub rest_of : Stream → List ℕ
rest_of s = s.buffer ++ s.unread

-- The buffer does not overflow, and the copy finishes only when nothing is left.
pub record Sound (s : Stream) : Type 0 where
  pub fits : length s.buffer ≤ buffer_size
  pub at_finish : s.finished ≡ true → (s.closed ≡ true) × (s.unread ≡ []) × (s.buffer ≡ [])

-- What a turn does, and leaves: the line that it logs comes first of those to come.
pub record Turned (s t : Stream) (line : Option (List ℕ)) : Type 0 where
  pub same_written : t.written ≡ s.written
  pub same_closed : t.closed ≡ s.closed
  pub sound : Sound t
  pub lines :
      (more : List ℕ)
      → (s.closed ≡ true → more ≡ [])
      → with_line line (lines_from [] (rest_of t ++ more)) ≡ lines_from [] (rest_of s ++ more)

abbrev pub unfinished : Bool → ℕ
unfinished true = 0
unfinished false = 1

-- A bound on the turns that are left.
abbrev pub turns_left : Stream → ℕ
turns_left s = 2 * length s.unread + length s.buffer + unfinished s.finished

at_end-Turned :
    (closed : Bool) (buffer : List ℕ) (s : Stream)
    → Sound s
    → s.closed ≡ closed
    → s.buffer ≡ buffer
    → s.unread ≡ []
    → lines_from [] buffer ≡ last_piece buffer
    → Turned s (at_end closed buffer s).0 (at_end closed buffer s).1
unfolding lines_from
at_end-Turned false buffer s g is_open held none_left last = record {
  same_written = refl;
  same_closed = refl;
  sound = g;
  lines = λ more ends. refl;
}
at_end-Turned true [] s g is_closed held none_left last = record {
  same_written = refl;
  same_closed = refl;
  sound = record { fits = g.fits; at_finish = λ h. (is_closed, none_left, held) };
  lines = λ more ends. refl;
}
at_end-Turned true (b ∷ buffer) s g is_closed held none_left last = record {
  same_written = refl;
  same_closed = refl;
  sound = record { fits = omega arith; at_finish = λ h. (is_closed, none_left, refl) };
  lines = λ more ends. rw (ends is_closed) (
      rw none_left (
        rw held (
          sym (
            ap (λ t. lines_from [] t) (append-nil (buffer_of ++ []))
            ∙ ap (λ t. lines_from [] t) (append-nil buffer_of)
            ∙ last))));
}
  where
    buffer_of : List ℕ
    buffer_of = b ∷ buffer

fill-Turned :
    (unread : List ℕ) (s : Stream)
    → Sound s
    → s.finished ≡ false
    → s.unread ≡ unread
    → lines_from [] s.buffer ≡ last_piece s.buffer
    → Turned s (fill unread s).0 (fill unread s).1
fill-Turned [] s g on e last = at_end-Turned s.closed s.buffer s g refl refl e last
fill-Turned (b ∷ unread) s g on e last =
    let n = buffer_size - length s.buffer in
    record {
      same_written = refl;
      same_closed = refl;
      sound = record {
        fits = omega (
          arith,
          length-append s.buffer (take n (b ∷ unread)),
          length-take n (b ∷ unread),
          g.fits,
        );
        at_finish = λ h. absurd (cc);
      };
      lines = λ more ends.
          ap (λ t. lines_from [] (t ++ more))
            (append_assoc s.buffer (take n (b ∷ unread)) (drop n (b ∷ unread))
              ∙ ap (λ t. s.buffer ++ t) (take-append-drop n (b ∷ unread) ∙ sym e));
    }

take_line-Turned :
    (next : Option (List ℕ × List ℕ)) (s : Stream)
    → Sound s
    → s.finished ≡ false
    → next_line [] s.buffer ≡ next
    → Turned s (take_line next s).0 (take_line next s).1
take_line-Turned none s g on e =
    fill-Turned s.unread s g on refl (next_line-none [] s.buffer (omega arith) e).1
take_line-Turned (some (line, rest)) s g on e = record {
  same_written = refl;
  same_closed = refl;
  sound = record {
    fits = omega (arith, next_line-shorter [] s.buffer line rest e, g.fits);
    at_finish = λ h. absurd (cc);
  };
  lines = λ more ends.
      ap (λ t. line ∷ lines_from [] t) (append_assoc rest s.unread more)
      ∙ sym (next_line-some [] s.buffer line rest (s.unread ++ more) e)
      ∙ ap (λ t. lines_from [] t) (sym (append_assoc s.buffer s.unread more));
}

pub copy_turn-Turned : (s : Stream) → Sound s → Turned s (copy_turn s).0 (copy_turn s).1
unfolding copy_turn
copy_turn-Turned s g = elim (Bool-cases s.finished) [
  | inl done ↦
      subst (λ b. Turned s (if b then (s, none) else next).0 (if b then (s, none) else next).1)
        (sym done)
        (record { same_written = refl; same_closed = refl; sound = g; lines = λ more ends. refl })
  | inr on ↦
      subst (λ b. Turned s (if b then (s, none) else next).0 (if b then (s, none) else next).1)
        (sym on) (take_line-Turned (next_line [] s.buffer) s g on refl)
]
  where
    next : Stream × Option (List ℕ)
    next = take_line (next_line [] s.buffer) s

at_end-turns :
    (buffer : List ℕ) (s : Stream)
    → s.finished ≡ false
    → s.buffer ≡ buffer
    → turns_left (at_end true buffer s).0 < turns_left s
at_end-turns [] s on h = ground arith
at_end-turns (b ∷ buffer) s on h = omega (arith, ap length h)

fill-turns :
    (unread : List ℕ) (s : Stream)
    → s.closed ≡ true
    → s.finished ≡ false
    → s.unread ≡ unread
    → length s.buffer < buffer_size
    → turns_left (fill unread s).0 < turns_left s
fill-turns [] s shut on e lt =
    subst (λ c. turns_left (at_end c s.buffer s).0 < turns_left s) (sym shut)
      (at_end-turns s.buffer s on refl)
fill-turns (b ∷ unread) s shut on e lt =
    let n = buffer_size - length s.buffer in
    omega (
      arith,
      ap length e,
      length-append s.buffer (take n (b ∷ unread)),
      length-take n (b ∷ unread),
      length-drop n (b ∷ unread),
    )

take_line-turns :
    (next : Option (List ℕ × List ℕ)) (s : Stream)
    → s.closed ≡ true
    → s.finished ≡ false
    → next_line [] s.buffer ≡ next
    → turns_left (take_line next s).0 < turns_left s
take_line-turns none s shut on e =
    fill-turns s.unread s shut on refl
      (omega (arith, (next_line-none [] s.buffer (omega arith) e).0))
take_line-turns (some (line, rest)) s shut on e =
    omega (arith, next_line-shorter [] s.buffer line rest e)

-- At the reading end of a closed pipe each turn brings the copy nearer to its end.
pub copy_turn-turns :
    (s : Stream) → s.closed ≡ true → s.finished ≡ false → turns_left (copy_turn s).0 < turns_left s
unfolding copy_turn
copy_turn-turns s shut on =
    subst (λ b. turns_left (if b then (s, none) else next).0 < turns_left s) (sym on)
      (take_line-turns (next_line [] s.buffer) s shut on refl)
  where
    next : Stream × Option (List ℕ)
    next = take_line (next_line [] s.buffer) s
