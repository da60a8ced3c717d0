-- ===== src/Log/Pipe/Turns.antt =====
-- The turns of a copy (internal/log/log.go) and the lines of the bytes that are still to come.
use taskcluster_multistage_d.Common.{
  ℕ, suc, ◌+◌, ◌<◌, ◌≡◌, ◌≢◌, refl, ◌∙◌, ap, sym, Bool, true, false, Option, none, some, List, [],
  ◌∷◌, ◌++◌, append-nil, append_assoc, length, length-append, ◌==◌, if◌then◌else◌, arith, newline,
  carriage_return, buffer_size, drop_return, lines_from, last_piece,
}
use taskcluster_multistage_d.Log.Pipe.{next_line}

-- The line that a turn logs, if any, in front of others.
abbrev pub with_line : Option (List ℕ) → List (List ℕ) → List (List ℕ)
with_line none lines = lines
with_line (some line) lines = line ∷ lines

some_inj : {p q : List ℕ × List ℕ} → some p ≡ some q → p ≡ q
some_inj h = cc

some_pair :
    (a b c d : List ℕ)
    → ◌≡◌ {A = Option (List ℕ × List ℕ)} (some (a, b)) (some (c, d))
    → (a ≡ c) × (b ≡ d)
some_pair a b c d h = (ap (λ p. p.0) (some_inj h), ap (λ p. p.1) (some_inj h))

-- The tests on a byte, decided: what the buffer gives and what the stream gives agree.
agrees :
    (x y z : Bool) (on : Option (List ℕ × List ℕ)) (a b c : List ℕ)
    (bytes cr line rest more : List ℕ) (tail : List (List ℕ))
    → (on ≡ some (line, rest) → tail ≡ line ∷ lines_from [] (rest ++ more))
    → (if x
        then some (a, bytes)
        else if y
        then (if z then some (b, cr) else some (c, bytes))
        else on)
      ≡ some (line, rest)
    → (if x
        then a ∷ lines_from [] (bytes ++ more)
        else if y
        then (if z then b ∷ lines_from [] (cr ++ more) else c ∷ lines_from [] (bytes ++ more))
        else tail)
      ≡ line ∷ lines_from [] (rest ++ more)
agrees true y z on a b c bytes cr line rest more tail ih h =
    let (e, e') = some_pair a bytes line rest h in rw e (rw e' refl)
agrees false true true on a b c bytes cr line rest more tail ih h =
    let (e, e') = some_pair b cr line rest h in rw e (rw e' refl)
agrees false true false on a b c bytes cr line rest more tail ih h =
    let (e, e') = some_pair c bytes line rest h in rw e (rw e' refl)
agrees false false z on a b c bytes cr line rest more tail ih h = ih h

-- A line of the buffer is the next line of the stream, whatever comes behind the buffer.
pub next_line-some :
    (piece buffer line rest more : List ℕ)
    → next_line piece buffer ≡ some (line, rest)
    → lines_from piece (buffer ++ more) ≡ line ∷ lines_from [] (rest ++ more)
unfolding next_line lines_from
next_line-some piece [] line rest more h = absurd (cc)
next_line-some piece (b ∷ bytes) line rest more h =
    agrees (b == newline) (suc (length piece) == buffer_size) (b == carriage_return)
      (next_line (piece ++ b ∷ []) bytes) (drop_return piece) piece (piece ++ b ∷ []) bytes
      (carriage_return ∷ bytes) line rest more (lines_from (piece ++ b ∷ []) (bytes ++ more))
      (next_line-some (piece ++ b ∷ []) bytes line rest more) h

-- A line that the buffer gives is taken off it.
some-shorter :
    (x y z : Bool) (on : Option (List ℕ × List ℕ)) (a b c bytes line rest : List ℕ) (n : ℕ)
    → (y ≡ true → 0 < n)
    → (on ≡ some (line, rest) → length rest < n + 1 + length bytes)
    → (if x
        then some (a, bytes)
        else if y
        then (if z then some (b, carriage_return ∷ bytes) else some (c, bytes))
        else on)
      ≡ some (line, rest)
    → length rest < n + suc (length bytes)
some-shorter true y z on a b c bytes line rest n two ih h =
    let (e, e') = some_pair a bytes line rest h in omega (arith, ap length e')
some-shorter false true true on a b c bytes line rest n two ih h =
    let (e, e') = some_pair b (carriage_return ∷ bytes) line rest h in
    omega (arith, ap length e', two refl)
some-shorter false true false on a b c bytes line rest n two ih h =
    let (e, e') = some_pair c bytes line rest h in omega (arith, ap length e')
some-shorter false false z on a b c bytes line rest n two ih h = omega (arith, ih h)

pub next_line-shorter :
    (piece buffer line rest : List ℕ)
    → next_line piece buffer ≡ some (line, rest)
    → length rest < length piece + length buffer
unfolding next_line
next_line-shorter piece [] line rest h = absurd (cc)
next_line-shorter piece (b ∷ bytes) line rest h =
    some-shorter (b == newline) (suc (length piece) == buffer_size) (b == carriage_return)
      (next_line (piece ++ b ∷ []) bytes) (drop_return piece) piece (piece ++ b ∷ []) bytes line
      rest (length piece) (λ full. ground arith)
      (λ h'. omega (
        arith,
        next_line-shorter (piece ++ b ∷ []) bytes line rest h',
        length-append piece (b ∷ []),
      ))
      h

none_of :
    (x y z : Bool) (on : Option (List ℕ × List ℕ)) (p q r : List ℕ × List ℕ)
    → (if x then some p else if y then (if z then some q else some r) else on) ≡ none
    → (x ≡ false) × (y ≡ false) × (on ≡ none)
none_of true y z on p q r h = absurd (cc)
none_of false true true on p q r h = absurd (cc)
none_of false true false on p q r h = absurd (cc)
none_of false false z on p q r h = (refl, refl, h)

-- A buffer that gives no line is not full, and holds the last line of a stream that ends there.
pub next_line-none :
    (piece buffer : List ℕ)
    → length piece < buffer_size
    → next_line piece buffer ≡ none
    → (length piece + length buffer < buffer_size)
      × (lines_from piece buffer ≡ last_piece (piece ++ buffer))
unfolding next_line lines_from
next_line-none piece [] lt h = (omega arith, ap last_piece (sym (append-nil piece)))
next_line-none piece (b ∷ bytes) lt h =
    let (no_newline, not_full, e) =
      none_of (b == newline) (suc (length piece) == buffer_size) (b == carriage_return)
        (next_line (piece ++ b ∷ []) bytes) (drop_return piece, bytes)
        (piece, carriage_return ∷ bytes) (piece ++ b ∷ [], bytes) h in
    let one = length-append piece (b ∷ []) in
    let short : suc (length piece) ≢ buffer_size = ground (arith, not_full) in
    let (lt', same) = next_line-none (piece ++ b ∷ []) bytes (omega (arith, one, short)) e in
    (
      omega (arith, lt', one),
      rw no_newline (rw not_full (same ∙ ap last_piece (append_assoc piece (b ∷ []) bytes))),
    )
