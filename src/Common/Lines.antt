-- ===== src/Common/Lines.antt =====
-- `bufio.Reader.ReadLine` of Go, called until the stream ends, by callers that do not look at
-- `isPrefix`: the lines of a stream of bytes, where a line that does not fit the buffer of 4096 bytes
-- comes in pieces. A carriage return before a newline is dropped, and one that would be the last byte
-- of a full buffer is left for the next piece.
use taskcluster_multistage_d.Common.Tests.{◌==◌, if◌then◌else◌}
use taskcluster_multistage_d.Common.Lists.{length, length-append}
use Prim.Native.Nat.{ℕ, suc, ◌+◌, ◌<◌}
use mathlib.Core.Path.{◌≡◌, refl, ap, ◌∙◌}
use mathlib.Core.Bool.{true, false}
use mathlib.Core.List.{List, [], ◌∷◌, ◌++◌, append_assoc, append-nil}
use native.Mathlib.Omega.{arith}

abbrev pub newline : ℕ
newline = 10

abbrev pub carriage_return : ℕ
carriage_return = 13

abbrev pub drop_return : List ℕ → List ℕ
drop_return [] = []
drop_return (b ∷ []) = if b == carriage_return then [] else b ∷ []
drop_return (b ∷ c ∷ bs) = b ∷ drop_return (c ∷ bs)

abbrev pub buffer_size : ℕ
buffer_size = 4096

abbrev pub last_piece : List ℕ → List (List ℕ)
last_piece [] = []
last_piece (b ∷ bs) = (b ∷ bs) ∷ []

-- The lines of `bytes`, where `piece` is in the buffer already and holds no newline.
unfoldable pub lines_from : List ℕ → List ℕ → List (List ℕ)
lines_from piece [] = last_piece piece
lines_from piece (b ∷ bytes) =
    let at_newline = drop_return piece ∷ lines_from [] bytes in
    let returned = piece ∷ lines_from (carriage_return ∷ []) bytes in
    let filled = (piece ++ b ∷ []) ∷ lines_from [] bytes in
    let on = lines_from (piece ++ b ∷ []) bytes in
    if b == newline
    then at_newline
    else if suc (length piece) == buffer_size
    then (if b == carriage_return then returned else filled)
    else on

unfoldable pub read_lines : List ℕ → List (List ℕ)
unfolding lines_from
read_lines bytes = lines_from [] bytes

abbrev pub NoNewline : List ℕ → Type 0
NoNewline [] = Unit {0}
NoNewline (b ∷ bs) = ((b == newline) ≡ false) × NoNewline bs

-- A line that fits the buffer is read whole.
pub lines_from-append :
    (line piece rest : List ℕ)
    → NoNewline line
    → length piece + length line < buffer_size
    → lines_from piece (line ++ newline ∷ rest) ≡ drop_return (piece ++ line) ∷ lines_from [] rest
unfolding lines_from
lines_from-append [] piece rest clear lt = rw (append-nil piece) refl
lines_from-append (b ∷ line) piece rest (this, clear) lt =
    let short : (suc (length piece) == buffer_size) ≡ false = ground arith in
    rw this (
      rw short (
        lines_from-append line (piece ++ b ∷ []) rest clear
          (omega (arith, length-append piece (b ∷ [])))
        ∙ ap (λ t. drop_return t ∷ lines_from [] rest) (append_assoc piece (b ∷ []) line)))

-- A stream of such lines, none of them with a return at its end, is read as it was written.
abbrev pub with_newlines : List (List ℕ) → List ℕ
with_newlines [] = []
with_newlines (line ∷ lines) = line ++ newline ∷ with_newlines lines

abbrev pub AllFit : List (List ℕ) → Type 0
AllFit [] = Unit {0}
AllFit (line ∷ lines) =
    (NoNewline line × (drop_return line ≡ line) × (length line < buffer_size)) × AllFit lines

pub read_lines-with_newlines :
    (lines : List (List ℕ)) → AllFit lines → read_lines (with_newlines lines) ≡ lines
unfolding read_lines
read_lines-with_newlines [] fit = refl
read_lines-with_newlines (line ∷ lines) ((clear, same, lt), fit) =
    lines_from-append line [] (with_newlines lines) clear (omega (arith, lt))
    ∙ ap (λ t. t ∷ lines_from [] (with_newlines lines)) same
    ∙ ap (λ t. line ∷ t) (read_lines-with_newlines lines fit)

-- A line that does not fit comes in pieces: the first is what fills the buffer.
pub lines_from-full :
    (line piece : List ℕ) (b : ℕ) (rest : List ℕ)
    → NoNewline line
    → (b == newline) ≡ false
    → (b == carriage_return) ≡ false
    → length piece + length line + 1 ≡ buffer_size
    → lines_from piece (line ++ b ∷ rest) ≡ (piece ++ line ++ b ∷ []) ∷ lines_from [] rest
unfolding lines_from
lines_from-full [] piece b rest clear not_newline not_return full =
    let filled : (suc (length piece) == buffer_size) ≡ true = ground arith in
    rw not_newline (rw filled (rw not_return (rw (append-nil piece) refl)))
lines_from-full (c ∷ line) piece b rest (this, clear) not_newline not_return full =
    let short : (suc (length piece) == buffer_size) ≡ false = ground arith in
    rw this (
      rw short (
        lines_from-full line (piece ++ c ∷ []) b rest clear not_newline not_return
          (omega (arith, length-append piece (c ∷ [])))
        ∙ ap (λ t. (t ++ b ∷ []) ∷ lines_from [] rest) (append_assoc piece (c ∷ []) line)))
