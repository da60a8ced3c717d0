-- ===== src/WorkerProto/Parser/RoundTrip.antt =====
-- `Parse` of what `Write` wrote (internal/workerproto/proto.go).
use taskcluster_multistage_d.Common.{
  ℕ, ◌+◌, ◌-◌, ◌<◌, ◌≡◌, refl, ap, ◌∙◌, false, Option, some, List, [], ◌∷◌, ◌++◌, String, arith,
  ◌==◌, length, length-append, take, take_all, drop_all, str_eq, newline, carriage_return,
  buffer_size, read_lines, lines_from, drop_return, NoNewline, lines_from-append, append_assoc,
}
use taskcluster_multistage_d.Exception.{Error}
use taskcluster_multistage_d.WorkerProto.Parser.{
  is_blank, trim_right, trim_space, Decoder, Handled, accepts, refuses, crashes, Progress, reading,
  after_handler, handle_packet, parse_trimmed, parse_line, parse_lines, at_end, parse, write_packet,
}

-- A packet and what is inside the braces of its text.
pub record Packet : Type 0 where
  pub packet_type : String
  pub body : List ℕ

abbrev pub text_of : Packet → List ℕ
text_of p = b'{' ∷ (p.body ++ b'}' ∷ [])

-- The type is not empty; the text has no newline and fits the buffer of the reader behind its mark;
-- and the decoder reads it whole.
pub record IsPacket (decode : Decoder) (p : Packet) : Type 0 where
  pub named : str_eq p.packet_type "" ≡ false
  pub one_line : NoNewline p.body
  pub fits : length p.body + 3 < buffer_size
  pub decoded : decode (text_of p) ≡ some (p.packet_type, 0)

abbrev pub AllPackets : Decoder → List Packet → Type 0
AllPackets decode [] = Unit {0}
AllPackets decode (p ∷ ps) = IsPacket decode p × AllPackets decode ps

abbrev pub write_all : List Packet → List ℕ
unfolding write_packet
write_all [] = []
write_all (p ∷ ps) = write_packet (text_of p) ++ write_all ps

trim_right-append :
    (xs : List ℕ) (c : ℕ) → is_blank c ≡ false → trim_right (xs ++ c ∷ []) ≡ xs ++ c ∷ []
trim_right-append [] c h = ground arith
trim_right-append (x ∷ []) c h = rw (trim_right-append [] c h) refl
trim_right-append (x ∷ y ∷ xs) c h = rw (trim_right-append (y ∷ xs) c h) refl

drop_return-append :
    (xs : List ℕ) (c : ℕ)
    → (c == carriage_return) ≡ false
    → drop_return (xs ++ c ∷ []) ≡ xs ++ c ∷ []
drop_return-append [] c h = ground arith
drop_return-append (x ∷ []) c h = ap (λ t. x ∷ t) (drop_return-append [] c h)
drop_return-append (x ∷ y ∷ xs) c h = ap (λ t. x ∷ t) (drop_return-append (y ∷ xs) c h)

NoNewline-append :
    (xs : List ℕ) (c : ℕ) → NoNewline xs → (c == newline) ≡ false → NoNewline (xs ++ c ∷ [])
NoNewline-append [] c clear this = (this, tt)
NoNewline-append (x ∷ xs) c clear this = (clear.0, NoNewline-append xs c clear.1 this)

abbrev line_of : Packet → List ℕ
line_of p = b'~' ∷ text_of p

-- The line of a packet, and the empty line behind it.
lines_from-write_packet :
    (decode : Decoder) (p : Packet) (rest : List ℕ)
    → IsPacket decode p
    → lines_from [] (write_packet (text_of p) ++ rest) ≡ line_of p ∷ [] ∷ lines_from [] rest
unfolding write_packet lines_from
lines_from-write_packet decode p rest valid =
    ap (lines_from []) (append_assoc (line_of p) (newline ∷ newline ∷ []) rest)
    ∙ lines_from-append (line_of p) [] (newline ∷ rest)
        (refl, (refl, NoNewline-append p.body b'}' valid.one_line refl))
        (omega (arith, valid.fits, length-append p.body (b'}' ∷ [])))
    ∙ ap (λ t. t ∷ [] ∷ lines_from [] rest) (drop_return-append (b'~' ∷ b'{' ∷ p.body) b'}' refl)

trim_space-line_of : (p : Packet) → trim_space (line_of p) ≡ line_of p
unfolding trim_space
trim_space-line_of p = trim_right-append (b'~' ∷ b'{' ∷ p.body) b'}' refl

module _ {S : Type 0} (decode : Decoder) (handler : String → List ℕ → S → Handled S) where
  -- The packets are handled in their order, up to the first that the handler refuses.
  abbrev pub deliver : List Packet → Progress S → Progress S
  deliver [] progress = progress
  deliver (p ∷ ps) (reading s log) =
      deliver ps (after_handler decode handler [] log (handler p.packet_type (text_of p) s))
  deliver (p ∷ ps) progress = progress

  parse_line-line_of :
      (p : Packet) (s : S) (log : List (List ℕ))
      → IsPacket decode p
      → parse_line decode handler (line_of p) (reading s log)
        ≡ after_handler decode handler [] log (handler p.packet_type (text_of p) s)
  unfolding trim_space
  parse_line-line_of p s log valid =
      let line = line_of p in
      ap (λ t. parse_trimmed decode handler t s log) (trim_space-line_of p)
      ∙ ap (handle_packet decode handler line s log) valid.decoded
      ∙ rw valid.named (
          ap
            (λ rest.
              after_handler decode handler rest log
                (handler p.packet_type (take (length line - 0 - 1) (text_of p)) s))
            (drop_all (length line - 0) line (omega arith))
          ∙ ap (λ text. after_handler decode handler [] log (handler p.packet_type text s))
              (take_all (length line - 0 - 1) (text_of p) (omega arith)))

  -- Once the handler has refused a packet, the rest of the stream is not read.
  parse_lines_done :
      (lines : List (List ℕ)) (ps : List Packet) (h : Handled S) (log : List (List ℕ))
      → ((s : S)
          → h ≡ accepts s
          → parse_lines decode handler lines (reading s log) ≡ deliver ps (reading s log))
      → parse_lines decode handler lines (after_handler decode handler [] log h)
        ≡ deliver ps (after_handler decode handler [] log h)
  unfolding parse_lines
  parse_lines_done lines ps (accepts s) log next = next s refl
  parse_lines_done [] [] (refuses e s) log next = refl
  parse_lines_done [] (p ∷ ps) (refuses e s) log next = refl
  parse_lines_done (l ∷ lines) ps (refuses e s) log next =
      parse_lines_done lines ps (refuses e s) log (λ s' x. cc)
  parse_lines_done [] [] crashes log next = refl
  parse_lines_done [] (p ∷ ps) crashes log next = refl
  parse_lines_done (l ∷ lines) ps crashes log next =
      parse_lines_done lines ps crashes log (λ s' x. cc)

  parse_lines-write_all :
      (ps : List Packet) (s : S) (log : List (List ℕ))
      → AllPackets decode ps
      → parse_lines decode handler (lines_from [] (write_all ps)) (reading s log)
        ≡ deliver ps (reading s log)
  unfolding parse_lines lines_from write_all
  parse_lines-write_all [] s log valid = refl
  parse_lines-write_all (p ∷ ps) s log valid =
      let h = handler p.packet_type (text_of p) s in
      let lines = lines_from [] (write_all ps) in
      ap (λ ls. parse_lines decode handler ls (reading s log))
        (lines_from-write_packet decode p (write_all ps) valid.0)
      ∙ ap (λ t. parse_lines decode handler ([] ∷ lines) t) (parse_line-line_of p s log valid.0)
      ∙ ap (parse_lines decode handler lines) (blank_line h log)
      ∙ parse_lines_done lines ps h log (λ s' e. parse_lines-write_all ps s' log valid.1)
    where
      blank_line :
          (h : Handled S) (log : List (List ℕ))
          → parse_line decode handler [] (after_handler decode handler [] log h)
            ≡ after_handler decode handler [] log h
      blank_line (accepts s) log = refl
      blank_line (refuses e s) log = refl
      blank_line crashes log = refl

-- Where `Write` has written packets that the decoder reads whole and that fit the reader's buffer of
-- 4096 bytes, `Parse` hands them to the handler, each with its type and its text, in their order and up
-- to the first that the handler refuses or crashes on, and logs nothing.
pub parse-write_all :
    {S : Type 0} (decode : Decoder) (handler : String → List ℕ → S → Handled S) (ps : List Packet)
    (ends : Option Error) (s : S)
    → AllPackets decode ps
    → parse decode handler (write_all ps) ends s
      ≡ at_end decode handler ends (deliver decode handler ps (reading s []))
unfolding parse read_lines
parse-write_all decode handler ps ends s valid =
    ap (at_end decode handler ends) (parse_lines-write_all decode handler ps s [] valid)
