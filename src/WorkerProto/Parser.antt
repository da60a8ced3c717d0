-- ===== src/WorkerProto/Parser.antt =====
-- internal/workerproto/proto.go: `Parse` and `Write`. Texts are lists of bytes. The JSON decoder is a
-- parameter: the type of the packet at the front of a text, and how many bytes it leaves unread in the
-- reader, which is not always how many follow the packet. Blanks are those of ASCII.
pub mod RoundTrip
use taskcluster_multistage_d.Common.{
  ℕ, zero, suc, ◌+◌, ◌-◌, Bool, true, false, ◌&&◌, ◌||◌, Option, none, some, List, [], ◌∷◌, ◌++◌,
  String, ltb, leb, ◌==◌, if◌then◌else◌, length, take, drop, str_eq, newline, read_lines,
}
use taskcluster_multistage_d.Exception.{Error}

abbrev pub is_blank : ℕ → Bool
is_blank b = (b == 32) || (leb 9 b && leb b 13)

-- `strings.TrimSpace`.
abbrev pub trim_left : List ℕ → List ℕ
trim_left [] = []
trim_left (b ∷ bs) = let rest = trim_left bs in if is_blank b then rest else b ∷ bs

-- A blank is kept only if something that is not blank follows.
abbrev pub keep_blank : ℕ → List ℕ → List ℕ
keep_blank b [] = if is_blank b then [] else b ∷ []
keep_blank b (c ∷ cs) = b ∷ c ∷ cs

abbrev pub trim_right : List ℕ → List ℕ
trim_right [] = []
trim_right (b ∷ bs) = keep_blank b (trim_right bs)

unfoldable pub trim_space : List ℕ → List ℕ
trim_space bytes = trim_right (trim_left bytes)

abbrev pub Decoder : Type 0
Decoder = List ℕ → Option (String × ℕ)

-- What the handler of a packet does to the state of the program.
pub data Handled (S : Type 0) : Type 0 where
  accepts : S → Handled S
  refuses : Error → S → Handled S
  crashes : Handled S

-- How far `Parse` is, or how it ended: nil, the handler's error, or a panic.
pub data Progress (S : Type 0) : Type 0 where
  reading : S → List (List ℕ) → Progress S
  failed : Error → S → List (List ℕ) → Progress S
  panicked : Progress S

module _ {S : Type 0} (decode : Decoder) (handler : String → List ℕ → S → Handled S) where
  -- `log.Info(line)`.
  abbrev pub log_line : List ℕ → S → List (List ℕ) → Progress S
  log_line line s log = reading s (log ++ line ∷ [])

  abbrev pub log_rest : List ℕ → S → List (List ℕ) → Progress S
  log_rest [] s log = reading s log
  log_rest (b ∷ bs) s log = log_line (b ∷ bs) s log

  abbrev pub after_handler : List ℕ → List (List ℕ) → Handled S → Progress S
  after_handler rest log (accepts s) = log_rest rest s log
  after_handler rest log (refuses e s) = failed e s log
  after_handler rest log crashes = panicked

  -- `packetEnd` is the length of the line less what the decoder leaves unread.
  abbrev pub handle_packet : List ℕ → S → List (List ℕ) → Option (String × ℕ) → Progress S
  handle_packet line s log none = log_line line s log
  handle_packet line s log (some (packet_type, unread)) =
      let packet_end = length line - unread in
      if str_eq packet_type ""
      then log_line line s log
      else after_handler (drop packet_end line) log
          (handler packet_type (take (packet_end - 1) (drop 1 line)) s)

  -- A line that is not empty after the trim. `line[1]` panics where it has one byte.
  abbrev pub parse_trimmed : List ℕ → S → List (List ℕ) → Progress S
  parse_trimmed [] s log = reading s log
  parse_trimmed (a ∷ []) s log = if a == b'~' then panicked else log_line (a ∷ []) s log
  parse_trimmed (a ∷ b ∷ line) s log =
      if (a == b'~') && (b == b'{')
      then handle_packet (a ∷ b ∷ line) s log (decode (b ∷ line))
      else log_line (a ∷ b ∷ line) s log

  abbrev pub parse_line : List ℕ → Progress S → Progress S
  unfolding trim_space
  parse_line line (reading s log) = parse_trimmed (trim_space line) s log
  parse_line line p = p

  unfoldable pub parse_lines : List (List ℕ) → Progress S → Progress S
  unfolding trim_space
  parse_lines [] p = p
  parse_lines (line ∷ lines) p = parse_lines lines (parse_line line p)

  abbrev pub at_end : Option Error → Progress S → Progress S
  at_end (some e) (reading s log) = failed e s log
  at_end _ p = p

  -- `Parse`, of a stream that ends in an error or (`none`) in `io.EOF`.
  unfoldable pub parse : List ℕ → Option Error → S → Progress S
  unfolding read_lines parse_lines
  parse bytes ends s = at_end ends (parse_lines (read_lines bytes) (reading s []))

-- `Write`: the encoder ends the text of a packet by a newline of its own.
unfoldable pub write_packet : List ℕ → List ℕ
write_packet text = b'~' ∷ (text ++ newline ∷ newline ∷ [])
