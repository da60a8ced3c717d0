-- ===== src/Log/Fancy.antt =====
-- internal/log/log.go: `FancyLog` and `prettyValue`. Texts are lists of bytes. The marshalling of JSON,
-- the colours and the hash of a name are parameters.
pub mod Panics
use taskcluster_multistage_d.Common.{
  ℕ, zero, suc, ◌+◌, ◌-◌, ◌%◌, Bool, true, false, Option, none, some, List, [], ◌∷◌, ◌++◌, length,
  replicate, take,
}

-- An `interface{}`: a text, a `[]string` (`none` if it is nil), or else by what `%v` prints.
pub data Value : Type 0 where
  text : List ℕ → Value
  texts : Option (List (List ℕ)) → Value
  printed : List ℕ → Value

-- The functions of `aurora` that `logPrefixColours` lists.
pub data Colour : Type 0 where
  cyan blue yellow magenta red green : Colour

abbrev pub log_prefix_colours : List Colour
log_prefix_colours = cyan ∷ blue ∷ yellow ∷ magenta ∷ red ∷ green ∷ []

-- The element at an index, and the first colour out of range.
abbrev pub colour_at : List Colour → ℕ → Colour
colour_at [] i = cyan
colour_at (c ∷ cs) zero = c
colour_at (c ∷ cs) (suc i) = colour_at cs i

-- `json.Marshal` of a text and of a `[]string`; `aurora`; and the first byte of `md5.Sum`.
pub record Style : Type 0 where
  pub marshal_text : List ℕ → List ℕ
  pub marshal_texts : List (List ℕ) → List ℕ
  pub white : List ℕ → List ℕ
  pub red : List ℕ → List ℕ
  pub coloured : Colour → List ℕ → List ℕ
  pub name_hash : List ℕ → ℕ

-- `genericr.Entry`, the error by its text.
pub record LogEntry : Type 0 where
  pub name : List ℕ
  pub message : List ℕ
  pub error : Option (List ℕ)
  pub fields : List Value

module _ (style : Style) where
  unfoldable pub pretty_value : Value → List ℕ
  pretty_value (texts none) = b'[' ∷ b']' ∷ []
  pretty_value (texts (some ss)) = style.marshal_texts ss
  pretty_value (text s) = style.marshal_text s
  pretty_value (printed s) = style.marshal_text s

  -- `none` is a panic: the index `i + 1` is out of range, for `len(e.Fields) > i` always holds.
  abbrev pub then_value : List ℕ → Value → Option (List ℕ) → Option (List ℕ)
  unfolding pretty_value
  then_value key value none = none
  then_value key value (some rest) = some (b' ' ∷ (key ++ b'=' ∷ (pretty_value value ++ rest)))

  -- `continue`: an empty key leaves a blank, and its value is passed over.
  abbrev pub then_blank : Option (List ℕ) → Option (List ℕ)
  then_blank none = none
  then_blank (some rest) = some (b' ' ∷ rest)

  -- The loop over the fields.
  unfoldable pub write_fields : List Value → Option (List ℕ)
  unfolding pretty_value
  write_fields [] = some []
  write_fields (text [] ∷ []) = some (b' ' ∷ [])
  write_fields (text (b ∷ bs) ∷ []) = none
  write_fields (texts ss ∷ []) = none
  write_fields (printed s ∷ []) = none
  write_fields (text [] ∷ value ∷ rest) = then_blank (write_fields rest)
  write_fields (text (b ∷ bs) ∷ value ∷ rest) = then_value (b ∷ bs) value (write_fields rest)
  write_fields (texts ss ∷ value ∷ rest) =
      then_value (pretty_value (texts ss)) value (write_fields rest)
  write_fields (printed s ∷ value ∷ rest) =
      then_value (pretty_value (printed s)) value (write_fields rest)

  -- The time, the name and blanks up to the column 30.
  abbrev pub write_name : List ℕ → List ℕ
  write_name [] = []
  write_name (b ∷ bs) = b' ' ∷ b ∷ bs

  abbrev pub pad : List ℕ → List ℕ
  pad prefix = prefix ++ replicate (30 - length prefix) b' '

  unfoldable pub prefix_of : List ℕ → List ℕ → List ℕ
  prefix_of now name = pad (now ++ write_name name ++ b' ' ∷ [])

  abbrev pub colour : List ℕ → List ℕ → List ℕ
  colour [] = style.white
  colour (b ∷ bs) =
      style.coloured
        (colour_at log_prefix_colours (style.name_hash (b ∷ bs) % length log_prefix_colours))

  abbrev pub write_message : Option (List ℕ) → List ℕ → List ℕ
  write_message none message = message
  write_message (some e) message = style.red message

  abbrev pub write_error : Option (List ℕ) → List ℕ
  unfolding pretty_value
  write_error none = []
  write_error (some e) = b' ' ∷ b'e' ∷ b'r' ∷ b'r' ∷ b'o' ∷ b'r' ∷ b'=' ∷ pretty_value (text e)

  abbrev pub then_fields : List ℕ → Option (List ℕ) → Option (List ℕ)
  then_fields front none = none
  then_fields front (some fields) = some (front ++ fields)

  -- `FancyLog`, given the time in RFC 3339; `none` is a panic.
  unfoldable pub fancy_log : List ℕ → LogEntry → Option (List ℕ)
  unfolding write_fields prefix_of pretty_value
  fancy_log time e =
      then_fields
        (colour e.name (prefix_of (take 20 time) e.name)
          ++ write_message e.error e.message
          ++ write_error e.error)
        (write_fields e.fields)
