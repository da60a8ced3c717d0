-- ===== src/Common/Channels.antt =====
-- Go's buffered channels: a queue of values and whether `close` was called. A receive on a closed
-- and empty channel yields the zero value at once; on an open and empty one it blocks (`none`).
use mathlib.Core.Bool.{Bool, true, false}
use mathlib.Core.Option.{Option, none, some}
use mathlib.Core.List.{List, [], ◌∷◌, ◌++◌}

pub record Chan {ℓ} (A : Type ℓ) : Type ℓ where
  pub queue : List A
  pub is_closed : Bool

module _ {ℓ} {A : Type ℓ} where
  -- `make(chan A, n)` with a buffer that the program never overfills.
  abbrev pub make_chan : Chan A
  make_chan = record { queue = []; is_closed = false }

  abbrev pub recv_from : A → List A → Bool → Option (A × Chan A)
  recv_from zero_value (a ∷ rest) closed = some (a, record { queue = rest; is_closed = closed })
  recv_from zero_value [] true = some (zero_value, record { queue = []; is_closed = true })
  recv_from zero_value [] false = none

  abbrev pub recv : A → Chan A → Option (A × Chan A)
  recv zero_value c = recv_from zero_value c.queue c.is_closed

  -- `none` is the run-time panic of a send on a closed channel.
  abbrev pub send : A → Chan A → Option (Chan A)
  send a c = elim c.is_closed [
    | true ↦ none
    | false ↦ some (record c { queue = c.queue ++ a ∷ [] })
  ]

  -- `none` is the run-time panic of closing a closed channel.
  abbrev pub close_chan : Chan A → Option (Chan A)
  close_chan c = elim c.is_closed [ true ↦ none | false ↦ some (record c { is_closed = true }) ]
