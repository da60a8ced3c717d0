-- ===== src/PubSub/Server/Board.antt =====
-- The server as a board of logs by their ids (internal/pubsubbuffer/server.go): no addresses, no
-- buffers, no writers, only what each log holds while it is open.
pub mod Views
pub mod Refinement
use Prim.Native.Char.{Char}
use text.Mathlib.TextEquality.{eq_iff}
use taskcluster_multistage_d.Common.{
  ℕ, zero, suc, map, ◌<◌, ◌≡◌, ◌≢◌, ◌⊎◌, refl, sym, subst, ap, inl, inr, ◌∙◌, not, Bool, true,
  false, Option, some, none, List, [], ◌∷◌, ◌++◌, String, arith, Option-cases, Bool-cases, length,
  get_elem?, get_elem?-set, str_eq, str_eq_iff, str_eq_refl, if◌then◌else◌, get_elem?-append_left,
  get_elem?-append_last, lt_of_get_elem?, lookup, insert, get_elem?-append_one, lookup-insert,
  lookup-erase,
}
use taskcluster_multistage_d.PubSub.Buffer.{Buffer, new_buffer, close, write}
use taskcluster_multistage_d.PubSub.Server.{
  Server, Writer, update_buffer, allocate, writer_write, writer_close, Answer, crashes, responds,
  serves, serve_http, route, new_server, get_buffer, wants, answer_route, answer_buffer,
}
use taskcluster_multistage_d.PubSub.Server.Paths.{Names, route_iff}
use taskcluster_multistage_d.PubSub.Server.Lifetime.{
  is_open, lt_of_open, on_writer, update_buffer-other, Op, allocates, writes, closes, History,
  apply, replay, IsWell, replay-IsWell,
}

-- The ids that were given out, oldest first.
abbrev pub allocated : List Op → List String
allocated [] = []
allocated (allocates id ∷ ops) = allocated ops ++ id ∷ []
allocated (writes k src ∷ ops) = allocated ops
allocated (closes k ∷ ops) = allocated ops

abbrev pub is_id : Option String → String → Bool
is_id none j = false
is_id (some id) j = str_eq id j

abbrev pub extend : List ℕ → Option (List ℕ) → Option (List ℕ)
extend src none = none
extend src (some contents) = some (contents ++ src)

-- What the log of an id holds; none where there is none. The last operation comes first.
abbrev pub board : List Op → String → Option (List ℕ)
board [] j = none
board (allocates id ∷ ops) j = if str_eq id j then some [] else board ops j
board (writes k src ∷ ops) j =
    if is_id (get_elem? (allocated ops) k) j then extend src (board ops j) else board ops j
board (closes k ∷ ops) j = if is_id (get_elem? (allocated ops) k) j then none else board ops j

-- No id is given out twice, as slugid promises.
abbrev pub IsNew : String → List String → Type 0
IsNew id [] = Unit {0}
IsNew id (j ∷ ids) = (str_eq id j ≡ false) × IsNew id ids

abbrev pub AllNew : List Op → Type 0
AllNew [] = Unit {0}
AllNew (allocates id ∷ ops) = IsNew id (allocated ops) × AllNew ops
AllNew (writes k src ∷ ops) = AllNew ops
AllNew (closes k ∷ ops) = AllNew ops
