-- ===== src/PubSub/Server.antt =====
-- internal/pubsubbuffer/server.go. Buffers are shared between the server's map, the writers and the
-- requests, so they stand in a store and are named by their addresses in it.
pub mod Paths
pub mod Lifetime
pub mod Requests
pub mod Board
use Prim.Native.Char.{Char, code}
use taskcluster_multistage_d.Common.{
  ℕ, ◌==◌, Bool, true, false, Option, some, none, List, [], ◌∷◌, ◌++◌, String, if◌then◌else◌,
  length, set, get_elem?, str_eq, lookup, insert, erase, split_slash,
}
use taskcluster_multistage_d.PubSub.Buffer.{Buffer, WriteError, new_buffer, close, write}
use taskcluster_multistage_d.PubSub.Http.{Response}

pub record Server : Type 0 where
  pub buffers : List (String × ℕ)
  pub store : List Buffer

unfoldable pub new_server : Server
new_server = record { buffers = []; store = [] }

-- `getBuffer`: the zero value of a missing key is nil.
unfoldable pub get_buffer : String → Server → Option ℕ
get_buffer id s = lookup id s.buffers

-- `if pathParts[len(pathParts) - 1] == "" { pathParts = pathParts[:len(pathParts) - 1] }`
abbrev pub drop_empty_last : List String → List String
drop_empty_last [] = []
drop_empty_last (part ∷ []) = if str_eq part "" then [] else part ∷ []
drop_empty_last (part ∷ next ∷ parts) = part ∷ drop_empty_last (next ∷ parts)

-- What the path of a request asks for. `panics` is the slice `Path[1:]` of an empty path.
pub data Route : Type 0 where
  panics not_found : Route
  wants : String → Route

abbrev pub only_part : List String → Route
only_part (part ∷ []) = wants part
only_part parts = not_found

-- The first character of the path is the slash, one byte.
unfoldable pub route : String → Route
unfolding split_slash
route String.[] = panics
route (String.◌∷◌ c path) = only_part (drop_empty_last (split_slash path))

-- `ServeHTTP` of the server: the answer 404, or the buffer whose `ServeHTTP` answers.
pub data Answer : Type 0 where
  crashes : Answer
  responds : Response → Answer
  serves : ℕ → Answer

abbrev pub not_found_response : Response
not_found_response = record {
  status = some 404;
  headers = [];
  body = b'N' ∷ b'o' ∷ b't' ∷ b' ' ∷ b'F' ∷ b'o' ∷ b'u' ∷ b'n' ∷ b'd' ∷ [];
  flushes = 0;
}

abbrev pub answer_buffer : Option ℕ → Answer
answer_buffer none = responds not_found_response
answer_buffer (some addr) = serves addr

abbrev pub answer_route : Route → Server → Answer
unfolding get_buffer
answer_route panics s = crashes
answer_route not_found s = responds not_found_response
answer_route (wants id) s = answer_buffer (get_buffer id s)

unfoldable pub serve_http : String → Server → Answer
unfolding route get_buffer
serve_http path s = answer_route (route path) s

-- The writer that `Allocate` returns.
pub record Writer : Type 0 where
  pub addr : ℕ
  pub id : String

-- `Allocate`, given the id that slugid made.
unfoldable pub allocate : String → Server → Server × Writer
unfolding new_buffer
allocate id s =
    let addr = length s.store in
    (
      record { buffers = insert id addr s.buffers; store = s.store ++ new_buffer ∷ [] },
      record { addr = addr; id = id },
    )

abbrev pub update_buffer : ℕ → (Buffer → Buffer) → List Buffer → List Buffer
update_buffer addr f store = elim (get_elem? store addr) [
  | none ↦ store
  | some b ↦ set store addr (f b)
]

-- `Write` of a writer is that of its buffer.
unfoldable pub writer_write : Writer → List ℕ → Server → Server
unfolding write
writer_write w src s = record s { store = update_buffer w.addr (λ b. (write src b).0) s.store }

-- `Close` of a writer: the buffer is closed and leaves the map.
unfoldable pub writer_close : Writer → Server → Server
unfolding close
writer_close w s = record {
  buffers = erase w.id s.buffers;
  store = update_buffer w.addr close s.store;
}
