-- ===== src/PubSub/Server/Requests.antt =====
-- How requests are answered over the lifetime of the server (internal/pubsubbuffer/server.go).
use Prim.Native.Char.{Char}
use taskcluster_multistage_d.Common.{
  ℕ, ◌≡◌, true, some, none, List, [], String, arith, length, get_elem?, get_elem?-set,
  get_elem?-append_last, lt_of_get_elem?, str_eq_refl, str_eq, if◌then◌else◌, lookup, lookup-insert,
  lookup-erase,
}
use taskcluster_multistage_d.PubSub.Buffer.{Buffer, new_buffer, close}
use taskcluster_multistage_d.PubSub.Server.{
  Server, Writer, get_buffer, serves, serve_http, responds, not_found_response, allocate,
  writer_close, Route, panics, not_found, wants, route, answer_route,
}
use taskcluster_multistage_d.PubSub.Server.Paths.{Names, route_iff}
use taskcluster_multistage_d.PubSub.Server.Lifetime.{Op, replay, is_open, replay-IsWell}

answer_route-serves :
    (r : Route) (s : Server) (addr : ℕ)
    → answer_route r s ≡ serves addr
    → (id : String) × (lookup id s.buffers ≡ some addr)
unfolding get_buffer
answer_route-serves panics s addr h = cc
answer_route-serves not_found s addr h = cc
answer_route-serves (wants id) s addr h = (id, ground arith)

-- A request is never served from a closed buffer: after any history of allocations, writes and
-- closes, whatever ids were given out, the buffer that answers a path is in the store and is open.
pub serve_http-open :
    (ops : List Op) (path : String) (addr : ℕ)
    → serve_http path (replay ops).server ≡ serves addr
    → is_open (get_elem? (replay ops).server.store addr) ≡ true
unfolding serve_http
serve_http-open ops path addr h =
    let (id, e) = answer_route-serves (route path) (replay ops).server addr h in
    (replay-IsWell ops).live id addr e

-- After `Allocate`, the paths of the new id are answered by the new buffer, which is empty and
-- open, and any other id is looked up as before.
pub serve_http-allocate :
    (c : Char) (path id : String) (s : Server) (j : String)
    → Names path id
    → let (t, w) = allocate id s in
      (serve_http (String.◌∷◌ c path) t ≡ serves w.addr)
      × (get_elem? t.store w.addr ≡ some new_buffer)
      × (get_buffer j t ≡ (if str_eq id j then some w.addr else get_buffer j s))
unfolding serve_http get_buffer allocate
serve_http-allocate c path id s j named = (
  rw ((route_iff c path id).1 named)
      (ground (arith, str_eq_refl id, lookup-insert id id (length s.store) s.buffers)),
  get_elem?-append_last s.store new_buffer,
  lookup-insert id j (length s.store) s.buffers,
)

-- After `Close` of a writer, the paths of its id are answered with 404 `Not Found`, any other id is
-- looked up as before, and the buffer that it wrote is closed with its contents kept.
pub serve_http-writer_close :
    (c : Char) (path : String) (w : Writer) (s : Server) (b : Buffer) (j : String)
    → Names path w.id
    → get_elem? s.store w.addr ≡ some b
    → let t = writer_close w s in
      (serve_http (String.◌∷◌ c path) t ≡ responds not_found_response)
      × (get_elem? t.store w.addr ≡ some (record b { closed = true; parked = [] }))
      × (get_buffer j t ≡ (if str_eq w.id j then none else get_buffer j s))
unfolding serve_http get_buffer writer_close
serve_http-writer_close c path w s b j named e = (
  rw ((route_iff c path w.id).1 named)
      (ground (arith, str_eq_refl w.id, lookup-erase w.id w.id s.buffers)),
  ground (arith, get_elem?-set s.store w.addr w.addr (close b), lt_of_get_elem? s.store w.addr b),
  lookup-erase w.id j s.buffers,
)
