-- ===== src/PubSub/Examples.antt =====
-- The theorems on internal/pubsubbuffer at concrete schedules, requests and histories.
use taskcluster_multistage_d.Common.{
  ◌≤◌, ◌≡◌, ◌↔◌, refl, inl, true, false, some, none, List, [], ◌∷◌, ◌++◌, length, take, arith,
  replicate,
}
use taskcluster_multistage_d.PubSub.Buffer.{
  Buffer, new_buffer, read, waits, eof, write, close, subscribe,
}
use taskcluster_multistage_d.PubSub.Session.{Action, writes, closes, reads, start, run}
use taskcluster_multistage_d.PubSub.Session.Delivery.{run-delivered, run-parked_waits}
use taskcluster_multistage_d.PubSub.Session.Liveness.{run-closes-eof}
use taskcluster_multistage_d.PubSub.Http.{Turn, serve, serve_start}
use taskcluster_multistage_d.PubSub.Http.Body.{serve-body}
use taskcluster_multistage_d.PubSub.Http.Finish.{serve-closed_body}
use taskcluster_multistage_d.PubSub.Server.{wants, route, serve_http}
use taskcluster_multistage_d.PubSub.Server.Paths.{Names, route_iff}
use taskcluster_multistage_d.PubSub.Server.Lifetime.{
  Op, allocates, writes as writes_log, closes as closes_log, replay,
}
use taskcluster_multistage_d.PubSub.Server.Board.Refinement.{answered, serve_http-board}

-- Two readers, of which the first one waits before anything is written.
abbrev schedule : List Action
schedule =
    reads 0 4
    ∷ writes (1 ∷ 2 ∷ 3 ∷ [])
    ∷ reads 1 2
    ∷ reads 0 4
    ∷ closes
    ∷ writes (9 ∷ [])
    ∷ reads 0 4
    ∷ []

run-delivered_example :
    ((run schedule start).buffer.contents ≡ 1 ∷ 2 ∷ 3 ∷ [])
    × (((run schedule start).session 1).delivered
        ≡ take ((run schedule start).session 1).reader.offset (1 ∷ 2 ∷ 3 ∷ []))
    × (((run schedule start).session 1).reader.offset ≤ 3)
run-delivered_example = run-delivered schedule 1

abbrev parking : List Action
parking = writes (7 ∷ []) ∷ reads 2 8 ∷ reads 2 8 ∷ []

run-parked_waits_example :
    (((run parking start).session 2).delivered ≡ 7 ∷ [])
    × ((read false 8 (run parking start).buffer ((run parking start).session 2).reader).2 ≡ waits)
    × (((run parking start).session 2).notified ≡ false)
unfolding run start subscribe new_buffer
run-parked_waits_example = run-parked_waits parking 2 8 refl

run-closes-eof_example :
    let s = run (parking ++ closes ∷ replicate 2 (reads 3 1)) start in
    ((s.session 3).result ≡ some eof) × ((s.session 3).delivered ≡ 7 ∷ [])
unfolding run start subscribe new_buffer
run-closes-eof_example = run-closes-eof parking 3 1 (omega arith) refl

abbrev calm : Turn
calm = record { others = some (5 ∷ []) ∷ none ∷ []; cancelled = false; client_takes = true }

serve-body_example :
    (serve true (calm ∷ calm ∷ []) (serve_start "GET" 0 new_buffer)).response.body
    ≡ take
        (length (serve true (calm ∷ calm ∷ []) (serve_start "GET" 0 new_buffer)).response.body)
        (serve true (calm ∷ calm ∷ []) (serve_start "GET" 0 new_buffer)).buffer.contents
serve-body_example = serve-body true (calm ∷ calm ∷ []) "GET" 0 new_buffer

abbrev shut : Buffer
unfolding write close new_buffer
shut = close (write (4 ∷ []) new_buffer).0

serve-closed_body_example :
    let h = serve true (calm ∷ calm ∷ []) (serve_start "GET" 0 shut) in
    (h.returned ≡ true) × (h.response.status ≡ some 200) × (h.response.body ≡ 4 ∷ [])
unfolding write close new_buffer
serve-closed_body_example =
    serve-closed_body true (calm ∷ calm ∷ []) 0 shut refl ((refl, refl), ((refl, refl), tt))
      (omega arith)

route_iff_example : (route "/log" ≡ wants "log") ↔ Names "log" "log"
route_iff_example = route_iff "/" "log" "log"

-- Two logs; the first is written to and closed, the second is written to. The last operation is first.
abbrev operations : List Op
operations =
    closes_log 0
    ∷ writes_log 1 (b'h' ∷ b'i' ∷ [])
    ∷ writes_log 0 (b'x' ∷ [])
    ∷ allocates "b"
    ∷ allocates "a"
    ∷ []

serve_http-board_example :
    answered (replay operations).server (serve_http "/b" (replay operations).server)
    ≡ some (b'h' ∷ b'i' ∷ [])
serve_http-board_example =
    serve_http-board operations "/" "b" "b" ((refl, tt), (tt, tt)) (refl, inl (refl, λ e. cc))
