-- ===== src/LiveLog/Serving.antt =====
-- internal/livelog/livelog.go: `Serve`, and the adapter of log calls for websocktunnel. Of Go's HTTP
-- server it is used that `Serve` hands each request to the handler until it returns, with the error of
-- the listener or, as soon as `Shutdown` is called, with `http.ErrServerClosed`, and that requests go on until
-- they end.
use taskcluster_multistage_d.Common.{
  ℕ, zero, suc, ◌≡◌, ◌≤◌, Bool, true, false, not, ◌&&◌, Option, none, some, List, [], ◌∷◌, ◌++◌,
  String, length, arith, if◌then◌else◌,
}
use taskcluster_multistage_d.Exception.{Error, plain}
use taskcluster_multistage_d.Log.{Entry, info}
use taskcluster_multistage_d.PubSub.Server.{Server, Answer, serve_http}

-- `requests`: the paths that are being served, each with how the handler answers it. `result` is the
-- error with which `server.Serve` returned.
pub record Serving : Type 0 where
  pub server : Server
  pub cancelled : Bool
  pub shut : Bool
  pub requests : List (String × Answer)
  pub result : Option Error

-- What happens: a request comes, the k-th request ends, the map of buffers changes, the context of the worker
-- ends, the goroutine that waits for that calls `Shutdown`, the listener fails.
pub data ServeEvent : Type 0 where
  comes : String → ServeEvent
  done : ℕ → ServeEvent
  changes : Server → ServeEvent
  cancels : ServeEvent
  shuts : ServeEvent
  breaks : Error → ServeEvent

abbrev pub server_closed : Error
server_closed = plain "http: Server closed"

abbrev pub begin_serve : Server → Serving
begin_serve server = record {
  server = server;
  cancelled = false;
  shut = false;
  requests = [];
  result = none;
}

abbrev pub remove_nth {ℓ} : {A : Type ℓ} → ℕ → List A → List A
remove_nth k [] = []
remove_nth zero (x ∷ xs) = xs
remove_nth (suc k) (x ∷ xs) = x ∷ remove_nth k xs

-- `server.Serve` returns once, with its first error.
abbrev pub ends_with : Error → Option Error → Option Error
ends_with e none = some e
ends_with e (some first) = some first

abbrev pub take_request : String → Option Error → Serving → Serving
take_request path (some e) s = s
take_request path none s = record s {
  requests = s.requests ++ (path, serve_http path s.server) ∷ [];
}

unfoldable pub serve_step : ServeEvent → Serving → Serving
unfolding serve_http
serve_step (comes path) s = take_request path s.result s
serve_step (done k) s = record s { requests = remove_nth k s.requests }
serve_step (changes server) s = record s { server = server }
serve_step cancels s = record s { cancelled = true }
serve_step shuts s =
    if s.cancelled && not s.shut
    then record s { shut = true; result = ends_with server_closed s.result }
    else s
serve_step (breaks e) s = record s { result = ends_with e s.result }

unfoldable pub serve : List ServeEvent → Serving → Serving
unfolding serve_step
serve [] s = s
serve (e ∷ es) s = serve es (serve_step e s)

-- `wg.Wait()` waits for nothing, since nothing is added to `wg`: what `Serve` returns, if it does.
abbrev pub serve_result : Serving → Option Error
serve_result s = s.result

-- `BaseURL` is the field; `tclogr.Printf` and `Print`, given the text that `fmt` makes.
abbrev pub print_entry : List ℕ → Entry
print_entry message = info message

length-remove_nth : {A : Type 0} (k : ℕ) (xs : List A) → length (remove_nth k xs) ≤ length xs
length-remove_nth k [] = ground arith
length-remove_nth zero (x ∷ xs) = omega arith
length-remove_nth (suc k) (x ∷ xs) = omega (arith, length-remove_nth k xs)

ends_with-some : (e x : Error) (o : Option Error) → o ≡ some x → ends_with e o ≡ some x
ends_with-some e x (some y) h = h
ends_with-some e x none h = absurd (cc)

serve_step-returned :
    (e : ServeEvent) (x : Error) (s : Serving)
    → s.result ≡ some x
    → ((serve_step e s).result ≡ some x) × (length (serve_step e s).requests ≤ length s.requests)
unfolding serve_step
serve_step-returned (comes path) x s h = ground arith
serve_step-returned (done k) x s h = (h, length-remove_nth k s.requests)
serve_step-returned (changes server) x s h = (h, omega arith)
serve_step-returned cancels x s h = (h, omega arith)
serve_step-returned shuts x s h = ground (arith, ends_with-some server_closed x s.result h)
serve_step-returned (breaks e) x s h = (ends_with-some e x s.result h, omega arith)

-- Once `server.Serve` has returned, it has for good, and no request is taken up any more.
pub serve-returned :
    (es : List ServeEvent) (x : Error) (s : Serving)
    → s.result ≡ some x
    → ((serve es s).result ≡ some x) × (length (serve es s).requests ≤ length s.requests)
unfolding serve
serve-returned [] x s h = (h, omega arith)
serve-returned (e ∷ es) x s h =
    let (h', le) = serve_step-returned e x s h in
    let (h'', le') = serve-returned es x (serve_step e s) h' in (h'', omega (arith, le, le'))

-- After the context has ended, `Serve` returns as soon as `Shutdown` is called, however many requests are
-- being served; these go on.
pub serve-shuts :
    (s : Serving)
    → s.cancelled ≡ true
    → s.shut ≡ false
    → s.result ≡ none
    → (serve_result (serve (shuts ∷ []) s) ≡ some server_closed)
      × ((serve (shuts ∷ []) s).requests ≡ s.requests)
unfolding serve serve_step
serve-shuts s cancelled running none_yet = ground arith
