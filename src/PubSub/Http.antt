-- ===== src/PubSub/Http.antt =====
-- internal/pubsubbuffer/pubsubbuffer.go: `Buffer.ServeHTTP`. The handler is a reader whose
-- destination has 4096 bytes. A turn of it is one turn of the loop in `Read` and, if that returns,
-- the rest of the body of the loop in `ServeHTTP`. Between two turns others act on the buffer.
pub mod Body
pub mod Finish
use taskcluster_multistage_d.Common.{
  ℕ, suc, ◌+◌, ◌∷◌, ◌++◌, [], List, Bool, true, false, Option, some, none, String, if◌then◌else◌,
  str_eq,
}
use taskcluster_multistage_d.PubSub.Buffer.{
  Buffer, Reader, ReadResult, got, failed, waits, close, write, subscribe, read,
}

-- What the handler sent: the status, once written, the headers, the body and the calls of `Flush`.
pub record Response : Type 0 where
  pub status : Option ℕ
  pub headers : List (String × String)
  pub body : List ℕ
  pub flushes : ℕ

pub record Handler : Type 0 where
  pub buffer : Buffer
  pub reader : Reader
  pub response : Response
  pub returned : Bool

abbrev pub no_response : Response
no_response = record { status = none; headers = []; body = []; flushes = 0 }

-- The part before the loop. Any method but GET is answered at once.
unfoldable pub serve_start : String → ℕ → Buffer → Handler
unfolding subscribe
serve_start method i b =
    if str_eq method "GET"
    then record {
      buffer = b;
      reader = subscribe i;
      response = record {
        status = some 200;
        headers =
            ("Content-Type", "text/plain; charset=utf-8")
            ∷ ("Access-Control-Allow-Origin", "*")
            ∷ ("Access-Control-Expose-Headers", "Transfer-Encoding")
            ∷ [];
        body = [];
        flushes = 0;
      };
      returned = false;
    }
    else record {
      buffer = b;
      reader = subscribe i;
      response = record no_response { status = some 405 };
      returned = true;
    }

-- What surrounds a turn: the actions of others before it, whether the request's context has ended,
-- and whether the client takes what the turn writes.
pub record Turn : Type 0 where
  pub others : List (Option (List ℕ))
  pub cancelled : Bool
  pub client_takes : Bool

-- An action of others: a write, or (`none`) a close.
abbrev pub other_acts : List (Option (List ℕ)) → Buffer → Buffer
unfolding write close
other_acts [] b = b
other_acts (some src ∷ rest) b = other_acts rest (write src b).0
other_acts (none ∷ rest) b = other_acts rest (close b)

abbrev after_read : Bool → Bool → ReadResult → Handler → Handler
after_read flusher true (got bs) h = record h {
  response = record h.response {
    body = h.response.body ++ bs;
    flushes = if flusher then suc h.response.flushes else h.response.flushes;
  };
}
after_read flusher false (got bs) h = record h { returned = true }
after_read flusher takes (failed e) h = record h { returned = true }
after_read flusher takes waits h = h

-- One turn of the loop: a read and, if it gives bytes, the write to the client and the flush.
unfoldable pub loop_turn : Bool → Bool → Bool → Handler → Handler
unfolding read
loop_turn flusher cancelled takes h =
    let (b, r, result) = read cancelled 4096 h.buffer h.reader in
    after_read flusher takes result (record h { buffer = b; reader = r })

-- The handler does nothing more after it has returned.
unfoldable pub handler_turn : Bool → Bool → Bool → Handler → Handler
unfolding loop_turn
handler_turn flusher cancelled takes h =
    if h.returned then h else loop_turn flusher cancelled takes h

-- A parked handler is woken by any broadcast, and a turn without one would only park it again.
unfoldable pub serve_turn : Bool → Turn → Handler → Handler
unfolding handler_turn other_acts
serve_turn flusher t h =
    handler_turn flusher t.cancelled t.client_takes
      (record h { buffer = other_acts t.others h.buffer })

unfoldable pub serve : Bool → List Turn → Handler → Handler
unfolding serve_turn
serve flusher [] h = h
serve flusher (t ∷ ts) h = serve flusher ts (serve_turn flusher t h)
