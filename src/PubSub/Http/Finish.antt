-- ===== src/PubSub/Http/Finish.antt =====
-- A GET of a closed buffer ends (`Buffer.ServeHTTP` of internal/pubsubbuffer/pubsubbuffer.go).
use taskcluster_multistage_d.Common.{
  ℕ, zero, suc, ◌+◌, ◌≤◌, ◌<◌, ◌≡◌, refl, dec_lt, ◌⊎◌, sym, ap, inl, inr, ◌∙◌, Bool, true, false,
  some, List, [], ◌∷◌, length, arith, take_all,
}
use taskcluster_multistage_d.PubSub.Buffer.{Buffer, subscribe, read}
use taskcluster_multistage_d.PubSub.Http.{
  Handler, Turn, other_acts, serve_start, handler_turn, serve_turn, serve,
}
use taskcluster_multistage_d.PubSub.Http.Body.{
  IsSent, other_acts-Extends, extend-IsSent, serve_turn-IsSent, handler_turn_returned,
  serve_start-IsSent,
}

-- A turn in which the request's context has not ended and the client takes what is written.
abbrev pub IsCalm : Turn → Type 0
IsCalm t = (t.cancelled ≡ false) × (t.client_takes ≡ true)

abbrev pub AllCalm : List Turn → Type 0
AllCalm [] = Unit {0}
AllCalm (t ∷ ts) = IsCalm t × AllCalm ts

-- The handler has returned, with the whole of a closed buffer sent.
abbrev IsDone : Handler → Type 0
IsDone h = (h.returned ≡ true) × (h.response.body ≡ h.buffer.contents) × (h.buffer.closed ≡ true)

-- The handler has at most `k` bytes of a closed buffer to send.
abbrev IsSending : Handler → ℕ → Type 0
IsSending h k =
    (h.returned ≡ false)
    × (h.buffer.closed ≡ true)
    × (length h.buffer.contents ≤ h.reader.offset + k)

handler_turn_last :
    (flusher : Bool) (h : Handler)
    → IsSent h
    → h.returned ≡ false
    → h.buffer.closed ≡ true
    → length h.buffer.contents ≤ h.reader.offset
    → IsDone (handler_turn flusher false true h)
unfolding handler_turn read
handler_turn_last flusher h v run closed left =
    ground (arith, take_all h.reader.offset h.buffer.contents)

handler_turn_next :
    (flusher : Bool) (h : Handler) (k : ℕ)
    → IsSent h
    → h.returned ≡ false
    → h.buffer.closed ≡ true
    → h.reader.offset < length h.buffer.contents
    → length h.buffer.contents ≤ h.reader.offset + suc k
    → IsSending (handler_turn flusher false true h) k
unfolding handler_turn read
handler_turn_next flusher h k v run closed more left = ground arith

serve_turn-IsDone :
    (flusher : Bool) (t : Turn) (h : Handler) → IsDone h → IsDone (serve_turn flusher t h)
unfolding serve_turn
serve_turn-IsDone flusher t h (stop, sent, closed) =
    let (still, same) = (other_acts-Extends t.others h.buffer).stays closed in
    rw
      (handler_turn_returned flusher t.cancelled t.client_takes
        (record h { buffer = other_acts t.others h.buffer }) stop)
      (stop, sent ∙ sym same, still)

serve-IsDone :
    (flusher : Bool) (ts : List Turn) (h : Handler) → IsDone h → IsDone (serve flusher ts h)
unfolding serve
serve-IsDone flusher [] h d = d
serve-IsDone flusher (t ∷ ts) h d =
    serve-IsDone flusher ts (serve_turn flusher t h) (serve_turn-IsDone flusher t h d)

serve_turn_sends :
    (flusher : Bool) (t : Turn) (h : Handler) (k : ℕ)
    → IsSent h
    → IsCalm t
    → IsSending h k
    → IsDone (serve_turn flusher t h)
      ⊎ ((j : ℕ) × (k ≡ suc j) × IsSending (serve_turn flusher t h) j)
unfolding serve_turn
serve_turn_sends flusher t h k v (live, takes) (run, closed, left) =
    let ext = other_acts-Extends t.others h.buffer in
    let h' : Handler = record h { buffer = other_acts t.others h.buffer } in
    let v' : IsSent h' = extend-IsSent h h'.buffer v ext in
    let (closed', same) = ext.stays closed in
    rw (live, takes)
      (elim (dec_lt h.reader.offset (length h'.buffer.contents)) [
        | yes more ↦ next k more (omega (arith, left, ap length same))
        | no done ↦ inl (handler_turn_last flusher h' v' run closed' (omega arith))
      ])
  where
    h₁ : Handler
    h₁ = record h { buffer = other_acts t.others h.buffer }

    next :
        (k : ℕ)
        → h.reader.offset < length h₁.buffer.contents
        → length h₁.buffer.contents ≤ h.reader.offset + k
        → IsDone (handler_turn flusher false true h₁)
          ⊎ ((j : ℕ) × (k ≡ suc j) × IsSending (handler_turn flusher false true h₁) j)
    next zero more left = absurd (omega arith)
    next (suc j) more left = inr (
      j,
      refl,
      handler_turn_next flusher h₁ j
          (extend-IsSent h h₁.buffer v (other_acts-Extends t.others h.buffer)) run
          ((other_acts-Extends t.others h.buffer).stays closed).0 more left,
    )

serve_sends :
    (flusher : Bool) (ts : List Turn) (h : Handler) (k : ℕ)
    → IsSent h
    → IsSending h k
    → AllCalm ts
    → k < length ts
    → IsDone (serve flusher ts h)
unfolding serve
serve_sends flusher [] h k v s c lt = absurd (omega arith)
serve_sends flusher (t ∷ ts) h k v s (calm, c) lt = elim (serve_turn_sends flusher t h k v calm s) [
  | inl done ↦ serve-IsDone flusher ts (serve_turn flusher t h) done
  | inr (j, e, s') ↦
      serve_sends flusher ts (serve_turn flusher t h) j (serve_turn-IsSent flusher t h v) s' c
        (omega arith)
]

-- A turn keeps what the buffer holds and, when that is closed, the buffer closed; and the status.
handler_turn-contents :
    (flusher cancelled takes : Bool) (h : Handler)
    → let t = handler_turn flusher cancelled takes h in
      (t.buffer.contents ≡ h.buffer.contents)
      × (t.buffer.closed ≡ h.buffer.closed)
      × (t.response.status ≡ h.response.status)
unfolding handler_turn read
handler_turn-contents flusher cancelled takes h = ground arith

serve-contents :
    (flusher : Bool) (ts : List Turn) (h : Handler)
    → h.buffer.closed ≡ true
    → ((serve flusher ts h).buffer.contents ≡ h.buffer.contents)
      × ((serve flusher ts h).response.status ≡ h.response.status)
unfolding serve serve_turn
serve-contents flusher [] h closed = (refl, refl)
serve-contents flusher (t ∷ ts) h closed = ground (
  arith,
  (other_acts-Extends t.others h.buffer).stays closed,
  handler_turn-contents flusher t.cancelled t.client_takes
      (record h { buffer = other_acts t.others h.buffer }),
  serve-contents flusher ts (serve_turn flusher t h),
)

-- A GET of a closed buffer ends, whatever others do meanwhile, in at most one turn more than the
-- buffer has bytes, if the client takes what is written and stays: the status is 200 and the body
-- is the whole contents of the buffer at the start.
pub serve-closed_body :
    (flusher : Bool) (ts : List Turn) (i : ℕ) (b : Buffer)
    → b.closed ≡ true
    → AllCalm ts
    → length b.contents < length ts
    → let h = serve flusher ts (serve_start "GET" i b) in
      (h.returned ≡ true) × (h.response.status ≡ some 200) × (h.response.body ≡ b.contents)
unfolding serve_start subscribe
serve-closed_body flusher ts i b closed calm lt =
    let h = serve_start "GET" i b in
    let (stop, sent, _) =
      serve_sends flusher ts h (length b.contents) (serve_start-IsSent "GET" i b)
        (refl, closed, omega arith) calm lt in
    let (same, status) = serve-contents flusher ts h closed in (stop, status, sent ∙ same)
