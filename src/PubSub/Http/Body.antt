-- ===== src/PubSub/Http/Body.antt =====
-- The body that `Buffer.ServeHTTP` of internal/pubsubbuffer/pubsubbuffer.go sends.
use taskcluster_multistage_d.Common.{
  ℕ, ◌-◌, ◌≤◌, ◌≡◌, refl, if◌then◌else◌, sym, ap, inl, inr, Bool-cases, ◌∙◌, Bool, true, false,
  Option, some, none, List, [], ◌∷◌, ◌++◌, length, take, arith, length-append, take-append_le,
  take-append-take-drop, String, length-take,
}
use taskcluster_multistage_d.PubSub.Buffer.{
  Buffer, Reader, ReadResult, got, failed, waits, write, close, read,
}
use taskcluster_multistage_d.PubSub.Http.{
  loop_turn, after_read, Handler, Turn, other_acts, serve_start, handler_turn, serve_turn, serve,
}

-- One buffer's contents begin with another's.
pub record Extends (b c : Buffer) : Type 0 where
  pub grows : length b.contents ≤ length c.contents
  pub keeps : (n : ℕ) → n ≤ length b.contents → take n c.contents ≡ take n b.contents
  pub stays : b.closed ≡ true → (c.closed ≡ true) × (c.contents ≡ b.contents)

Extends-trans : {b c d : Buffer} → Extends b c → Extends c d → Extends b d
Extends-trans e f = record {
  grows = omega (arith, e.grows, f.grows);
  keeps = λ n h. f.keeps n (omega (arith, e.grows)) ∙ e.keeps n h;
  stays = λ h. ground (arith, e.stays h, f.stays (e.stays h).0);
}

write-Extends : (src : List ℕ) (b : Buffer) → Extends b (write src b).0
unfolding write
write-Extends src b = record {
  grows = ground (arith, length-append b.contents src);
  keeps = λ n h. ground (arith, take-append_le n b.contents src);
  stays = λ h. ground arith;
}

close-Extends : (b : Buffer) → Extends b (close b)
unfolding close
close-Extends b = record { grows = omega arith; keeps = λ n h. refl; stays = λ h. ground arith }

pub other_acts-Extends :
    (acts : List (Option (List ℕ))) (b : Buffer) → Extends b (other_acts acts b)
unfolding write close
other_acts-Extends [] b = record {
  grows = omega arith;
  keeps = λ n h. refl;
  stays = λ h. (h, refl);
}
other_acts-Extends (some src ∷ rest) b =
    Extends-trans (write-Extends src b) (other_acts-Extends rest (write src b).0)
other_acts-Extends (none ∷ rest) b =
    Extends-trans (close-Extends b) (other_acts-Extends rest (close b))

-- What was sent is the beginning of the buffer; while the handler runs, it ends where the reader
-- stands.
pub record IsSent (h : Handler) : Type 0 where
  pub within : h.reader.offset ≤ length h.buffer.contents
  pub sent : length h.response.body ≤ length h.buffer.contents
  pub prefix : h.response.body ≡ take (length h.response.body) h.buffer.contents
  pub running : h.returned ≡ false → h.response.body ≡ take h.reader.offset h.buffer.contents

pub extend-IsSent :
    (h : Handler) (b : Buffer) → IsSent h → Extends h.buffer b → IsSent (record h { buffer = b })
extend-IsSent h b v e = record {
  within = omega (arith, e.grows);
  sent = omega (arith, e.grows);
  prefix = v.prefix ∙ sym (e.keeps _ v.sent);
  running = λ r. v.running r ∙ sym (e.keeps _ v.within);
}

-- What a read adds to what was read before.
abbrev Delivers : List ℕ → ℕ → ℕ → ReadResult → Type 0
Delivers contents m n (got bs) = take m contents ++ bs ≡ take n contents
Delivers contents m n (failed e) = m ≡ n
Delivers contents m n waits = m ≡ n

read-Delivers :
    (cancelled : Bool) (dest : ℕ) (b : Buffer) (r : Reader)
    → r.offset ≤ length b.contents
    → let (b', r', result) = read cancelled dest b r in
      (b'.contents ≡ b.contents)
      × (r'.offset ≤ length b.contents)
      × Delivers b.contents r.offset r'.offset result
unfolding read
read-Delivers cancelled dest b r h = ground (
  arith,
  take-append-take-drop r.offset dest b.contents,
  take-append-take-drop r.offset (length b.contents - r.offset) b.contents,
)

after_read-IsSent :
    (flusher takes : Bool) (result : ReadResult) (h : Handler) (b : Buffer) (r : Reader)
    → IsSent h
    → h.returned ≡ false
    → b.contents ≡ h.buffer.contents
    → r.offset ≤ length h.buffer.contents
    → Delivers h.buffer.contents h.reader.offset r.offset result
    → IsSent (after_read flusher takes result (record h { buffer = b; reader = r }))
after_read-IsSent flusher true (got bs) h b r v run e le d =
    ground (arith, length-take r.offset h.buffer.contents)
after_read-IsSent flusher false (got bs) h b r v run e le d = ground arith
after_read-IsSent flusher takes (failed x) h b r v run e le d = ground arith
after_read-IsSent flusher takes waits h b r v run e le d = ground arith

pub handler_turn_returned :
    (flusher cancelled takes : Bool) (h : Handler)
    → h.returned ≡ true
    → handler_turn flusher cancelled takes h ≡ h
unfolding handler_turn
handler_turn_returned flusher cancelled takes h e =
    ap (λ b. if b then h else loop_turn flusher cancelled takes h) e

handler_turn_running :
    (flusher cancelled takes : Bool) (h : Handler)
    → h.returned ≡ false
    → handler_turn flusher cancelled takes h ≡ loop_turn flusher cancelled takes h
unfolding handler_turn
handler_turn_running flusher cancelled takes h e =
    ap (λ b. if b then h else loop_turn flusher cancelled takes h) e

loop_turn-IsSent :
    (flusher cancelled takes : Bool) (h : Handler)
    → IsSent h
    → h.returned ≡ false
    → IsSent (loop_turn flusher cancelled takes h)
unfolding loop_turn
loop_turn-IsSent flusher cancelled takes h v run =
    let (same, le, d) = read-Delivers cancelled 4096 h.buffer h.reader v.within in
    let (b, r, result) = read cancelled 4096 h.buffer h.reader in
    after_read-IsSent flusher takes result h b r v run same le d

handler_turn-IsSent :
    (flusher cancelled takes : Bool) (h : Handler)
    → IsSent h
    → IsSent (handler_turn flusher cancelled takes h)
handler_turn-IsSent flusher cancelled takes h v = elim (Bool-cases h.returned) [
  | inl stop ↦ rw (handler_turn_returned flusher cancelled takes h stop) v
  | inr run ↦
      rw (handler_turn_running flusher cancelled takes h run)
        (loop_turn-IsSent flusher cancelled takes h v run)
]

pub serve_turn-IsSent :
    (flusher : Bool) (t : Turn) (h : Handler) → IsSent h → IsSent (serve_turn flusher t h)
unfolding serve_turn
serve_turn-IsSent flusher t h v =
    handler_turn-IsSent flusher t.cancelled t.client_takes _
      (extend-IsSent h _ v (other_acts-Extends t.others h.buffer))

serve-IsSent :
    (flusher : Bool) (ts : List Turn) (h : Handler) → IsSent h → IsSent (serve flusher ts h)
unfolding serve
serve-IsSent flusher [] h v = v
serve-IsSent flusher (t ∷ ts) h v =
    serve-IsSent flusher ts (serve_turn flusher t h) (serve_turn-IsSent flusher t h v)

pub serve_start-IsSent : (method : String) (i : ℕ) (b : Buffer) → IsSent (serve_start method i b)
unfolding serve_start
serve_start-IsSent method i b = ground arith

-- However the handler's turns and the actions of others are interleaved, what it has sent is a
-- beginning of the contents that the buffer has by then, for every method and client.
pub serve-body :
    (flusher : Bool) (ts : List Turn) (method : String) (i : ℕ) (b : Buffer)
    → let h = serve flusher ts (serve_start method i b) in
      h.response.body ≡ take (length h.response.body) h.buffer.contents
serve-body flusher ts method i b =
    (serve-IsSent flusher ts (serve_start method i b) (serve_start-IsSent method i b)).prefix
