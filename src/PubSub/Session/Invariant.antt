-- ===== src/PubSub/Session/Invariant.antt =====
-- What holds of a system of sessions after every schedule.
use taskcluster_multistage_d.Common.{
  ℕ, ◌-◌, ◌≤◌, ◌≡◌, inl, inr, true, false, some, List, [], ◌∷◌, length, take, arith, length-append,
  take-append_le, take-append-take-drop, ◌≢◌, Bool-cases, ◌==◌, ==_iff,
}
use taskcluster_multistage_d.PubSub.Buffer.{Buffer, eof, write}
use taskcluster_multistage_d.PubSub.Session.{
  Session, System, Action, writes, closes, cancels, notifies, reads, start, elem, read_turn, step,
  run,
}

-- What holds between the buffer and one of its sessions.
pub record IsConsistent (b : Buffer) (i : ℕ) (s : Session) : Type 0 where
  pub same_id : s.reader.id ≡ i
  pub within : s.reader.offset ≤ length b.contents
  pub prefix : s.delivered ≡ take s.reader.offset b.contents
  pub finished : s.result ≡ some eof → (b.closed ≡ true) × (s.reader.offset ≡ length b.contents)
  pub notified_late : s.notified ≡ true → s.cancelled ≡ true
  pub parked_empty : elem i b.parked ≡ true → s.reader.offset ≡ length b.contents
  pub parked_open : elem i b.parked ≡ true → b.closed ≡ false
  pub parked_wakes : elem i b.parked ≡ true → s.notified ≡ false

abbrev pub Inv : System → Type 0
Inv s = (i : ℕ) → IsConsistent s.buffer i (s.session i)

pub start-Inv : Inv start
unfolding start
start-Inv i = ground arith

write-IsConsistent :
    (src : List ℕ) (b : Buffer) (i : ℕ) (s : Session)
    → IsConsistent b i s
    → IsConsistent (write src b).0 i s
unfolding write
write-IsConsistent src b i s c =
    ground (arith, length-append b.contents src, take-append_le s.reader.offset b.contents src)

read_turn-same :
    (i dest : ℕ) (s : System)
    → IsConsistent s.buffer i (s.session i)
    → IsConsistent (read_turn i dest s).buffer i ((read_turn i dest s).session i)
unfolding read_turn
read_turn-same i dest s c = ground (
  arith,
  take-append-take-drop (s.session i).reader.offset dest s.buffer.contents,
  take-append-take-drop (s.session i).reader.offset
      (length s.buffer.contents - (s.session i).reader.offset) s.buffer.contents,
)

read_turn-other :
    (i dest : ℕ) (s : System) (j : ℕ)
    → i ≢ j
    → IsConsistent s.buffer i (s.session i)
    → IsConsistent s.buffer j (s.session j)
    → IsConsistent (read_turn i dest s).buffer j ((read_turn i dest s).session j)
unfolding read_turn
read_turn-other i dest s j ne ci c = ground arith

-- Every action of any goroutine keeps every session consistent with the buffer.
pub step-Inv : (a : Action) (s : System) → Inv s → Inv (step a s)
unfolding step
step-Inv (writes src) s v i = write-IsConsistent src s.buffer i (s.session i) (v i)
step-Inv closes s v i = let c = v i in ground arith
step-Inv (cancels j) s v i = let c = v i in ground arith
step-Inv (notifies j) s v i = let c = v i in ground arith
step-Inv (reads j dest) s v i = elim (Bool-cases (j == i)) [
  | inl e ↦ rw (← (==_iff j i).0 e) (read_turn-same j dest s (v j))
  | inr e ↦ read_turn-other j dest s i (λ p. ground arith) (v j) (v i)
]

pub run-Inv : (acts : List Action) (s : System) → Inv s → Inv (run acts s)
unfolding run
run-Inv [] s v = v
run-Inv (a ∷ rest) s v = run-Inv rest (step a s) (step-Inv a s v)
