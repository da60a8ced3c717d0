-- ===== src/PubSub/Session/Liveness.antt =====
-- A subscriber of internal/pubsubbuffer/pubsubbuffer.go comes to the end of a closed buffer.
use taskcluster_multistage_d.Common.{
  ℕ, zero, suc, ◌+◌, ◌≤◌, ◌<◌, ◌≡◌, refl, ◌∙◌, true, false, some, List, [], ◌∷◌, ◌++◌, length,
  arith, replicate,
}
use taskcluster_multistage_d.PubSub.Buffer.{eof}
use taskcluster_multistage_d.PubSub.Session.{
  System, Action, writes, closes, cancels, notifies, reads, start, read_turn, step, run,
}
use taskcluster_multistage_d.PubSub.Session.Invariant.{Inv, start-Inv, run-Inv, step-Inv}
use taskcluster_multistage_d.PubSub.Session.Delivery.{written, run-written, run-eof-delivered}

-- What is left to read of a closed buffer by a session whose context has not ended: `k` at most.
record IsDraining (s : System) (i k : ℕ) : Type 0 where
  inv : Inv s
  closed : s.buffer.closed ≡ true
  live : (s.session i).cancelled ≡ false
  left : length s.buffer.contents ≤ (s.session i).reader.offset + k

read_turn-left :
    (s : System) (i dest k : ℕ)
    → 0 < dest
    → Inv s
    → s.buffer.closed ≡ true
    → (s.session i).cancelled ≡ false
    → length s.buffer.contents ≤ (s.session i).reader.offset + suc k
    → let t = read_turn i dest s in
      (t.buffer.closed ≡ true)
      × ((t.session i).cancelled ≡ false)
      × (length t.buffer.contents ≤ (t.session i).reader.offset + k)
unfolding read_turn
read_turn-left s i dest k pos v closed live left = let c = v i in ground arith

read_turn-eof :
    (s : System) (i dest : ℕ)
    → Inv s
    → s.buffer.closed ≡ true
    → (s.session i).cancelled ≡ false
    → length s.buffer.contents ≤ (s.session i).reader.offset
    → ((read_turn i dest s).session i).result ≡ some eof
unfolding read_turn
read_turn-eof s i dest v closed live left = let c = v i in ground arith

run-reads-eof :
    (k : ℕ) (s : System) (i dest : ℕ)
    → 0 < dest
    → IsDraining s i k
    → ((run (replicate (suc k) (reads i dest)) s).session i).result ≡ some eof
unfolding run step
run-reads-eof zero s i dest pos d =
    read_turn-eof s i dest d.inv d.closed d.live (omega (arith, d.left))
run-reads-eof (suc k) s i dest pos d =
    let (closed, live, left) = read_turn-left s i dest k pos d.inv d.closed d.live d.left in
    run-reads-eof k (step (reads i dest) s) i dest pos
      (record { inv = step-Inv (reads i dest) s d.inv; closed = closed; live = live; left = left })

run-append : (xs ys : List Action) (s : System) → run (xs ++ ys) s ≡ run ys (run xs s)
unfolding run
run-append [] ys s = refl
run-append (x ∷ xs) ys s = run-append xs ys (step x s)

written-closes : (xs ys : List Action) → written (xs ++ closes ∷ ys) ≡ written xs
written-closes [] ys = refl
written-closes (writes src ∷ xs) ys = rw (written-closes xs ys)
written-closes (closes ∷ xs) ys = refl
written-closes (cancels i ∷ xs) ys = written-closes xs ys
written-closes (notifies i ∷ xs) ys = written-closes xs ys
written-closes (reads i dest ∷ xs) ys = written-closes xs ys

closes-IsDraining :
    (acts : List Action) (i : ℕ)
    → ((run acts start).session i).cancelled ≡ false
    → IsDraining (step closes (run acts start)) i (length (written acts))
unfolding step
closes-IsDraining acts i live = record {
  inv = step-Inv closes (run acts start) (run-Inv acts start start-Inv);
  closed = refl;
  live = live;
  left = ground (arith, run-written acts);
}

-- Once the buffer is closed, a subscriber whose context has not ended reads to the end: after one
-- turn more than there are bytes written, with any destination that is not empty, it has read
-- `io.EOF` and has been given all the bytes, whatever every goroutine did before.
pub run-closes-eof :
    (acts : List Action) (i dest : ℕ)
    → 0 < dest
    → ((run acts start).session i).cancelled ≡ false
    → let s = run (acts ++ closes ∷ replicate (suc (length (written acts))) (reads i dest)) start in
      ((s.session i).result ≡ some eof) × ((s.session i).delivered ≡ written acts)
unfolding run
run-closes-eof acts i dest pos live =
    (ended, (run-eof-delivered (acts ++ closes ∷ turns) i ended).0 ∙ written-closes acts turns)
  where
    turns : List Action
    turns = replicate (suc (length (written acts))) (reads i dest)

    ended : ((run (acts ++ closes ∷ turns) start).session i).result ≡ some eof
    ended = rw (run-append acts (closes ∷ turns) start) (
        run-reads-eof (length (written acts)) (step closes (run acts start)) i dest pos
          (closes-IsDraining acts i live))
