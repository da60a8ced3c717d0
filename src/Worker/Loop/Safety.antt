-- ===== src/Worker/Loop/Safety.antt =====
-- What `Worker.Run` (internal/worker/worker.go) promises over every sequence of events.
use taskcluster_multistage_d.Common.{
  ℕ, zero, suc, ◌+◌, ◌≤◌, ◌<◌, ◌≡◌, ◌≢◌, ◌⊎◌, false, List, length, ltb, if◌then◌else◌, arith,
}
use taskcluster_multistage_d.Worker.Claim.{TaskClaim}
use taskcluster_multistage_d.Worker.Loop.{Config, Exit, immediate_stop}
use taskcluster_multistage_d.Worker.Loop.System.{
  waiting, looping, returned, panicked, stuck, Event, range_from, start, run,
}
use taskcluster_multistage_d.Worker.Loop.Slots.{count, slots_of}
use taskcluster_multistage_d.Worker.Loop.Invariant.{Good, start-Good}
use taskcluster_multistage_d.Worker.Loop.Runs.{IsModest, run-Good}

count-range :
    (y i n : ℕ) → count y (range_from i n) ≡ (if ltb y i then 0 else if ltb y (i + n) then 1 else 0)
count-range y i zero = ground arith
count-range y i (suc n) = ground (arith, count-range y (suc i) n)

good :
    (queue : ℕ → ℕ → List TaskClaim)
    → IsModest queue
    → (cfg : Config) (now : ℕ) (es : List Event) → Good cfg (run queue cfg es (start cfg now))
good queue modest cfg now es = run-Good queue modest cfg es (start cfg now) (start-Good cfg now)

-- If the queue answers with no more tasks than it was asked for, then after every sequence of
-- events the loop has not panicked on an empty `freeSlots`, and is not blocked in a send to
-- `workReq`.
pub run-safe :
    (queue : ℕ → ℕ → List TaskClaim)
    → IsModest queue
    → (cfg : Config) (now : ℕ) (es : List Event)
    → ((run queue cfg es (start cfg now)).status ≢ panicked)
      × ((run queue cfg es (start cfg now)).status ≢ stuck)
run-safe queue modest cfg now es = let g = good queue modest cfg now es in (g.no_panic, g.not_stuck)

-- If the queue answers with no more tasks than it was asked for, then while the loop runs, each of
-- the slots 0, …, ConcurrentTasks - 1 is in one place and once only: free, held by one running task,
-- or in the channel `completedTasks`; and there is no other slot. So no more than ConcurrentTasks
-- tasks run, and no more than that many values are in the channel, which is its capacity.
pub run-slots :
    (queue : ℕ → ℕ → List TaskClaim)
    → IsModest queue
    → (cfg : Config) (now : ℕ) (es : List Event) (slot : ℕ)
    → (run queue cfg es (start cfg now)).status ≡ looping
    → let s = run queue cfg es (start cfg now) in
      (count slot s.loop.free_slots + count slot (slots_of s.running) + count slot s.completed
        ≡ (if ltb slot cfg.concurrent_tasks then 1 else 0))
      × (length s.running + length s.completed ≤ cfg.concurrent_tasks)
run-slots queue modest cfg now es slot on =
    let g = good queue modest cfg now es in
    (
      ground (arith, g.shared slot on, count-range slot 0 cfg.concurrent_tasks),
      omega (arith, g.counted on),
    )

-- If the queue answers with no more tasks than it was asked for, then while the loop runs, is not
-- shutting down and has a free slot, the goroutine that claims work is not waiting for a request:
-- it is claiming, has a response to hand over, or has returned.
pub run-asks :
    (queue : ℕ → ℕ → List TaskClaim)
    → IsModest queue
    → (cfg : Config) (now : ℕ) (es : List Event)
    → (run queue cfg es (start cfg now)).status ≡ looping
    → (run queue cfg es (start cfg now)).loop.is_shutting_down ≡ false
    → 0 < length (run queue cfg es (start cfg now)).loop.free_slots
    → (run queue cfg es (start cfg now)).claimer ≢ waiting
run-asks queue modest cfg now es on up free h =
    let g = good queue modest cfg now es in ground (arith, g.full_used on, g.active on up)

-- If the queue answers with no more tasks than it was asked for, then whenever the loop returns, no
-- task runs and none is still to be collected, unless it was told to stop at once.
pub run-returned :
    (queue : ℕ → ℕ → List TaskClaim)
    → IsModest queue
    → (cfg : Config) (now : ℕ) (es : List Event) (e : Exit)
    → (run queue cfg es (start cfg now)).status ≡ returned e
    → (e ≡ immediate_stop)
      ⊎ ((length (run queue cfg es (start cfg now)).running ≡ 0)
          × (length (run queue cfg es (start cfg now)).completed ≡ 0))
run-returned queue modest cfg now es e h = (good queue modest cfg now es).exit_idle e h
