-- ===== src/Worker/Logic/TimeLimit.antt =====
-- The time limit of a task (`runTaskLogic` of internal/worker/run.go).
use taskcluster_multistage_d.Common.{ℕ, ◌*◌, ◌^◌, ◌≤◌, ◌<◌, ◌≡◌, arith, ◌==◌, if◌then◌else◌}
use taskcluster_multistage_d.Payload.{ℤ, pos, negsuc}
use taskcluster_multistage_d.Worker.Logic.{second, max_run_time}

-- Whatever the payload asks for, wrap-around included, the time limit is a positive int64.
pub max_run_time_bounds : (t : ℤ) → (0 < max_run_time t) × (max_run_time t < 2 ^ 63)
unfolding max_run_time
max_run_time_bounds (pos n) = ground arith
max_run_time_bounds (negsuc n) = ground arith

-- A limit of 1 to 9223372035 seconds is the limit asked for; no limit, and one of as many seconds
-- below 0, is an hour.
pub max_run_time-seconds :
    (n : ℕ)
    → n ≤ 9223372035
    → (max_run_time (pos n) ≡ (if n == 0 then 3600 * second else n * second))
      × (max_run_time (negsuc n) ≡ 3600 * second)
unfolding max_run_time
max_run_time-seconds n h = (ground arith, ground arith)
