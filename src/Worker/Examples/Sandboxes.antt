-- ===== src/Worker/Examples/Sandboxes.antt =====
-- The theorem on tasks in docker-in-docker at a concrete task and host.
use taskcluster_multistage_d.Common.{ℕ, ◌≡◌, true, none, some, [], ◌∷◌}
use taskcluster_multistage_d.Worker.Calls.{ok}
use taskcluster_multistage_d.Cri.Dind.{DindWorld}
use taskcluster_multistage_d.Cri.Dind.Cleanup.{removed}
use taskcluster_multistage_d.Worker.Logic.{leaves_first, run_task_logic, sandbox_name}
use taskcluster_multistage_d.Worker.Sandboxes.{in_dind, host_actions, run_task_logic-removed}
use taskcluster_multistage_d.Worker.Examples.{claim}
use taskcluster_multistage_d.Worker.Examples.Tasks.{task_world, payload}

-- Docker answers at once, with an archive that holds nothing.
abbrev host : DindWorld ℕ
host = record {
  pull = none;
  create = ok "dind";
  retry = λ outcomes. none;
  statuses = ok (record { started_at = some 5; finished_at = none; ip_address = "10.0.0.2" }) ∷ [];
  new_client = none;
  infos = ok "20.10" ∷ [];
  is_connection_failed = λ e. true;
  read_files = ok (record { entries = []; ends = none });
  x509_key_pair = λ cert key. ok 0;
  info = ok "20.10";
  remove = none;
}

run_task_logic-removed_example :
    removed (
      host_actions host "docker:dind"
        (sandbox_name claim)
        (run_task_logic
          (in_dind host "docker:dind" task_world)
          "https://tc.example"
          "proxy:1"
          claim
          (ok payload)
          0
          leaves_first).calls)
    ≡ "dind" ∷ []
run_task_logic-removed_example =
    run_task_logic-removed host "docker:dind" task_world "https://tc.example" "proxy:1" claim
      payload 0 leaves_first
