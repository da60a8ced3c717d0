-- ===== src/Worker/Setup.antt =====
-- internal/worker/worker.go: `NewWorker` and `taskCredentials`.
use taskcluster_multistage_d.Common.{Bool, Option, [], Chan}
use taskcluster_multistage_d.Config.{Config, ClientCredentials}
use taskcluster_multistage_d.LiveLog.{ListenWorld, LiveLog, new}
use taskcluster_multistage_d.Worker.Claim.{Credentials}
use taskcluster_multistage_d.Worker.Calls.{Result, ok, err}

-- The credentials of a claim, without scopes.
unfoldable pub task_credentials : Credentials → ClientCredentials
task_credentials c = record {
  client_id = c.client_id;
  access_token = c.access_token;
  certificate = c.certificate;
  authorized_scopes = [];
}

-- `Factory` is the type of the sandbox factory. The log and `shutdown` are those of the command.
pub record Worker (Factory : Type 0) : Type 0 where
  pub config : Config
  pub live_log : LiveLog
  pub sandbox_factory : Factory
  pub stop : Option (Chan Bool)

abbrev pub after_new :
    {Factory : Type 0}
    → Config
    → Factory
    → Option (Chan Bool)
    → Result LiveLog
    → Result (Worker Factory)
after_new config factory stop (err e) = err e
after_new config factory stop (ok l) =
    ok (record { config = config; live_log = l; sandbox_factory = factory; stop = stop })

unfoldable pub new_worker :
    {Factory : Type 0}
    → ListenWorld
    → Config
    → Factory
    → Option (Chan Bool)
    → Result (Worker Factory)
unfolding new
new_worker w config factory stop = after_new config factory stop (new w config)
