-- ===== src/Cri/Host/Ready.antt =====
-- The sandboxes of internal/cri/dind.go over the Docker of internal/cri/docker.go.
use Prim.Native.String.{◌++◌ as append}
use taskcluster_multistage_d.Common.{
  ℕ, suc, ◌≡◌, refl, ap, sym, ◌∙◌, Option, none, some, List, [], ◌∷◌, ◌++◌, String,
}
use taskcluster_multistage_d.Exception.{Error}
use taskcluster_multistage_d.Worker.Calls.{Result, ok, err}
use taskcluster_multistage_d.Cri.Docker.Containers.{
  create_request, container_create, Inspected, PathStat,
}
use taskcluster_multistage_d.Cri.Runtime.{
  new_container, DockerClient, DockerContainer, docker_cri, docker_container,
}
use taskcluster_multistage_d.Cri.Dind.Tls.{Tar, tls_config_from_tar}
use taskcluster_multistage_d.Cri.Dind.{
  DindWorld, DindSandbox, Ending, returns, fails, crashes, dind_spec, sandbox_create,
}
use taskcluster_multistage_d.Cri.Dind.Cleanup.{kept, removed, created, sandbox_create-removed}
use taskcluster_multistage_d.Cri.Dind.Ready.{IsRetry, IsReady, OnlyReady, sandbox_create-OnlyReady}
use taskcluster_multistage_d.Cri.Host.{
  Surroundings, new_docker_in_docker_sandbox, world_of, create_sandbox,
}
use taskcluster_multistage_d.Cri.Host.Looks.{
  status-Looked, ok_inj, time_or_none-some, time_or_none-none, last-statuses_from, copied_of,
}

-- What Docker told of the container of a sandbox: it made it on request, at the last look it had
-- a time of its start and none of its end, and an address, at which the sandbox is; and it gave the
-- archive of the certificates.
pub record IsBacked {Auth : Type 0} {Pair : Type 0} (client : DockerClient Auth Tar)
    (env : Surroundings Pair) (image name : String) (s : DindSandbox Pair) : Type 0 where
  pub made : client.create (create_request (dind_spec image name)) ≡ ok s.container
  pub look : ℕ
  pub seen : Inspected
  pub is_seen : client.inspect look s.container ≡ ok seen
  pub start : ℕ
  pub started : client.parse_time seen.started_at ≡ ok (suc start)
  pub unfinished : client.parse_time seen.finished_at ≡ ok 0
  pub at_host : s.host ≡ append "tcp://" (append seen.ip_address ":2376")
  pub archive : Tar
  pub stat : PathStat
  pub copied : client.copy s.container "/certs/client" ≡ ok (archive, stat)
  pub loads : (tls_config_from_tar env.x509_key_pair archive).result ≡ ok s.tls

abbrev pub Backed :
    {Auth : Type 0} {Pair : Type 0}
    → DockerClient Auth Tar
    → Surroundings Pair
    → String
    → String
    → Ending Pair
    → Type 0
Backed client env image name (returns s) = IsBacked client env image name s
Backed client env image name (fails e) = Unit {0}
Backed client env image name crashes = ⊥

module _ {Auth : Type 0} {Pair : Type 0} (client : DockerClient Auth Tar) (env : Surroundings Pair)
    (image name : String) where
  abbrev world_with : Option Error → Result DockerContainer → DindWorld Pair
  world_with pull made = world_of (docker_container client) env pull made

  -- A sandbox that is ready, of the container that was made.
  IsReady-IsBacked :
      (pull : Option Error) (c : DockerContainer) (s : DindSandbox Pair)
      → client.create (create_request (dind_spec image name)) ≡ ok c.container_id
      → s.container ≡ c.container_id
      → IsReady (world_with pull (ok c)) s
      → IsBacked client env image name s
  unfolding docker_container
  IsReady-IsBacked pull c s made same r =
      let (k, answer) =
        last-statuses_from (docker_container client) env 0 env.attempts c r.status r.last_answer in
      let looked = status-Looked client (client.inspect k c.container_id) r.status answer in
      let (n, running) =
        time_or_none-some looked.begun r.is_running.started.0
          (sym looked.same_begun ∙ r.is_running.started.1) in
      let none_yet =
        time_or_none-none looked.ended (sym looked.same_ended ∙ r.is_running.unfinished) in
      let (stat, copy) =
        copied_of client env (client.copy c.container_id "/certs/client") r.archive r.read in
      record {
        made = made ∙ ap ok (sym same);
        look = k;
        seen = looked.looked_at;
        is_seen = ap (client.inspect k) same ∙ looked.is_found;
        start = n;
        started = looked.begun_at ∙ ap ok running;
        unfinished = looked.ended_at ∙ ap ok none_yet;
        at_host = r.at_host ∙ ap (λ ip. append "tcp://" (append ip ":2376")) looked.same_address;
        archive = r.archive;
        stat = stat;
        copied = ap (λ id. client.copy id "/certs/client") same ∙ copy;
        loads = r.loads;
      }

  -- The sandbox that is returned is of the container that was made.
  same_container :
      (pull : Option Error) (id : String) (s : DindSandbox Pair) (gone : List String)
      → s.container ∷ gone ≡ created pull (ok id)
      → s.container ≡ id
  same_container none id s gone h = cons_inj h
    where
      cons_inj : {a b : String} {xs ys : List String} → a ∷ xs ≡ b ∷ ys → a ≡ b
      cons_inj e = cc
  same_container (some e) id s gone h = absurd (cc)

  none_created : (pull : Option Error) (e : Error) → created pull (err e) ≡ []
  none_created none e = refl
  none_created (some x) e = refl

  new_container-ok :
      (r : Result String) (c : DockerContainer) → new_container r ≡ ok c → r ≡ ok c.container_id
  new_container-ok (err e) c h = absurd (cc)
  new_container-ok (ok id) c h = ap (λ c. ok c.container_id) (ok_inj h)

  ending-Backed :
      (pull : Option Error) (made : Result DockerContainer) (e : Ending Pair) (gone : List String)
      → new_container (client.create (create_request (dind_spec image name))) ≡ made
      → OnlyReady (world_with pull made) e
      → kept e ++ gone ≡ created pull (world_with pull made).create
      → Backed client env image name e
  unfolding docker_container
  ending-Backed pull (ok c) (returns s) gone made r h =
      IsReady-IsBacked pull c s
        (new_container-ok (client.create (create_request (dind_spec image name))) c made)
        (same_container pull c.container_id s gone h) r
  ending-Backed pull (err x) (returns s) gone made r h =
      let empty = h ∙ none_created pull x in absurd (cc)
  ending-Backed pull made (fails e) gone m r h = tt
  ending-Backed pull made crashes gone m r h = r

-- Where `backoff.Retry` returns nil only after an attempt that told it nil, `SandboxCreate` of the factory over
-- Docker never uses a nil status, and of a sandbox that it returns: Docker was asked for just the privileged
-- container that `SandboxCreate` describes and gave it that id; at some look Docker had a time of its start
-- that is not the zero time and the zero time as that of its end, and its address is where the
-- sandbox connects; and the TLS configuration is that of the archive copied from "/certs/client" in it.
pub create_sandbox-Backed :
    {Auth : Type 0} {Pair : Type 0} (client : DockerClient Auth Tar) (env : Surroundings Pair)
    (image name : String)
    → IsRetry env.retry
    → Backed client env image name
        (create_sandbox
          (docker_container client)
          env
          (new_docker_in_docker_sandbox (docker_cri client) image)
          name).ending
unfolding create_sandbox docker_cri container_create
create_sandbox-Backed client env image name is_retry = go _ refl
  where
    pull : Option Error
    pull = (docker_cri client).image_pull image

    go :
        (made : Result DockerContainer)
        → new_container (client.create (create_request (dind_spec image name))) ≡ made
        → Backed client env image name
            (sandbox_create (world_of (docker_container client) env pull made) image name).ending
    go (ok c) e =
        let w = world_of (docker_container client) env pull (ok c) in
        ending-Backed client env image name pull (ok c) (sandbox_create w image name).ending
          (removed (sandbox_create w image name).actions) e
          (sandbox_create-OnlyReady w image name is_retry) (sandbox_create-removed w image name)
    go (err x) e =
        let w = world_of (docker_container client) env pull (err x) in
        ending-Backed client env image name pull (err x) (sandbox_create w image name).ending
          (removed (sandbox_create w image name).actions) e
          (sandbox_create-OnlyReady w image name is_retry) (sandbox_create-removed w image name)
