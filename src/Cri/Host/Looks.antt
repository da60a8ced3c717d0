-- ===== src/Cri/Host/Looks.antt =====
-- The answers of Docker (internal/cri/docker.go) that a sandbox of internal/cri/dind.go rests on.
use taskcluster_multistage_d.Common.{ℕ, zero, suc, ◌≡◌, refl, ap, sym, none, some, last, arith}
use taskcluster_multistage_d.Worker.Calls.{Result, ok, err}
use taskcluster_multistage_d.Cri.{ContainerStatus}
use taskcluster_multistage_d.Cri.Docker.Containers.{
  Inspected, status, after_started, after_finished, time_or_none, read_files, PathStat,
}
use taskcluster_multistage_d.Cri.Runtime.{ContainerOps, DockerClient, docker_container}
use taskcluster_multistage_d.Cri.Dind.Tls.{Tar}
use taskcluster_multistage_d.Cri.Host.{Surroundings, statuses_from, only_archive}

-- What a status of Docker was made of.
pub record Looked {Auth : Type 0} (client : DockerClient Auth Tar) (found : Result Inspected)
    (st : ContainerStatus) : Type 0 where
  pub looked_at : Inspected
  pub is_found : found ≡ ok looked_at
  pub begun : ℕ
  pub ended : ℕ
  pub begun_at : client.parse_time looked_at.started_at ≡ ok begun
  pub ended_at : client.parse_time looked_at.finished_at ≡ ok ended
  pub same_begun : st.started_at ≡ time_or_none begun
  pub same_ended : st.finished_at ≡ time_or_none ended
  pub same_address : st.ip_address ≡ looked_at.ip_address

pub ok_inj : {A : Type 0} {a b : A} → ok a ≡ ok b → a ≡ b
ok_inj h = cc

module _ {Auth : Type 0} (client : DockerClient Auth Tar) where
  after_finished-Looked :
      (r : Inspected) (begun : ℕ) (p : Result ℕ) (st : ContainerStatus)
      → client.parse_time r.started_at ≡ ok begun
      → client.parse_time r.finished_at ≡ p
      → after_finished r.ip_address begun p ≡ ok st
      → Looked client (ok r) st
  after_finished-Looked r begun (err e) st h h' is_ok = absurd (cc)
  after_finished-Looked r begun (ok ended) st h h' is_ok = record {
    looked_at = r;
    is_found = refl;
    begun = begun;
    ended = ended;
    begun_at = h;
    ended_at = h';
    same_begun = ap (λ t. t.started_at) (sym (ok_inj is_ok));
    same_ended = ap (λ t. t.finished_at) (sym (ok_inj is_ok));
    same_address = ap (λ t. t.ip_address) (sym (ok_inj is_ok));
  }

  after_started-Looked :
      (r : Inspected) (p : Result ℕ) (st : ContainerStatus)
      → client.parse_time r.started_at ≡ p
      → after_started client.parse_time r p ≡ ok st
      → Looked client (ok r) st
  after_started-Looked r (err e) st h is_ok = absurd (cc)
  after_started-Looked r (ok begun) st h is_ok =
      after_finished-Looked r begun (client.parse_time r.finished_at) st h refl is_ok

  pub status-Looked :
      (found : Result Inspected) (st : ContainerStatus)
      → status client.parse_time found ≡ ok st
      → Looked client found st
  unfolding status
  status-Looked (err e) st is_ok = absurd (cc)
  status-Looked (ok r) st is_ok =
      after_started-Looked r (client.parse_time r.started_at) st refl is_ok

pub time_or_none-some : (t x : ℕ) → time_or_none t ≡ some x → (n : ℕ) × (t ≡ suc n)
time_or_none-some zero x h = absurd (cc)
time_or_none-some (suc n) x h = (n, refl)

pub time_or_none-none : (t : ℕ) → time_or_none t ≡ none → t ≡ 0
time_or_none-none zero h = refl
time_or_none-none (suc n) h = ground arith

-- The last answer is one of them.
pub last-statuses_from :
    {C : Type 0} {Pair : Type 0} (ops : ContainerOps C Tar) (env : Surroundings Pair) (i n : ℕ)
    (c : C) (st : ContainerStatus)
    → last (statuses_from ops env i n c) ≡ some (ok st)
    → (k : ℕ) × (ops.status k c ≡ ok st)
last-statuses_from ops env i zero c st h = absurd (cc)
last-statuses_from ops env i (suc zero) c st h = (i, some_inj h)
  where
    some_inj : {a b : Result ContainerStatus} → some a ≡ some b → a ≡ b
    some_inj e = cc
last-statuses_from ops env i (suc (suc n)) c st h =
    last-statuses_from ops env (suc i) (suc n) c st h

pub copied_of :
    {Auth : Type 0} {Pair : Type 0} (client : DockerClient Auth Tar) (env : Surroundings Pair)
    (found : Result (Tar × PathStat)) (archive : Tar)
    → only_archive (docker_container client) env (read_files client.mode_is_dir found) ≡ ok archive
    → (stat : PathStat) × (found ≡ ok (archive, stat))
unfolding read_files
copied_of client env (err e) archive h = absurd (cc)
copied_of client env (ok (a, stat)) archive h = (stat, ap (λ t. ok (t, stat)) (ok_inj h))
