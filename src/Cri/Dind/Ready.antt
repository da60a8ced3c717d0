-- ===== src/Cri/Dind/Ready.antt =====
-- Of which containers a sandbox is returned (`SandboxCreate`, internal/cri/dind.go).
use Prim.Native.String.{◌++◌ as append}
use taskcluster_multistage_d.Common.{
  ◌≡◌, refl, sym, subst, ap, ◌∙◌, false, ℕ, Option, none, some, List, [], ◌∷◌, map, last, String,
  str_eq, Bool-cases, inl, inr,
}
use taskcluster_multistage_d.Exception.{Error}
use taskcluster_multistage_d.Worker.Calls.{Result, ok, err}
use taskcluster_multistage_d.Cri.{ContainerStatus}
use taskcluster_multistage_d.Cri.Dind.Tls.{Tar, TlsConfig, tls_config_from_tar}
use taskcluster_multistage_d.Cri.Dind.{
  Attempt, passes, Outcome, unless, DindWorld, DindSandbox, Ending, returns, fails, crashes,
  try_info, try_started, try_status, after_info, after_tls, after_read, after_client, connect,
  wait_and_connect, with_container, after_pull, sandbox_create,
}

-- `backoff.Retry` returns nil only after an attempt that told it nil.
abbrev pub IsRetry : (List Attempt → Option Error) → Type 0
IsRetry retry = (outcomes : List Attempt) → retry outcomes ≡ none → last outcomes ≡ some passes

-- The container runs and has an address.
pub record IsRunning (status : ContainerStatus) : Type 0 where
  pub started : (start : ℕ) × (status.started_at ≡ some start)
  pub unfinished : status.finished_at ≡ none
  pub has_address : str_eq status.ip_address "" ≡ false

-- The last status was that of a running container, at whose address Docker is, and the configuration
-- is that of the archive read from it.
pub record IsReady {Pair : Type 0} (w : DindWorld Pair) (s : DindSandbox Pair) : Type 0 where
  pub status : ContainerStatus
  pub last_answer : last w.statuses ≡ some (ok status)
  pub is_running : IsRunning status
  pub at_host : s.host ≡ append "tcp://" (append status.ip_address ":2376")
  pub archive : Tar
  pub read : w.read_files ≡ ok archive
  pub loads : (tls_config_from_tar w.x509_key_pair archive).result ≡ ok s.tls

abbrev pub OnlyReady : {Pair : Type 0} → DindWorld Pair → Ending Pair → Type 0
OnlyReady w (returns s) = IsReady w s
OnlyReady w (fails e) = Unit {0}
OnlyReady w crashes = ⊥

last-map :
    {A B : Type 0} (f : A → B) (xs : List A) (b : B)
    → last (map f xs) ≡ some b
    → (a : A) × (last xs ≡ some a) × (f a ≡ b)
last-map f [] b h = absurd (cc)
last-map f (x ∷ []) b h = (x, refl, cc)
last-map f (x ∷ y ∷ ys) b h = last-map f (y ∷ ys) b h

try_started-passes :
    (started finished : Option ℕ) (ip : String)
    → try_started started finished ip ≡ passes
    → ((start : ℕ) × (started ≡ some start)) × (finished ≡ none) × (str_eq ip "" ≡ false)
try_started-passes none finished ip h = absurd (cc)
try_started-passes (some start) (some finish) ip h = absurd (cc)
try_started-passes (some start) none ip h = elim (Bool-cases (str_eq ip "")) [
  | inl empty ↦ absurd (cc)
  | inr full ↦ ((start, refl), refl, full)
]

-- What the last attempt tells comes from the last answer, which `connect` uses.
try_status-passes :
    (r : Result ContainerStatus)
    → try_status r ≡ passes
    → (status : ContainerStatus) × (r ≡ ok status) × IsRunning status
unfolding try_status
try_status-passes (err e) h = absurd (cc)
try_status-passes (ok status) h =
    let t = try_started-passes status.started_at status.finished_at status.ip_address h in
    (status, refl, record { started = t.0; unfinished = t.1; has_address = t.2 })

OnlyReady-unless :
    {Pair : Type 0} (w : DindWorld Pair) (e : Option Error) (o : Outcome Pair)
    → (e ≡ none → OnlyReady w o.ending)
    → OnlyReady w (unless e o).ending
OnlyReady-unless w none o next = next refl
OnlyReady-unless w (some e) o next = tt

module _ {Pair : Type 0} (w : DindWorld Pair) (image name id : String) where
  module _ (status : ContainerStatus) (answer : last w.statuses ≡ some (ok status))
      (running : IsRunning status) where
    abbrev host : String
    host = append "tcp://" (append status.ip_address ":2376")

    OnlyReady-after_info :
        (tar : Tar) (tls : TlsConfig Pair) (r : Result String)
        → w.read_files ≡ ok tar
        → (tls_config_from_tar w.x509_key_pair tar).result ≡ ok tls
        → OnlyReady w (after_info w image name id host tls r).ending
    OnlyReady-after_info tar tls (err e) read loads = tt
    OnlyReady-after_info tar tls (ok version) read loads = record {
      status = status;
      last_answer = answer;
      is_running = running;
      at_host = refl;
      archive = tar;
      read = read;
      loads = loads;
    }

    OnlyReady-after_tls :
        (tar : Tar) (r : Result (TlsConfig Pair))
        → w.read_files ≡ ok tar
        → (tls_config_from_tar w.x509_key_pair tar).result ≡ r
        → OnlyReady w (after_tls w image name id host r).ending
    OnlyReady-after_tls tar (err e) read loads = tt
    OnlyReady-after_tls tar (ok tls) read loads = OnlyReady-after_info tar tls w.info read loads

    OnlyReady-after_read :
        (r : Result Tar) → w.read_files ≡ r → OnlyReady w (after_read w image name id host r).ending
    unfolding tls_config_from_tar
    OnlyReady-after_read (err e) read = tt
    OnlyReady-after_read (ok tar) read =
        OnlyReady-after_tls tar (tls_config_from_tar w.x509_key_pair tar).result read refl

    OnlyReady-after_client :
        (e : Option Error) → OnlyReady w (after_client w image name id host e).ending
    unfolding tls_config_from_tar
    OnlyReady-after_client (some e) = tt
    OnlyReady-after_client none =
        OnlyReady-unless w (w.retry (map (try_info w.is_connection_failed) w.infos)) _
          (λ x. OnlyReady-after_read w.read_files refl)

  OnlyReady-wait_and_connect :
      IsRetry w.retry → OnlyReady w (wait_and_connect w image name id).ending
  unfolding tls_config_from_tar try_status
  OnlyReady-wait_and_connect is_retry =
      OnlyReady-unless w (w.retry (map try_status w.statuses)) _ (λ passed.
        let (r, last_is_r, r_passes) =
          last-map try_status w.statuses passes (is_retry (map try_status w.statuses) passed) in
        let (status, r_is_status, running) = try_status-passes r r_passes in
        let answer = last_is_r ∙ ap some r_is_status in
        subst (λ t. OnlyReady w (connect w image name id t).ending) (sym answer)
          (OnlyReady-after_client status answer running w.new_client))

-- Where `backoff.Retry` returns nil only after an attempt that told it nil, `SandboxCreate` never uses
-- a nil status; and the container of a sandbox that it returns was started and not finished when last
-- asked, has an address, and gave the archive whose TLS configuration the sandbox has.
pub sandbox_create-OnlyReady :
    {Pair : Type 0} (w : DindWorld Pair) (image name : String)
    → IsRetry w.retry
    → OnlyReady w (sandbox_create w image name).ending
unfolding sandbox_create
sandbox_create-OnlyReady w image name is_retry = pulled w.pull
  where
    created : (r : Result String) → OnlyReady w (with_container w image name r).ending
    created (err e) = tt
    created (ok id) = OnlyReady-wait_and_connect w image name id is_retry

    pulled : (pull : Option Error) → OnlyReady w (after_pull w image name pull).ending
    pulled (some e) = tt
    pulled none = created w.create
