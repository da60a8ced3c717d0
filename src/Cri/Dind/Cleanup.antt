-- ===== src/Cri/Dind/Cleanup.antt =====
-- What becomes of the container of docker-in-docker (`SandboxCreate`, internal/cri/dind.go).
use taskcluster_multistage_d.Common.{
  ◌≡◌, refl, ap, ◌∙◌, Option, none, some, List, [], ◌∷◌, ◌++◌, map, last, String,
}
use taskcluster_multistage_d.Exception.{Error}
use taskcluster_multistage_d.Worker.Calls.{Result, ok, err}
use taskcluster_multistage_d.Cri.{ContainerStatus}
use taskcluster_multistage_d.Cri.Dind.Tls.{Tar, TlsConfig, tls_config_from_tar}
use taskcluster_multistage_d.Cri.Dind.{
  Action, pulls, creates, starts_run, connects, reads_files, closes_files, logs, logs_error,
  removes, DindWorld, Ending, returns, fails, crashes, Outcome, fail, after, unless, clean_up,
  remove_container, try_info, try_status, after_info, after_tls, log_files, after_read,
  after_client, connect, wait_and_connect, with_container, after_pull, sandbox_create,
}

-- The containers that `Remove` is called for, in the order of the calls. Whether a call succeeds is not asked.
abbrev pub removed : List Action → List String
removed [] = []
removed (removes id ∷ actions) = id ∷ removed actions
removed (pulls image ∷ actions) = removed actions
removed (creates spec ∷ actions) = removed actions
removed (starts_run id ∷ actions) = removed actions
removed (connects host ∷ actions) = removed actions
removed (reads_files id path ∷ actions) = removed actions
removed (closes_files ∷ actions) = removed actions
removed (logs text value ∷ actions) = removed actions
removed (logs_error e text ∷ actions) = removed actions

-- The container that the caller gets, and will remove by closing the sandbox.
abbrev pub kept : {Pair : Type 0} → Ending Pair → List String
kept (returns s) = s.container ∷ []
kept (fails e) = []
kept crashes = []

-- The container that is created, if the image is pulled and it can be.
abbrev pub created : Option Error → Result String → List String
created (some e) r = []
created none (err e) = []
created none (ok id) = id ∷ []

pub removed-append : (xs ys : List Action) → removed (xs ++ ys) ≡ removed xs ++ removed ys
removed-append [] ys = refl
removed-append (removes id ∷ xs) ys = ap (λ t. id ∷ t) (removed-append xs ys)
removed-append (pulls image ∷ xs) ys = removed-append xs ys
removed-append (creates spec ∷ xs) ys = removed-append xs ys
removed-append (starts_run id ∷ xs) ys = removed-append xs ys
removed-append (connects host ∷ xs) ys = removed-append xs ys
removed-append (reads_files id path ∷ xs) ys = removed-append xs ys
removed-append (closes_files ∷ xs) ys = removed-append xs ys
removed-append (logs text value ∷ xs) ys = removed-append xs ys
removed-append (logs_error e text ∷ xs) ys = removed-append xs ys

removed-log_files : (files : List String) → removed (log_files files) ≡ []
removed-log_files [] = refl
removed-log_files (file ∷ files) = removed-log_files files

removed-remove_container :
    (remove : Option Error) (id : String) → removed (remove_container remove id) ≡ id ∷ []
removed-remove_container none id = refl
removed-remove_container (some e) id = refl

module _ {Pair : Type 0} where
  -- Nothing is removed on the way, and the sandbox, if there is one, is that of the container `id`.
  record Leaves (id : String) (o : Outcome Pair) : Type 0 where
    quiet : removed o.actions ≡ []
    settled :
        (remove : Option Error) → kept o.ending ++ removed (clean_up remove id o.ending) ≡ id ∷ []

  Leaves-fail : (id : String) (e : Error) → Leaves id (fail e)
  Leaves-fail id e = record { quiet = refl; settled = λ remove. removed-remove_container remove id }

  Leaves-crash : (id : String) → Leaves id (record { actions = []; ending = crashes })
  Leaves-crash id = record { quiet = refl; settled = λ remove. removed-remove_container remove id }

  Leaves-after :
      (id : String) (actions : List Action) (o : Outcome Pair)
      → removed actions ≡ []
      → Leaves id o
      → Leaves id (after actions o)
  Leaves-after id actions o none_removed l = record {
    quiet =
        removed-append actions o.actions ∙ ap (λ t. t ++ removed o.actions) none_removed ∙ l.quiet;
    settled = l.settled;
  }

  Leaves-unless :
      (id : String) (e : Option Error) (o : Outcome Pair) → Leaves id o → Leaves id (unless e o)
  Leaves-unless id none o l = l
  Leaves-unless id (some e) o l = Leaves-fail id e

  module _ (w : DindWorld Pair) (image : String) (name : String) (id : String) where
    Leaves-after_info :
        (host : String) (tls : TlsConfig Pair) (r : Result String)
        → Leaves id (after_info w image name id host tls r)
    Leaves-after_info host tls (err e) = Leaves-fail id _
    Leaves-after_info host tls (ok version) = record { quiet = refl; settled = λ remove. refl }

    Leaves-after_tls :
        (host : String) (r : Result (TlsConfig Pair)) → Leaves id (after_tls w image name id host r)
    Leaves-after_tls host (err e) = Leaves-fail id _
    Leaves-after_tls host (ok tls) = Leaves-after_info host tls w.info

    Leaves-after_read :
        (host : String) (r : Result Tar) → Leaves id (after_read w image name id host r)
    unfolding tls_config_from_tar
    Leaves-after_read host (err e) = Leaves-fail id _
    Leaves-after_read host (ok tar) =
        let loaded = tls_config_from_tar w.x509_key_pair tar in
        Leaves-after id (log_files loaded.log ++ closes_files ∷ []) _
          (removed-append (log_files loaded.log) (closes_files ∷ [])
            ∙ ap (λ t. t ++ []) (removed-log_files loaded.log))
          (Leaves-after_tls host loaded.result)

    Leaves-after_client :
        (host : String) (e : Option Error) → Leaves id (after_client w image name id host e)
    unfolding tls_config_from_tar
    Leaves-after_client host (some e) = Leaves-fail id _
    Leaves-after_client host none =
        Leaves-unless id (w.retry (map (try_info w.is_connection_failed) w.infos)) _ (
          Leaves-after id (reads_files id "/certs/client" ∷ []) _ refl
            (Leaves-after_read host w.read_files))

    Leaves-connect :
        (status : Option (Result ContainerStatus)) → Leaves id (connect w image name id status)
    unfolding tls_config_from_tar
    Leaves-connect none = Leaves-crash id
    Leaves-connect (some (err e)) = Leaves-crash id
    Leaves-connect (some (ok status)) =
        Leaves-after id (connects _ ∷ []) _ refl (Leaves-after_client _ w.new_client)

    Leaves-wait_and_connect : Leaves id (wait_and_connect w image name id)
    unfolding tls_config_from_tar try_status
    Leaves-wait_and_connect =
        Leaves-unless id (w.retry (map try_status w.statuses)) _ (Leaves-connect (last w.statuses))

    Leaves-with_container :
        kept (with_container w image name (ok id)).ending
          ++ removed (with_container w image name (ok id)).actions
        ≡ id ∷ []
    unfolding tls_config_from_tar try_status
    Leaves-with_container =
        let o = wait_and_connect w image name id in
        let l = Leaves-wait_and_connect in
        ap (λ t. kept o.ending ++ t)
          (removed-append o.actions (clean_up w.remove id o.ending)
            ∙ ap (λ t. t ++ removed (clean_up w.remove id o.ending)) l.quiet)
        ∙ l.settled w.remove

-- Of the container that `SandboxCreate` creates, whatever fails afterwards, exactly one of two things
-- holds: it is that of the sandbox returned, and `Remove` has not been called, or there is no sandbox, and
-- `Remove` has been called for it, once, which may itself fail; it is called for nothing else.
pub sandbox_create-removed :
    {Pair : Type 0} (w : DindWorld Pair) (image name : String)
    → kept (sandbox_create w image name).ending ++ removed (sandbox_create w image name).actions
      ≡ created w.pull w.create
unfolding sandbox_create
sandbox_create-removed w image name = settled w.pull
  where
    after_creates :
        (r : Result String)
        → kept (with_container w image name r).ending
            ++ removed (with_container w image name r).actions
          ≡ created none r
    after_creates (err e) = refl
    after_creates (ok id) = Leaves-with_container w image name id

    settled :
        (pull : Option Error)
        → kept (after_pull w image name pull).ending
            ++ removed (after_pull w image name pull).actions
          ≡ created pull w.create
    settled (some e) = refl
    settled none = after_creates w.create
