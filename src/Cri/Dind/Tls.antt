-- ===== src/Cri/Dind/Tls.antt =====
-- internal/cri/dind.go: `tlsConfigFromTar`, which reads a TLS configuration from a tar archive. How
-- `X509KeyPair` parses a certificate and its key is a parameter, and so is the type of its results.
pub mod Contents
pub mod Files
pub mod Pairs
use taskcluster_multistage_d.Common.{
  ◌≡◌, refl, ap, ◌∙◌, Bool, true, false, ℕ, Option, none, some, List, [], ◌∷◌, ◌++◌, append_assoc,
  append-nil, String, str_eq, if◌then◌else◌, Bool-cases, inl, inr,
}
use taskcluster_multistage_d.Exception.{Error}
use taskcluster_multistage_d.Worker.Calls.{Result, ok, err}

-- An entry of the archive. Reading its content may fail.
pub record TarEntry : Type 0 where
  pub name : String
  pub is_dir : Bool
  pub content : Result (List ℕ)

-- The entries that the reader yields, and the error at the end, `none` for `io.EOF`.
pub record Tar : Type 0 where
  pub entries : List TarEntry
  pub ends : Option Error

-- The texts given to the pool of certificate authorities after the system's, and the key pairs.
pub record TlsConfig (Pair : Type 0) : Type 0 where
  pub root_cas : List (List ℕ)
  pub certificates : List Pair

-- The variables of the loop, and the names logged as unexpected.
pub record Loading (Pair : Type 0) : Type 0 where
  pub cert : Option (List ℕ)
  pub key : Option (List ℕ)
  pub config : TlsConfig Pair
  pub log : List String

-- The result, with what has been logged.
pub record Loaded (Pair : Type 0) : Type 0 where
  pub log : List String
  pub result : Result (TlsConfig Pair)

module _ {Pair : Type 0} (x509_key_pair : List ℕ → List ℕ → Result Pair) where
  -- The `switch` on the name.
  abbrev pub store_file : String → List ℕ → Loading Pair → Loading Pair
  store_file name content l =
      if str_eq name "client/cert.pem"
      then record l { cert = some content }
      else if str_eq name "client/key.pem"
      then record l { key = some content }
      else if str_eq name "client/ca.pem"
      then record l { config = record (l.config) { root_cas = l.config.root_cas ++ content ∷ [] } }
      else if str_eq name "client/openssl.cnf"
      then l
      else if str_eq name "client/csr.pem"
      then l
      else record l { log = l.log ++ name ∷ [] }

  abbrev pub add_pair : Loading Pair → Result Pair → Result (Loading Pair)
  add_pair l (err e) = err e
  add_pair l (ok pair) = ok (record {
    cert = none;
    key = none;
    config = record (l.config) { certificates = l.config.certificates ++ pair ∷ [] };
    log = l.log;
  })

  -- `if cert != nil && key != nil`.
  abbrev pub pair_up : Option (List ℕ) → Option (List ℕ) → Loading Pair → Result (Loading Pair)
  pair_up (some cert) (some key) l = add_pair l (x509_key_pair cert key)
  pair_up none key l = ok l
  pair_up (some cert) none l = ok l

  -- The rest of the archive, unless the round has failed; the log stays.
  abbrev pub go_on :
      (Loading Pair → Loaded Pair) → List String → Result (Loading Pair) → Loaded Pair
  go_on next log (err e) = record { log = log; result = err e }
  go_on next log (ok l) = next l

  abbrev pub load_file :
      (Loading Pair → Loaded Pair) → Loading Pair → String → Result (List ℕ) → Loaded Pair
  load_file next l name (err e) = record { log = l.log; result = err e }
  load_file next l name (ok content) =
      let stored = store_file name content l in
      go_on next stored.log (pair_up stored.cert stored.key stored)

  abbrev pub at_end : Option Error → Loading Pair → Loaded Pair
  at_end none l = record { log = l.log; result = ok l.config }
  at_end (some e) l = record { log = l.log; result = err e }

  -- The loop.
  unfoldable pub load_entries : List TarEntry → Option Error → Loading Pair → Loaded Pair
  load_entries [] ends l = at_end ends l
  load_entries (f ∷ fs) ends l =
      let next = load_entries fs ends l in
      let load = load_file (load_entries fs ends) l f.name f.content in
      if f.is_dir then next else load

  unfoldable pub tls_config_from_tar : Tar → Loaded Pair
  unfolding load_entries
  tls_config_from_tar tar = load_entries tar.entries tar.ends (record {
    cert = none;
    key = none;
    config = record { root_cas = []; certificates = [] };
    log = [];
  })
