-- ===== src/Cri/Dind/Tls/Files.antt =====
-- What a file of the archive does to the certificates, keys and authorities to come
-- (`tlsConfigFromTar`, internal/cri/dind.go).
use taskcluster_multistage_d.Common.{
  ◌≡◌, refl, sym, subst, ap, ◌∙◌, Bool, true, false, ℕ, Option, none, some, List, [], ◌∷◌, ◌++◌,
  append_assoc, append-nil, String, str_eq, str_eq_iff, Bool-cases, inl, inr,
}
use taskcluster_multistage_d.Worker.Calls.{Result, ok, err}
use taskcluster_multistage_d.Cri.Dind.Tls.{
  TlsConfig, Loading, Loaded, add_pair, pair_up, go_on, load_file,
}
use taskcluster_multistage_d.Cri.Dind.Tls.Contents.{
  cert_file, key_file, ca_file, add_content, AtMostOne, to_list, Waits, one_pair, grow, pairs_of,
}

module _ {Pair : Type 0} (x509_key_pair : List ℕ → List ℕ → Result Pair) where
  -- What the rest of the loop makes of the certificates, keys and authorities still to come.
  abbrev pub Expects :
      (Loading Pair → Loaded Pair) → List (List ℕ) → List (List ℕ) → List (List ℕ) → Type 0
  Expects next certs keys cas =
      (cert key : Option (List ℕ)) (config : TlsConfig Pair) (log : List String)
      → Waits cert key
      → AtMostOne (to_list cert ++ certs)
      → AtMostOne (to_list key ++ keys)
      → (next (record { cert = cert; key = key; config = config; log = log })).result
        ≡ grow config cas (pairs_of x509_key_pair (to_list cert ++ certs) (to_list key ++ keys))

  module _ (next : Loading Pair → Loaded Pair) where
    -- A pair is complete: nothing more of the two kinds is to come.
    Expects-add_pair :
        (cas : List (List ℕ)) (l : Loading Pair) (log : List String) (r : Result Pair)
        → Expects next [] [] cas
        → (go_on x509_key_pair next log (add_pair x509_key_pair l r)).result
          ≡ grow l.config cas (one_pair r)
    Expects-add_pair cas l log (err e) rest = refl
    Expects-add_pair cas l log (ok pair) rest =
        rest none none _ l.log tt tt tt
        ∙ ap (λ t. ok (record { root_cas = l.config.root_cas ++ cas; certificates = t }))
            (append-nil (l.config.certificates ++ pair ∷ []))

    Expects-pair :
        (certs keys cas : List (List ℕ)) (cert key : List ℕ) (l : Loading Pair) (log : List String)
        → Expects next certs keys cas
        → AtMostOne (cert ∷ certs)
        → AtMostOne (key ∷ keys)
        → (go_on x509_key_pair next log (add_pair x509_key_pair l (x509_key_pair cert key))).result
          ≡ grow l.config cas (pairs_of x509_key_pair (cert ∷ certs) (key ∷ keys))
    Expects-pair [] [] cas cert key l log rest a b =
        Expects-add_pair cas l log (x509_key_pair cert key) rest
    Expects-pair (c ∷ certs) keys cas cert key l log rest a b = absurd a
    Expects-pair [] (k ∷ keys) cas cert key l log rest a b = absurd b

    -- A file of another name leaves the certificate and the key as they are.
    go_on-pair_up :
        (cert key : Option (List ℕ)) (l : Loading Pair) (log : List String)
        → Waits cert key
        → go_on x509_key_pair next log (pair_up x509_key_pair cert key l) ≡ next l
    go_on-pair_up none key l log w = refl
    go_on-pair_up (some cert) none l log w = refl
    go_on-pair_up (some cert) (some key) l log w = absurd w

    module _ (certs keys cas : List (List ℕ)) (rest : Expects next certs keys cas)
        (content : List ℕ) where
      Expects-cert :
          Expects
            (λ l. load_file x509_key_pair next l cert_file (ok content))
            (content ∷ certs)
            keys
            cas
      Expects-cert none none config log w a b = rest (some content) none config log tt a b
      Expects-cert none (some k) config log w a b =
          Expects-pair certs keys cas content k
            (record { cert = none; key = none; config = config; log = log }) log rest a b
      Expects-cert (some c) key config log w a b = absurd a

      Expects-key :
          Expects
            (λ l. load_file x509_key_pair next l key_file (ok content))
            certs
            (content ∷ keys)
            cas
      Expects-key none none config log w a b = rest none (some content) config log tt a b
      Expects-key (some c) none config log w a b =
          Expects-pair certs keys cas c content
            (record { cert = none; key = none; config = config; log = log }) log rest a b
      Expects-key cert (some k) config log w a b = absurd b

      grow-ca :
          (config : TlsConfig Pair) (pairs : Result (List Pair))
          → grow (record config { root_cas = config.root_cas ++ content ∷ [] }) cas pairs
            ≡ grow config (content ∷ cas) pairs
      grow-ca config (err e) = refl
      grow-ca config (ok pairs) =
          ap (λ t. ok (record { root_cas = t; certificates = config.certificates ++ pairs }))
            (append_assoc config.root_cas (content ∷ []) cas)

      Expects-ca :
          Expects
            (λ l. load_file x509_key_pair next l ca_file (ok content))
            certs
            keys
            (content ∷ cas)
      Expects-ca cert key config log w a b =
          ap (λ o. o.result) (go_on-pair_up cert key _ log w)
          ∙ rest cert key _ log w a b
          ∙ grow-ca config (pairs_of x509_key_pair (to_list cert ++ certs) (to_list key ++ keys))

      Expects-other :
          (name : String)
          → str_eq name cert_file ≡ false
          → str_eq name key_file ≡ false
          → str_eq name ca_file ≡ false
          → Expects (λ l. load_file x509_key_pair next l name (ok content)) certs keys cas
      Expects-other name not_cert not_key not_ca cert key config log w a b = rw not_cert (
          rw not_key (
            rw not_ca (elim (Bool-cases (str_eq name "client/openssl.cnf")) [
              | inl e ↦ rw e (same log)
              | inr n ↦ rw n (elim (Bool-cases (str_eq name "client/csr.pem")) [
                | inl e ↦ rw e (same log)
                | inr m ↦ rw m (same (log ++ name ∷ []))
              ])
            ])))
        where
          same :
              (log' : List String)
              → (go_on x509_key_pair next log' (
                  pair_up x509_key_pair cert key
                    (record { cert = cert; key = key; config = config; log = log' }))).result
                ≡ grow config cas
                    (pairs_of x509_key_pair (to_list cert ++ certs) (to_list key ++ keys))
          same log' =
              ap (λ o. o.result) (go_on-pair_up cert key _ log' w) ∙ rest cert key config log' w a b

      -- A regular file.
      abbrev pub reads : String → Loading Pair → Loaded Pair
      reads name l = load_file x509_key_pair next l name (ok content)

      abbrev pub with_name : String → String → List (List ℕ) → List (List ℕ)
      with_name name wanted xs = add_content false (str_eq name wanted) (ok content) xs

      abbrev pub At : String → Type 0
      At name =
          Expects (reads name) (with_name name cert_file certs) (with_name name key_file keys)
            (with_name name ca_file cas)

      Expects-none :
          (is_cert is_key is_ca : Bool) (r : Loading Pair → Loaded Pair)
          → is_cert ≡ false
          → is_key ≡ false
          → is_ca ≡ false
          → Expects r certs keys cas
          → Expects r
              (add_content false is_cert (ok content) certs)
              (add_content false is_key (ok content) keys)
              (add_content false is_ca (ok content) cas)
      Expects-none true is_key is_ca r h k a e = absurd (cc)
      Expects-none false true is_ca r h k a e = absurd (cc)
      Expects-none false false true r h k a e = absurd (cc)
      Expects-none false false false r h k a e = e

      pub Expects-file : (name : String) → At name
      Expects-file name = elim (Bool-cases (str_eq name cert_file)) [
        | inl e ↦ subst At (sym (str_eq_iff name cert_file e)) Expects-cert
        | inr not_cert ↦ elim (Bool-cases (str_eq name key_file)) [
          | inl e ↦ subst At (sym (str_eq_iff name key_file e)) Expects-key
          | inr not_key ↦ elim (Bool-cases (str_eq name ca_file)) [
            | inl e ↦ subst At (sym (str_eq_iff name ca_file e)) Expects-ca
            | inr not_ca ↦
                Expects-none _ _ _ (reads name) not_cert not_key not_ca
                  (Expects-other name not_cert not_key not_ca)
          ]
        ]
      ]
