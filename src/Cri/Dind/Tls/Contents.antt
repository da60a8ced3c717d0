-- ===== src/Cri/Dind/Tls/Contents.antt =====
-- What an archive holds, and what configuration it describes, without the loop that reads it
-- (`tlsConfigFromTar`, internal/cri/dind.go).
use taskcluster_multistage_d.Common.{
  Bool, true, false, ℕ, Option, none, some, List, [], ◌∷◌, ◌++◌, String, str_eq,
}
use taskcluster_multistage_d.Worker.Calls.{Result, ok, err}
use taskcluster_multistage_d.Cri.Dind.Tls.{TarEntry, TlsConfig}

abbrev pub cert_file : String
cert_file = "client/cert.pem"

abbrev pub key_file : String
key_file = "client/key.pem"

abbrev pub ca_file : String
ca_file = "client/ca.pem"

-- The contents of the regular files of a name, in their order.
abbrev pub add_content : Bool → Bool → Result (List ℕ) → List (List ℕ) → List (List ℕ)
add_content true same content rest = rest
add_content false false content rest = rest
add_content false true (err e) rest = rest
add_content false true (ok content) rest = content ∷ rest

abbrev pub contents : String → List TarEntry → List (List ℕ)
contents name [] = []
contents name (f ∷ fs) = add_content f.is_dir (str_eq f.name name) f.content (contents name fs)

abbrev pub IsReadable : Bool → Result (List ℕ) → Type 0
IsReadable true content = Unit {0}
IsReadable false (ok content) = Unit {0}
IsReadable false (err e) = ⊥

abbrev pub AllReadable : List TarEntry → Type 0
AllReadable [] = Unit {0}
AllReadable (f ∷ fs) = IsReadable f.is_dir f.content × AllReadable fs

abbrev pub AtMostOne : List (List ℕ) → Type 0
AtMostOne [] = Unit {0}
AtMostOne (x ∷ []) = Unit {0}
AtMostOne (x ∷ y ∷ ys) = ⊥

abbrev pub to_list : Option (List ℕ) → List (List ℕ)
to_list none = []
to_list (some x) = x ∷ []

abbrev pub Waits : Option (List ℕ) → Option (List ℕ) → Type 0
Waits (some cert) (some key) = ⊥
Waits none key = Unit {0}
Waits (some cert) none = Unit {0}

module _ {Pair : Type 0} where
  abbrev pub one_pair : Result Pair → Result (List Pair)
  one_pair (ok pair) = ok (pair ∷ [])
  one_pair (err e) = err e

  -- A configuration that has grown by certificate authorities and pairs.
  abbrev pub grow : TlsConfig Pair → List (List ℕ) → Result (List Pair) → Result (TlsConfig Pair)
  grow config cas (err e) = err e
  grow config cas (ok pairs) =
      ok (record { root_cas = config.root_cas ++ cas; certificates = config.certificates ++ pairs })

module _ {Pair : Type 0} (x509_key_pair : List ℕ → List ℕ → Result Pair) where
  -- The pair of the one certificate and the one key, if there are both.
  abbrev pub pairs_of : List (List ℕ) → List (List ℕ) → Result (List Pair)
  pairs_of (cert ∷ []) (key ∷ []) = one_pair (x509_key_pair cert key)
  pairs_of [] keys = ok []
  pairs_of (cert ∷ certs) [] = ok []
  pairs_of (cert ∷ a ∷ certs) (key ∷ keys) = ok []
  pairs_of (cert ∷ []) (key ∷ a ∷ keys) = ok []
