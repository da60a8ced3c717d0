-- ===== src/Cri/Dind/Tls/Pairs.antt =====
-- The loop of `tlsConfigFromTar` (internal/cri/dind.go) and what the archive describes.
use taskcluster_multistage_d.Common.{
  ◌≡◌, refl, Bool, true, false, ℕ, none, some, List, [], ◌∷◌, append-nil, String, str_eq,
  if◌then◌else◌,
}
use taskcluster_multistage_d.Worker.Calls.{Result, ok, err}
use taskcluster_multistage_d.Cri.Dind.Tls.{
  TarEntry, load_file, at_end, load_entries, tls_config_from_tar,
}
use taskcluster_multistage_d.Cri.Dind.Tls.Contents.{
  cert_file, key_file, ca_file, add_content, contents, IsReadable, AllReadable, AtMostOne, grow,
  pairs_of,
}
use taskcluster_multistage_d.Cri.Dind.Tls.Files.{Expects, Expects-file}

module _ {Pair : Type 0} (x509_key_pair : List ℕ → List ℕ → Result Pair) where
  Expects-load_entries :
      (fs : List TarEntry)
      → AllReadable fs
      → Expects x509_key_pair
          (load_entries x509_key_pair fs none)
          (contents cert_file fs)
          (contents key_file fs)
          (contents ca_file fs)
  unfolding load_entries
  Expects-load_entries [] readable = at_eof
    where
      at_eof : Expects x509_key_pair (at_end x509_key_pair none) [] [] []
      at_eof none none config log w a b =
          rw (append-nil config.root_cas) (rw (append-nil config.certificates) refl)
      at_eof none (some k) config log w a b =
          rw (append-nil config.root_cas) (rw (append-nil config.certificates) refl)
      at_eof (some c) none config log w a b =
          rw (append-nil config.root_cas) (rw (append-nil config.certificates) refl)
      at_eof (some c) (some k) config log w a b = absurd w
  Expects-load_entries (f ∷ fs) readable =
      entry f.is_dir f.name f.content readable.0 (Expects-load_entries fs readable.1)
    where
      entry :
          (is_dir : Bool) (name : String) (content : Result (List ℕ))
          → IsReadable is_dir content
          → Expects x509_key_pair
              (load_entries x509_key_pair fs none)
              (contents cert_file fs)
              (contents key_file fs)
              (contents ca_file fs)
          → Expects x509_key_pair
              (λ l.
                if is_dir
                then load_entries x509_key_pair fs none l
                else load_file x509_key_pair (load_entries x509_key_pair fs none) l name content)
              (add_content is_dir (str_eq name cert_file) content (contents cert_file fs))
              (add_content is_dir (str_eq name key_file) content (contents key_file fs))
              (add_content is_dir (str_eq name ca_file) content (contents ca_file fs))
      entry true name content r rest = rest
      entry false name (err e) r rest = absurd r
      entry false name (ok content) r rest =
          Expects-file x509_key_pair (load_entries x509_key_pair fs none) (contents cert_file fs)
            (contents key_file fs) (contents ca_file fs) rest content name

-- Of an archive whose regular files can all be read and which has at most one certificate and at most
-- one key, in whatever order they and other files come, the configuration has the one pair that they
-- make if there are both, and no pair otherwise, and every text of certificate authorities, in order;
-- where `X509KeyPair` refuses the pair, its error is returned.
pub tls_config_from_tar-pairs :
    {Pair : Type 0} (x509_key_pair : List ℕ → List ℕ → Result Pair) (fs : List TarEntry)
    → AllReadable fs
    → AtMostOne (contents cert_file fs)
    → AtMostOne (contents key_file fs)
    → (tls_config_from_tar x509_key_pair (record { entries = fs; ends = none })).result
      ≡ grow
          (record { root_cas = []; certificates = [] })
          (contents ca_file fs)
          (pairs_of x509_key_pair (contents cert_file fs) (contents key_file fs))
unfolding tls_config_from_tar
tls_config_from_tar-pairs x509_key_pair fs readable a b =
    Expects-load_entries x509_key_pair fs readable none none
      (record { root_cas = []; certificates = [] }) [] tt a b
