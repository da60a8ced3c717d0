-- ===== src/Worker/Artifact.antt =====
-- internal/worker/artifact.go, and `uploadArtifactImpl` and `uploadArtifact` of
-- internal/worker/run.go. The queue, HTTP, JSON and the tar reader answer through
-- worlds. The encoding of a request as JSON is taken to succeed, and the content type of the PUT
-- request is left out.
pub mod Outcome
use Prim.Native.String.{◌++◌ as append}
use taskcluster_multistage_d.Common.{
  ℕ, Bool, true, false, not, Option, none, some, List, [], ◌∷◌, String, ◌==◌, ltb, if◌then◌else◌,
  str_eq, decimal, is_abs, join_rooted,
}
use taskcluster_multistage_d.Exception.{Error, plain}
use taskcluster_multistage_d.Payload.{Artifact, file_artifact}
use taskcluster_multistage_d.Worker.Calls.{
  ArtifactRequest, creates_artifact, puts_artifact, reads_files, closes_files, Result, ok, err, Run,
  pure, fail, call, finally, then_run, ◌>>=◌, ◌>>◌, check,
}
use taskcluster_multistage_d.Worker.Step.{wait_deps}

pub record S3Response : Type 0 where
  pub put_url : String
  pub content_type : String

-- The response to a PUT; `body_text` is what `ioutil.ReadAll` gives of its body.
pub record PutResponse : Type 0 where
  pub status : ℕ
  pub body_text : String

-- The queue's answer to a request for an artifact; the response of storage type s3 that its JSON
-- holds; whether a PUT request to a URL can be made; and the response or the error of that PUT, of a content
-- length and a body.
pub record QueueWorld : Type 0 where
  pub create_artifact : String → ArtifactRequest → Result String
  pub decode_s3 : String → Result S3Response
  pub new_put : String → Option Error
  pub put : String → ℕ → Option (List ℕ) → Result PutResponse

unfoldable pub create_redirect_artifact : QueueWorld → String → String → String → ℕ → Run (Unit {0})
create_redirect_artifact q name url content_type expires =
    let request : ArtifactRequest = record {
      storage_type = "reference";
      content_type = content_type;
      expires = expires;
      target = url;
    } in
    call (creates_artifact name request) (q.create_artifact name request) >>= λ _. pure tt

unfoldable pub create_link_artifact : QueueWorld → String → String → String → ℕ → Run (Unit {0})
create_link_artifact q name content_type target expires =
    let request : ArtifactRequest = record {
      storage_type = "link";
      content_type = content_type;
      expires = expires;
      target = target;
    } in
    call (creates_artifact name request) (q.create_artifact name request) >>= λ _. pure tt

abbrev pub bad_status : PutResponse → Error
bad_status response = plain (
    append "unexpected status code creating artifact: "
      (append (decimal response.status) (append ": " response.body_text)))

abbrev pub check_status : PutResponse → Result (Unit {0})
check_status response = if ltb response.status 300 then ok tt else err (bad_status response)

-- `createS3Artifact`; the reader gives `contents`, and `content_len` is the size that it is said to have.
unfoldable pub create_s3_artifact :
    QueueWorld → String → String → ℕ → ℕ → Option (List ℕ) → Run (Unit {0})
create_s3_artifact q name content_type expires content_len contents = do
  let request =
      let r : ArtifactRequest = record {
        storage_type = "s3";
        content_type = content_type;
        expires = expires;
        target = "";
      } in
      r
  body ← call (creates_artifact name request) (q.create_artifact name request)
  resp ← record { calls = []; result = q.decode_s3 body }
  record { calls = []; result = check (q.new_put resp.put_url) }
  response ←
      call (puts_artifact resp.put_url content_len contents)
        (q.put resp.put_url content_len contents)
  record { calls = []; result = check_status response }

pub record FileInfo : Type 0 where
  pub is_dir : Bool
  pub size : ℕ

-- What the container's archive of a path gives: its file info or an error, the size in the first
-- tar header or an error, the bytes of that file, and whether the next call of `Next` gives `io.EOF`.
pub record FileWorld : Type 0 where
  pub read_files : String → Result FileInfo
  pub first_header : String → Result ℕ
  pub contents : String → Option (List ℕ)
  pub ends : String → Bool
  pub queue : QueueWorld

abbrev pub expect : Bool → String → Run (Unit {0})
expect true text = pure tt
expect false text = fail (plain text)

unfoldable pub source_path : Artifact → String
unfolding is_abs join_rooted
source_path a = if is_abs a.path then a.path else join_rooted ("workspace" ∷ []) a.path

-- What is done with the open archive.
unfoldable pub upload_open : FileWorld → String → ℕ → Artifact → String → FileInfo → Run (Unit {0})
unfolding create_s3_artifact
upload_open w root expires a src info = do
  expect (not info.is_dir) "directory artifacts are not supported"
  header ← record { calls = []; result = w.first_header src }
  expect (header == info.size) "file is wrong size"
  create_s3_artifact w.queue a.name a.content_type expires info.size (w.contents src)
  expect (w.ends src) "unexpected tar files"

unfoldable pub upload_artifact_impl : FileWorld → String → ℕ → Artifact → Run (Unit {0})
unfolding source_path upload_open
upload_artifact_impl w root expires a = do
  expect (str_eq a.artifact_type file_artifact) "only file artifacts are supported"
  let src = source_path a
  info ← call (reads_files root src) (w.read_files src)
  finally (upload_open w root expires a src info) closes_files

-- The result is the value sent to `ch`.
unfoldable pub upload_artifact :
    FileWorld → String → ℕ → Artifact → List (Option Error) → Run (Unit {0})
unfolding upload_artifact_impl
upload_artifact w root expires a deps = do wait_deps deps; upload_artifact_impl w root expires a
