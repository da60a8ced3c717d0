-- ===== src/Worker/Artifact/Outcome.antt =====
-- What `uploadArtifactImpl` of internal/worker/run.go and `createS3Artifact` of
-- internal/worker/artifact.go have done when they succeed.
use taskcluster_multistage_d.Common.{
  ℕ, Option, ◌≡◌, ◌<◌, refl, ap, ◌∙◌, Bool, true, false, not, List, [], String, ◌==◌, arith, str_eq,
  ==_iff, tests,
}
use taskcluster_multistage_d.Payload.{Artifact, file_artifact}
use taskcluster_multistage_d.Worker.Calls.{
  ArtifactRequest, creates_artifact, puts_artifact, reads_files, closes_files, ok, Run, call,
  finally, check,
}
use taskcluster_multistage_d.Worker.Step.Env.{bind-ok}
use taskcluster_multistage_d.Worker.Artifact.{
  QueueWorld, S3Response, PutResponse, create_s3_artifact, check_status, FileInfo, FileWorld,
  expect, source_path, upload_open, upload_artifact_impl,
}

abbrev pub s3_request : Artifact → ℕ → ArtifactRequest
s3_request a expires = record {
  storage_type = "s3";
  content_type = a.content_type;
  expires = expires;
  target = "";
}

-- What a successful upload has found and done.
pub record IsUploaded (w : FileWorld) (root : String) (expires : ℕ) (a : Artifact) : Type 0 where
  info : FileInfo
  body : String
  response : S3Response
  answer : PutResponse
  is_file : str_eq a.artifact_type file_artifact ≡ true
  found : w.read_files (source_path a) ≡ ok info
  no_dir : info.is_dir ≡ false
  same_size : w.first_header (source_path a) ≡ ok info.size
  created : w.queue.create_artifact a.name (s3_request a expires) ≡ ok body
  decoded : w.queue.decode_s3 body ≡ ok response
  sent : w.queue.put response.put_url info.size (w.contents (source_path a)) ≡ ok answer
  accepted : answer.status < 300
  one_file : w.ends (source_path a) ≡ true

expect-ok : (b : Bool) (text : String) → (expect b text).result ≡ ok tt → b ≡ true
expect-ok true text h = refl
expect-ok false text h = cc

check_status-ok : (answer : PutResponse) → check_status answer ≡ ok tt → answer.status < 300
check_status-ok answer h = grind tests

-- What a successful upload to the queue's storage has done.
record IsStored (q : QueueWorld) (a : Artifact) (expires content_len : ℕ)
    (contents : Option (List ℕ)) : Type 0 where
  body : String
  response : S3Response
  answer : PutResponse
  created : q.create_artifact a.name (s3_request a expires) ≡ ok body
  decoded : q.decode_s3 body ≡ ok response
  sent : q.put response.put_url content_len contents ≡ ok answer
  accepted : answer.status < 300

create_s3_artifact-IsStored :
    (q : QueueWorld) (a : Artifact) (expires content_len : ℕ) (contents : Option (List ℕ))
    → (create_s3_artifact q a.name a.content_type expires content_len contents).result ≡ ok tt
    → IsStored q a expires content_len contents
unfolding create_s3_artifact
create_s3_artifact-IsStored q a expires content_len contents h =
    let (body, created, h₁) =
      bind-ok
        (call (creates_artifact a.name (s3_request a expires))
          (q.create_artifact a.name (s3_request a expires)))
        _ tt h in
    let (response, decoded, h₂) =
      bind-ok (record { calls = []; result = q.decode_s3 body }) _ tt h₁ in
    let (_, made, h₃) =
      bind-ok (record { calls = []; result = check (q.new_put response.put_url) }) _ tt h₂ in
    let (answer, sent, h₄) =
      bind-ok
        (call (puts_artifact response.put_url content_len contents)
          (q.put response.put_url content_len contents))
        _ tt h₃ in
    record {
      body = body;
      response = response;
      answer = answer;
      created = created;
      decoded = decoded;
      sent = sent;
      accepted = check_status-ok answer h₄;
    }

abbrev stores : FileWorld → ℕ → Artifact → String → FileInfo → Run (Unit {0})
stores w expires a src info =
    create_s3_artifact w.queue a.name a.content_type expires info.size (w.contents src)

upload_open-ok :
    (w : FileWorld) (root : String) (expires : ℕ) (a : Artifact) (src : String) (info : FileInfo)
    → (upload_open w root expires a src info).result ≡ ok tt
    → (info.is_dir ≡ false)
      × (w.first_header src ≡ ok info.size)
      × ((stores w expires a src info).result ≡ ok tt)
      × (w.ends src ≡ true)
unfolding upload_open
upload_open-ok w root expires a src info h =
    let (_, file, h₁) =
      bind-ok (expect (not info.is_dir) "directory artifacts are not supported") _ tt h in
    let (header, read, h₂) = bind-ok (record { calls = []; result = w.first_header src }) _ tt h₁ in
    let (_, size, h₃) = bind-ok (expect (header == info.size) "file is wrong size") _ tt h₂ in
    let (_, stored, h₄) = bind-ok (stores w expires a src info) _ tt h₃ in
    (
      not_dir info.is_dir (expect-ok (not info.is_dir) _ file),
      read ∙ ap ok ((==_iff header info.size).0 (expect-ok (header == info.size) _ size)),
      stored,
      expect-ok (w.ends src) _ h₄,
    )
  where
    not_dir : (b : Bool) → not b ≡ true → b ≡ false
    not_dir b h = ground arith

-- An artifact is uploaded successfully only if its type is "file", the container's archive of its
-- path holds one file, that is no directory and has the size in its header, the queue answered the
-- request for it, with that content type and expiry, by a URL, and a PUT of its bytes there, with that
-- size as content length, was answered by a status below 300.
pub upload_artifact_impl-ok :
    (w : FileWorld) (root : String) (expires : ℕ) (a : Artifact)
    → (upload_artifact_impl w root expires a).result ≡ ok tt
    → IsUploaded w root expires a
unfolding upload_artifact_impl
upload_artifact_impl-ok w root expires a h =
    let src = source_path a in
    let (_, is_file, h₁) =
      bind-ok (expect (str_eq a.artifact_type file_artifact) "only file artifacts are supported") _
        tt h in
    let (info, found, h₂) =
      bind-ok (call (reads_files root src) (w.read_files src))
        (λ info. finally (upload_open w root expires a src info) closes_files) tt h₁ in
    let (no_dir, same_size, stored, one_file) = upload_open-ok w root expires a src info h₂ in
    let s = create_s3_artifact-IsStored w.queue a expires info.size (w.contents src) stored in
    record {
      info = info;
      body = s.body;
      response = s.response;
      answer = s.answer;
      is_file = expect-ok (str_eq a.artifact_type file_artifact) _ is_file;
      found = found;
      no_dir = no_dir;
      same_size = same_size;
      created = s.created;
      decoded = s.decoded;
      sent = s.sent;
      accepted = s.accepted;
      one_file = one_file;
    }
