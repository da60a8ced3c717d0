-- ===== src/Cri/Docker/Pull/Progress.antt =====
-- When a pull succeeds, and what it logs (`Docker.ImagePull`, internal/cri/docker.go).
use taskcluster_multistage_d.Common.{
  ◌≡◌, refl, ap, ◌∙◌, ◌↔◌, ℕ, Option, none, some, List, String, read_lines,
  read_lines-with_newlines, with_newlines, AllFit,
}
use taskcluster_multistage_d.Exception.{Error}
use taskcluster_multistage_d.Worker.Calls.{Result, ok, err}
use taskcluster_multistage_d.Cri.Docker.Pull.{
  PullWorld, Response, encode_auth, log_lines, or_close, after_pull, after_encode, after_auth,
  after_parse, image_pull,
}

module _ {Auth : Type 0} (w : PullWorld Auth) where
  -- Each call is answered without an error, up to the response `r` to the pull itself.
  pub record Answers (image : String) (r : Response) : Type 0 where
    pub domain : String
    pub canonical : String
    pub auth : Auth
    pub encoded : List ℕ
    pub parses : w.parse_normalized_named image ≡ ok (domain, canonical)
    pub finds_auth : w.get_auth_config domain ≡ ok auth
    pub encodes : encode_auth (w.marshal auth) ≡ ok encoded
    pub pulls : w.image_pull canonical encoded ≡ ok r

  pub record Succeeds (image : String) : Type 0 where
    pub response : Response
    pub answers : Answers image response
    pub reads_all : response.ends ≡ none
    pub closes : response.close ≡ none

  -- Where each call is answered, the lines of the response decide the rest.
  image_pull-Answers :
      (image : String) (r : Response)
      → Answers image r
      → image_pull w image
        ≡ record { log = log_lines w.decode (read_lines r.bytes); error = or_close r.ends r.close }
  unfolding image_pull
  image_pull-Answers image r a =
      ap (after_parse w image) a.parses
      ∙ ap (after_auth w image a.canonical) a.finds_auth
      ∙ ap (after_encode w a.canonical) a.encodes
      ∙ ap (after_pull w) a.pulls

  pulled :
      (image domain canonical : String) (auth : Auth) (encoded : List ℕ) (r : Result Response)
      → w.parse_normalized_named image ≡ ok (domain, canonical)
      → w.get_auth_config domain ≡ ok auth
      → encode_auth (w.marshal auth) ≡ ok encoded
      → w.image_pull canonical encoded ≡ r
      → (after_pull w r).error ≡ none
      → Succeeds image
  pulled image domain canonical auth encoded (err e) p a m i h = absurd (cc)
  pulled image domain canonical auth encoded (ok r) p a m i h = record {
    response = r;
    answers = record {
      domain = domain;
      canonical = canonical;
      auth = auth;
      encoded = encoded;
      parses = p;
      finds_auth = a;
      encodes = m;
      pulls = i;
    };
    reads_all = (or_close-none r.ends r.close h).0;
    closes = (or_close-none r.ends r.close h).1;
  }
    where
      or_close-none :
          (ends close : Option Error) → or_close ends close ≡ none → (ends ≡ none) × (close ≡ none)
      or_close-none none close h = (refl, h)
      or_close-none (some e) close h = absurd (cc)

  encoded :
      (image domain canonical : String) (auth : Auth) (m : Result (List ℕ))
      → w.parse_normalized_named image ≡ ok (domain, canonical)
      → w.get_auth_config domain ≡ ok auth
      → encode_auth (w.marshal auth) ≡ m
      → (after_encode w canonical m).error ≡ none
      → Succeeds image
  encoded image domain canonical auth (err e) p a m h = absurd (cc)
  encoded image domain canonical auth (ok bytes) p a m h =
      pulled image domain canonical auth bytes (w.image_pull canonical bytes) p a m refl h

  authorised :
      (image domain canonical : String) (a : Result Auth)
      → w.parse_normalized_named image ≡ ok (domain, canonical)
      → w.get_auth_config domain ≡ a
      → (after_auth w image canonical a).error ≡ none
      → Succeeds image
  authorised image domain canonical (err e) p a h = absurd (cc)
  authorised image domain canonical (ok auth) p a h =
      encoded image domain canonical auth (encode_auth (w.marshal auth)) p a refl h

  parsed :
      (image : String) (p : Result (String × String))
      → w.parse_normalized_named image ≡ p
      → (after_parse w image p).error ≡ none
      → Succeeds image
  parsed image (err e) p h = absurd (cc)
  parsed image (ok (domain, canonical)) p h =
      authorised image domain canonical (w.get_auth_config domain) p refl h

-- `ImagePull` returns nil exactly when the reference parses, the credentials are found and encode, the
-- pull is answered, and the answer is read to its end and closed, each without an error.
pub image_pull-none :
    {Auth : Type 0} (w : PullWorld Auth) (image : String)
    → ((image_pull w image).error ≡ none) ↔ Succeeds w image
unfolding image_pull
image_pull-none w image = (
  parsed w image (w.parse_normalized_named image) refl,
  λ s.
      ap (λ p. p.error) (image_pull-Answers w image s.response s.answers)
      ∙ ap (λ e. or_close e s.response.close) s.reads_all
      ∙ s.closes,
)

-- Where each call is answered, and the answer is lines that fit the reader's buffer, `ImagePull` logs
-- what it finds in each line, in their order.
pub image_pull-with_newlines :
    {Auth : Type 0} (w : PullWorld Auth) (image : String) (r : Response) (lines : List (List ℕ))
    → Answers w image r
    → r.bytes ≡ with_newlines lines
    → AllFit lines
    → (image_pull w image).log ≡ log_lines w.decode lines
image_pull-with_newlines w image r lines a e fit =
    ap (λ p. p.log) (image_pull-Answers w image r a)
    ∙ ap (log_lines w.decode) (ap read_lines e ∙ read_lines-with_newlines lines fit)
