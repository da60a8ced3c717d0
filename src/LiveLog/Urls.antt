-- ===== src/LiveLog/Urls.antt =====
-- The URLs of live logs (internal/livelog/livelog.go) and the requests for them
-- (internal/pubsubbuffer/server.go).
use Prim.Native.Char.{code}
use Prim.Native.String.{◌++◌ as append}
use text.Mathlib.TextLemmas.{cons-append, nil-append, append_assoc}
use text.Mathlib.TextEquality.{Char-path}
use taskcluster_multistage_d.Common.{
  ◌≡◌, refl, sym, ap, subst, Option, none, false, str_eq, decimal, ◌∙◌, inl, inr, true, some,
  String, get_elem?, Bool-cases, ==_iff,
}
use taskcluster_multistage_d.Worker.Calls.{Result, ok, err}
use taskcluster_multistage_d.Exception.{Error}
use taskcluster_multistage_d.Config.{Config}
use taskcluster_multistage_d.PubSub.Buffer.{new_buffer}
use taskcluster_multistage_d.PubSub.Server.{serves, serve_http, allocate as allocate_buffer}
use taskcluster_multistage_d.PubSub.Server.Paths.{Names}
use taskcluster_multistage_d.PubSub.Server.Requests.{serve_http-allocate}
use taskcluster_multistage_d.LiveLog.{
  ListenWorld, LiveLog, create_wst_listener, after_listen, protocol, port_url, create_listener,
  has_suffix_slash, with_slash, after_create, new, allocate,
}

has_suffix_slash-append : (s : String) → has_suffix_slash (append s "/") ≡ true
unfolding has_suffix_slash
has_suffix_slash-append String.[] = refl
has_suffix_slash-append (String.◌∷◌ c String.[]) = rw cons-append refl
has_suffix_slash-append (String.◌∷◌ c (String.◌∷◌ d s)) =
    ap has_suffix_slash
      (cons-append c (String.◌∷◌ d s) "/" ∙ ap (String.◌∷◌ c) (cons-append d s "/"))
    ∙ ap has_suffix_slash (sym (cons-append d s "/"))
    ∙ has_suffix_slash-append (String.◌∷◌ d s)

-- A URL that ends in a slash, as what stands before the slash.
without_slash :
    (url : String) → has_suffix_slash url ≡ true → (base : String) × (url ≡ append base "/")
unfolding has_suffix_slash
without_slash String.[] h = absurd (cc)
without_slash (String.◌∷◌ c String.[]) h =
    ("", ap (λ d. String.◌∷◌ d String.[]) (Char-path c "/" ((==_iff (code c) b'/').0 h)))
without_slash (String.◌∷◌ c (String.◌∷◌ d s)) h =
    let (base, e) = without_slash (String.◌∷◌ d s) h in
    (String.◌∷◌ c base, ap (String.◌∷◌ c) e ∙ sym (cons-append c base "/"))

-- What `create` gives is kept if it ends in a slash, and gets one slash if not.
pub data SlashOf : String → String → Type 0 where
  kept : {base : String} → SlashOf (append base "/") base
  added : {url : String} → has_suffix_slash url ≡ false → SlashOf url url

with_slash-SlashOf :
    (url : String) → (base : String) × (with_slash url ≡ append base "/") × SlashOf url base
unfolding with_slash
with_slash-SlashOf url = elim (Bool-cases (has_suffix_slash url)) [
  | inl e ↦
      let (base, f) = without_slash url e in
      (base, rw e f, subst (λ u. SlashOf u base) (sym f) kept)
  | inr e ↦ (url, rw e refl, added e)
]

-- The scheme, the host and the port at which the listener is reached, without a slash behind them.
abbrev pub authority : Config → String
authority config =
    append (protocol config)
      (append "://" (append config.public_ip (append ":" (decimal config.live_log_port))))

port_url-authority : (config : Config) → port_url config ≡ append (authority config) "/"
port_url-authority config =
    ap (λ t. append (protocol config) (append "://" (append config.public_ip t)))
      (sym (append_assoc ":" (decimal config.live_log_port) "/"))
    ∙ ap (λ t. append (protocol config) (append "://" t))
        (sym (append_assoc config.public_ip (append ":" (decimal config.live_log_port)) "/"))
    ∙ ap (append (protocol config)) (sym (append_assoc "://" _ "/"))
    ∙ sym (append_assoc (protocol config) _ "/")

with_slash-append : (base : String) → with_slash (append base "/") ≡ append base "/"
unfolding with_slash
with_slash-append base = rw (has_suffix_slash-append base) refl

with_slash-port_url :
    (config : Config) → with_slash (port_url config) ≡ append (authority config) "/"
with_slash-port_url config =
    ap with_slash (port_url-authority config) ∙ with_slash-append (authority config)

-- What stands before the slash: the authority if the listener is on a port of this host, or, if there is a
-- server of websocktunnel, the URL of its client without the slash at its end, if it has one.
pub data Base (w : ListenWorld) (config : Config) : String → Type 0 where
  at_port : str_eq config.wst_server_url "" ≡ true → Base w config (authority config)
  tunnelled :
      {url base : String}
      → str_eq config.wst_server_url "" ≡ false
      → create_wst_listener w config ≡ ok url
      → SlashOf url base
      → Base w config base

after_create-ok :
    (r : Result String) (l : LiveLog)
    → after_create r ≡ ok l
    → (url : String) × (r ≡ ok url) × (l.base_url ≡ with_slash url)
after_create-ok (err e) l h = absurd (cc)
after_create-ok (ok url) l h = (url, refl, subst (λ t. t.base_url ≡ with_slash url) (ok_inj h) refl)
  where
    ok_inj : {a b : LiveLog} → ok a ≡ ok b → a ≡ b
    ok_inj e = cc

after_listen-ok :
    (config : Config) (e : Option Error) (url : String)
    → after_listen config e ≡ ok url
    → url ≡ port_url config
after_listen-ok config none url h = cc
after_listen-ok config (some e) url h = absurd (cc)

new-Base :
    (w : ListenWorld) (config : Config) (l : LiveLog)
    → new w config ≡ ok l
    → (base : String) × (l.base_url ≡ append base "/") × Base w config base
unfolding new create_listener
new-Base w config l h =
    let (url, found, same) = after_create-ok (create_listener w config) l h in
    elim (Bool-cases (str_eq config.wst_server_url "")) [
      | inl here ↦
          let listened =
            after_listen-ok config (w.listen (append ":" (decimal config.live_log_port))) url
              (rw here at found) in
          (
            authority config,
            same ∙ ap with_slash listened ∙ with_slash-port_url config,
            at_port here,
          )
      | inr there ↦
          let (base, slashed, of) = with_slash-SlashOf url in
          (base, same ∙ slashed, tunnelled there (rw there at found) of)
    ]

-- However the live log is reached, and whatever it has allocated since `New`, `Allocate` gives a base, one
-- slash and the id as the URL. With no server of websocktunnel, the base is exactly the scheme, the public
-- address and the port; with one, it is the URL of the tunnel's client, less the one slash at its end if it
-- ends in a slash. The path of one slash and the id is answered by the new buffer, which is empty and open,
-- if the id is a text with no slash that is not empty.
pub allocate-serve_http :
    (w : ListenWorld) (config : Config) (start l : LiveLog) (id : String)
    → new w config ≡ ok start
    → l.base_url ≡ start.base_url
    → Names id id
    → let a = allocate id l in
      ((base : String) × (a.url ≡ append base (append "/" id)) × Base w config base)
      × (serve_http (append "/" id) a.live_log.server ≡ serves a.writer.addr)
      × (get_elem? a.live_log.server.store a.writer.addr ≡ some new_buffer)
      × (a.live_log.base_url ≡ l.base_url)
unfolding new allocate allocate_buffer
allocate-serve_http w config start l id is_new same named =
    let (base, e, of) = new-Base w config start is_new in
    let served = serve_http-allocate "/" id id l.server id named in
    (
      (base, ap (λ t. append t id) (same ∙ e) ∙ append_assoc base "/" id, of),
      ap (λ path. serve_http path (allocate_buffer id l.server).0)
            (cons-append "/" "" id ∙ ap (String.◌∷◌ "/") (nil-append id))
          ∙ served.0,
      served.1,
      refl,
    )
