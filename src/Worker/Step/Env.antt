-- ===== src/Worker/Step/Env.antt =====
-- The environment that `runStep` of internal/worker/run.go gives a container.
use taskcluster_multistage_d.Common.{
  ◌≡◌, refl, Option, none, some, List, [], ◌∷◌, String, if◌then◌else◌, str_eq, lookup,
  lookup-insert, arith,
}
use taskcluster_multistage_d.Payload.{EnvVar}
use taskcluster_multistage_d.Worker.Calls.{Call, Result, ok, err, Run, then_run, ◌>>=◌}
use taskcluster_multistage_d.Worker.Step.{World, resolve_value_from, add_env, add_envs}

then_run-ok {ℓ κ} :
    {A : Type ℓ} {B : Type κ} (calls : List Call) (r : Result A) (f : A → Run B) (b : B)
    → (then_run calls r f).result ≡ ok b
    → (a : A) × (r ≡ ok a) × ((f a).result ≡ ok b)
then_run-ok calls (ok a) f b h = (a, refl, h)
then_run-ok calls (err e) f b h = cc

-- A bind that succeeds has two parts that do.
pub bind-ok {ℓ κ} :
    {A : Type ℓ} {B : Type κ} (m : Run A) (f : A → Run B) (b : B)
    → (m >>= f).result ≡ ok b
    → (a : A) × (m.result ≡ ok a) × ((f a).result ≡ ok b)
bind-ok m f b h = then_run-ok m.calls m.result f b h

then_run_result {ℓ κ} :
    {A : Type ℓ} {B : Type κ} (calls : List Call) (r : Result A) (f : A → Run B) (a : A)
    → r ≡ ok a
    → (then_run calls r f).result ≡ (f a).result
then_run_result calls r f a h = rw h refl

pub bind_result {ℓ κ} :
    {A : Type ℓ} {B : Type κ} (m : Run A) (f : A → Run B) (a : A)
    → m.result ≡ ok a
    → (m >>= f).result ≡ (f a).result
bind_result m f a h = then_run_result m.calls m.result f a h

-- The value that a variable gets: its own, if that is not empty, and otherwise what it refers to.
abbrev pub value_of : World → EnvVar → Result String
value_of w e = elim (resolve_value_from w e.value_from).result [
  | ok value ↦ ok (if str_eq e.value "" then value else e.value)
  | err x ↦ err x
]

abbrev or_else : Option String → Option String → Option String
or_else (some v) d = some v
or_else none d = d

abbrev bind_here : String → String → Result String → Option String
bind_here k name (ok v) = if str_eq name k then some v else none
bind_here k name (err x) = none

-- The last variable of a name, read from the end.
abbrev pub binding : World → String → List EnvVar → Option String
binding w k [] = none
binding w k (e ∷ es) = or_else (binding w k es) (bind_here k e.name (value_of w e))

add_env-lookup :
    (w : World) (e : EnvVar) (env env' : List (String × String)) (k : String)
    → (add_env w e env).result ≡ ok env'
    → lookup k env' ≡ or_else (bind_here k e.name (value_of w e)) (lookup k env)
unfolding add_env
add_env-lookup w e env env' k h =
    let (value, found, f) = bind-ok (resolve_value_from w e.value_from) _ env' h in
    ground (arith, lookup-insert e.name k (if str_eq e.value "" then value else e.value) env)

-- When all the variables resolve, the container's environment has at each name the value of the
-- last variable of that name, and what was there before if there is none.
pub add_envs-lookup :
    (w : World) (es : List EnvVar) (env env' : List (String × String)) (k : String)
    → (add_envs w es env).result ≡ ok env'
    → lookup k env' ≡ or_else (binding w k es) (lookup k env)
unfolding add_envs
add_envs-lookup w [] env env' k h = ground arith
add_envs-lookup w (e ∷ es) env env' k h =
    let (mid, first, rest) = bind-ok (add_env w e env) (add_envs w es) env' h in
    ground (arith, add_env-lookup w e env mid k first, add_envs-lookup w es mid env' k rest)
