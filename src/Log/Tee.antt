-- ===== src/Log/Tee.antt =====
-- internal/log/tee.go: a logger that is several loggers.
use taskcluster_multistage_d.Common.{
  ◌≡◌, refl, sym, ap, ◌∙◌, Bool, true, List, [], ◌∷◌, ◌++◌, map, ℕ, String,
}
use taskcluster_multistage_d.Exception.{Error}

-- `logr.Logger`: what a logger of the type `L` does to the state of the program, and the loggers that
-- are made of it. `V` is the type of keys and values.
pub record LoggerOps (L V S : Type 0) : Type 0 where
  pub enabled : L → Bool
  pub info : L → String → List V → S → S
  pub error : L → Error → String → List V → S → S
  pub v : ℕ → L → L
  pub with_values : List V → L → L
  pub with_name : String → L → L

module _ {L V S : Type 0} (ops : LoggerOps L V S) where
  unfoldable pub tee_info : List L → String → List V → S → S
  tee_info [] msg keys_and_values s = s
  tee_info (l ∷ ls) msg keys_and_values s =
      tee_info ls msg keys_and_values (ops.info l msg keys_and_values s)

  unfoldable pub tee_error : List L → Error → String → List V → S → S
  tee_error [] err msg keys_and_values s = s
  tee_error (l ∷ ls) err msg keys_and_values s =
      tee_error ls err msg keys_and_values (ops.error l err msg keys_and_values s)

  -- A `Tee` is a logger.
  abbrev pub tee : LoggerOps (List L) V S
  unfolding tee_info tee_error
  tee = record {
    enabled = λ ls. true;
    info = tee_info;
    error = tee_error;
    v = λ level ls. map (ops.v level) ls;
    with_values = λ keys_and_values ls. map (ops.with_values keys_and_values) ls;
    with_name = λ name ls. map (ops.with_name name) ls;
  }

-- The loggers of several tees, in order.
abbrev pub concat : {L : Type 0} → List (List L) → List L
concat [] = []
concat (ls ∷ lss) = ls ++ concat lss

concat-map :
    {L : Type 0} (f : L → L) (lss : List (List L)) → concat (map (map f) lss) ≡ map f (concat lss)
concat-map f [] = refl
concat-map f (ls ∷ lss) =
    ap (λ t. map f ls ++ t) (concat-map f lss) ∙ sym (map-append f ls (concat lss))
  where
    map-append :
        {A B : Type 0} (f : A → B) (xs ys : List A) → map f (xs ++ ys) ≡ map f xs ++ map f ys
    map-append f [] ys = refl
    map-append f (x ∷ xs) ys = ap (λ t. f x ∷ t) (map-append f xs ys)

module _ {L V S : Type 0} (ops : LoggerOps L V S) where
  tee_info-append :
      (ls ms : List L) (msg : String) (kvs : List V) (s : S)
      → tee_info ops (ls ++ ms) msg kvs s ≡ tee_info ops ms msg kvs (tee_info ops ls msg kvs s)
  unfolding tee_info
  tee_info-append [] ms msg kvs s = refl
  tee_info-append (l ∷ ls) ms msg kvs s = tee_info-append ls ms msg kvs (ops.info l msg kvs s)

  tee_error-append :
      (ls ms : List L) (err : Error) (msg : String) (kvs : List V) (s : S)
      → tee_error ops (ls ++ ms) err msg kvs s
        ≡ tee_error ops ms err msg kvs (tee_error ops ls err msg kvs s)
  unfolding tee_error
  tee_error-append [] ms err msg kvs s = refl
  tee_error-append (l ∷ ls) ms err msg kvs s =
      tee_error-append ls ms err msg kvs (ops.error l err msg kvs s)

  tee_info-concat :
      (lss : List (List L)) (msg : String) (kvs : List V) (s : S)
      → tee_info (tee ops) lss msg kvs s ≡ tee_info ops (concat lss) msg kvs s
  unfolding tee_info tee_error
  tee_info-concat [] msg kvs s = refl
  tee_info-concat (ls ∷ lss) msg kvs s =
      tee_info-concat lss msg kvs (tee_info ops ls msg kvs s)
      ∙ sym (tee_info-append ls (concat lss) msg kvs s)

  tee_error-concat :
      (lss : List (List L)) (err : Error) (msg : String) (kvs : List V) (s : S)
      → tee_error (tee ops) lss err msg kvs s ≡ tee_error ops (concat lss) err msg kvs s
  unfolding tee_info tee_error
  tee_error-concat [] err msg kvs s = refl
  tee_error-concat (ls ∷ lss) err msg kvs s =
      tee_error-concat lss err msg kvs (tee_error ops ls err msg kvs s)
      ∙ sym (tee_error-append ls (concat lss) err msg kvs s)

-- A tee of tees does what the tee of all their loggers does: an entry at info and an error are told to
-- the same loggers in the same order, and the tees made by `V`, `WithValues` and `WithName` are those
-- of the loggers so made.
pub tee-tee :
    {L V S : Type 0} (ops : LoggerOps L V S) (lss : List (List L))
    → ((msg : String) (kvs : List V) (s : S)
        → (tee (tee ops)).info lss msg kvs s ≡ (tee ops).info (concat lss) msg kvs s)
      × ((err : Error) (msg : String) (kvs : List V) (s : S)
          → (tee (tee ops)).error lss err msg kvs s ≡ (tee ops).error (concat lss) err msg kvs s)
      × ((level : ℕ) → concat ((tee (tee ops)).v level lss) ≡ (tee ops).v level (concat lss))
      × ((kvs : List V)
          → concat ((tee (tee ops)).with_values kvs lss) ≡ (tee ops).with_values kvs (concat lss))
      × ((name : String)
          → concat ((tee (tee ops)).with_name name lss) ≡ (tee ops).with_name name (concat lss))
unfolding tee_info tee_error
tee-tee ops lss = (
  tee_info-concat ops lss,
  tee_error-concat ops lss,
  λ level. concat-map (ops.v level) lss,
  λ kvs. concat-map (ops.with_values kvs) lss,
  λ name. concat-map (ops.with_name name) lss,
)
