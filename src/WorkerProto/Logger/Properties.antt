-- ===== src/WorkerProto/Logger/Properties.antt =====
-- Which value a log packet has for a key (internal/workerproto/log.go).
use taskcluster_multistage_d.Common.{
  suc, ◌*◌, ◌/◌, ◌≡◌, refl, ◌∙◌, ap, sym, Option, some, none, List, [], ◌∷◌, ◌++◌, String,
  if◌then◌else◌, arith, lookup, length, take, str_eq, lookup-insert, str_eq_iff, Option-cases, inl,
  inr,
}
use taskcluster_multistage_d.WorkerProto.Communicator.{
  Value, logs, Communicator, has_capability, send_packet,
}
use taskcluster_multistage_d.WorkerProto.Logger.{
  Logger, key_of, add_property, write_property_list, write_log_properties, info_payload, info,
  send_log, with_values,
}

-- The value of the first pair with a key.
abbrev pub first_of : String → List Value → Option Value
first_of key [] = none
first_of key (v ∷ []) = none
first_of key (k ∷ v ∷ rest) = if str_eq (key_of k) key then some v else first_of key rest

abbrev pub or_else : Option Value → Option Value → Option Value
or_else (some v) later = some v
or_else none later = later

or_else_assoc : (a b c : Option Value) → or_else (or_else a b) c ≡ or_else a (or_else b c)
or_else_assoc (some v) b c = refl
or_else_assoc none b c = refl

lookup-add_property :
    (key : String) (k : String) (v : Value) (m : List (String × Value))
    → lookup key (add_property k v (lookup k m) m)
      ≡ or_else (lookup key m) (if str_eq k key then some v else none)
unfolding add_property
lookup-add_property key k v m = elim (Option-cases (lookup k m)) [
  | inl e ↦ rw e (ground (arith, lookup-insert k key v m, str_eq_iff k key))
  | inr (old, e) ↦ rw e (ground (arith, str_eq_iff k key))
]

write_property_list-lookup :
    (key : String) (vs : List Value) (m : List (String × Value))
    → lookup key (write_property_list m vs).0 ≡ or_else (lookup key m) (first_of key vs)
unfolding write_property_list
write_property_list-lookup key [] m = ground arith
write_property_list-lookup key (v ∷ []) m = ground arith
write_property_list-lookup key (k ∷ v ∷ rest) m = ground (
  arith,
  write_property_list-lookup key rest (add_property (key_of k) v (lookup (key_of k) m) m),
  lookup-add_property key (key_of k) v m,
)

-- The complete pairs.
abbrev pub pairs : List Value → List Value
pairs [] = []
pairs (v ∷ []) = []
pairs (k ∷ v ∷ rest) = k ∷ v ∷ pairs rest

take-pairs : (vs : List Value) → take (length vs / 2 * 2) vs ≡ pairs vs
take-pairs [] = refl
take-pairs (v ∷ []) = refl
take-pairs (k ∷ v ∷ rest) =
    let more : suc (suc (length rest)) / 2 * 2 ≡ suc (suc (length rest / 2 * 2)) = omega arith in
    rw (more, take-pairs rest) refl

-- Every value has its partner.
abbrev pub IsPaired : Logger → Type 0
IsPaired l = pairs l.values ≡ l.values

first_of-append :
    (key : String) (xs ys : List Value)
    → first_of key (pairs xs ++ ys) ≡ or_else (first_of key xs) (first_of key ys)
first_of-append key [] ys = refl
first_of-append key (v ∷ []) ys = refl
first_of-append key (k ∷ v ∷ rest) ys = ground (arith, first_of-append key rest ys)

first_of-pairs : (key : String) (vs : List Value) → first_of key (pairs vs) ≡ first_of key vs
first_of-pairs key [] = refl
first_of-pairs key (v ∷ []) = refl
first_of-pairs key (k ∷ v ∷ rest) = ground (arith, first_of-pairs key rest)

pairs-append : (xs ys : List Value) → pairs (pairs xs ++ pairs ys) ≡ pairs xs ++ pairs ys
pairs-append [] [] = refl
pairs-append [] (v ∷ []) = refl
pairs-append [] (k ∷ v ∷ rest) = ap (λ t. k ∷ v ∷ t) (pairs-append [] rest)
pairs-append (v ∷ []) ys = pairs-append [] ys
pairs-append (k ∷ v ∷ rest) ys = ap (λ t. k ∷ v ∷ t) (pairs-append rest ys)

-- `WithValues` keeps the values of a logger in pairs.
with_values-IsPaired : (vs : List Value) (l : Logger) → IsPaired l → IsPaired (with_values vs l)
unfolding with_values
with_values-IsPaired vs l paired = rw (take-pairs vs) (rw (← paired) (pairs-append l.values vs))

-- A logger whose values come in pairs, and to which `WithValues` gives more, sends one packet for
-- an entry where both ends have the capability `log`, and nothing otherwise. In the packet a key
-- has the value of the entry itself (its message), else the first of the logger's values for it,
-- else the first that `WithValues` gave, else the first of the call.
pub info-lookup :
    (l : Logger) (msg key : String) (given vs : List Value) (c : Communicator)
    → IsPaired l
    → (payload : List (String × Value)) × (info (with_values given l) msg vs c
        ≡ (if has_capability "log" c then send_packet (logs payload) c else c))
      × (lookup key payload
          ≡ or_else
              (lookup key (info_payload msg))
              (or_else (first_of key l.values) (or_else (first_of key given) (first_of key vs))))
unfolding info write_log_properties with_values send_log
info-lookup l msg key given vs c paired =
    let m = (write_property_list (info_payload msg) (with_values given l).values).0 in
    (
      (write_property_list m vs).0,
      refl,
      write_property_list-lookup key vs m
          ∙ ap (λ o. or_else o (first_of key vs))
              (write_property_list-lookup key (with_values given l).values (info_payload msg))
          ∙ ap (λ o. or_else (or_else (lookup key (info_payload msg)) o) (first_of key vs)) values
          ∙ or_else_assoc (lookup key (info_payload msg))
              (or_else (first_of key l.values) (first_of key given)) (first_of key vs)
          ∙ ap (λ o. or_else (lookup key (info_payload msg)) o)
              (or_else_assoc (first_of key l.values) (first_of key given) (first_of key vs)),
    )
  where
    values :
        first_of key (with_values given l).values
        ≡ or_else (first_of key l.values) (first_of key given)
    values =
        ap (λ t. first_of key (l.values ++ t)) (take-pairs given)
        ∙ ap (λ t. first_of key (t ++ pairs given)) (sym paired)
        ∙ first_of-append key l.values (pairs given)
        ∙ ap (λ o. or_else (first_of key l.values) o) (first_of-pairs key given)
