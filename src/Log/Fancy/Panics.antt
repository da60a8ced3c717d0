-- ===== src/Log/Fancy/Panics.antt =====
-- When `FancyLog` panics (internal/log/log.go).
use taskcluster_multistage_d.Common.{
  ◌≡◌, ◌≢◌, ◌↔◌, refl, ℕ, ◌%◌, Option, none, some, List, [], ◌∷◌, length, last, arith,
}
use taskcluster_multistage_d.Log.Fancy.{
  Value, text, texts, printed, Style, LogEntry, then_value, then_blank, then_fields, pretty_value,
  write_fields, fancy_log,
}

-- The last of the fields is a key that is not empty, without a value.
abbrev pub EndsInKey : List Value → Type 0
EndsInKey fields = (length fields % 2 ≡ 1) × (last fields ≢ some (text []))

then_value-none :
    (style : Style) (key : List ℕ) (value : Value) (rest : Option (List ℕ))
    → (then_value style key value rest ≡ none) ↔ (rest ≡ none)
unfolding pretty_value
then_value-none style key value none = (λ h. refl, λ h. refl)
then_value-none style key value (some rest) = (λ h. absurd (cc), λ h. absurd (cc))

then_blank-none :
    (style : Style) (rest : Option (List ℕ)) → (then_blank style rest ≡ none) ↔ (rest ≡ none)
then_blank-none style none = (λ h. refl, λ h. refl)
then_blank-none style (some rest) = (λ h. absurd (cc), λ h. absurd (cc))

-- Two fields more change nothing of the last key.
EndsInKey-more : (k v : Value) (rest : List Value) → EndsInKey (k ∷ v ∷ rest) ↔ EndsInKey rest
EndsInKey-more k v [] = (λ h. absurd (omega (arith, h.0)), λ h. absurd (omega (arith, h.0)))
EndsInKey-more k v (w ∷ ws) = (λ h. (omega (arith, h.0), h.1), λ h. (omega (arith, h.0), h.1))

module _ (style : Style) where
  write_fields-more :
      (k v : Value) (rest : List Value)
      → (write_fields style (k ∷ v ∷ rest) ≡ none) ↔ (write_fields style rest ≡ none)
  unfolding write_fields
  write_fields-more (text []) v rest = then_blank-none style (write_fields style rest)
  write_fields-more (text (b ∷ bs)) v rest =
      then_value-none style (b ∷ bs) v (write_fields style rest)
  write_fields-more (texts ss) v rest = then_value-none style _ v (write_fields style rest)
  write_fields-more (printed s) v rest = then_value-none style _ v (write_fields style rest)

  write_fields-last : (k : Value) → (write_fields style (k ∷ []) ≡ none) ↔ EndsInKey (k ∷ [])
  unfolding write_fields
  write_fields-last (text []) = (λ h. absurd (cc), λ h. absurd (h.1 refl))
  write_fields-last (text (b ∷ bs)) = (λ h. (refl, λ e. cc), λ h. refl)
  write_fields-last (texts ss) = (λ h. (refl, λ e. cc), λ h. refl)
  write_fields-last (printed s) = (λ h. (refl, λ e. cc), λ h. refl)

  write_fields-none : (fields : List Value) → (write_fields style fields ≡ none) ↔ EndsInKey fields
  unfolding write_fields
  write_fields-none [] = (λ h. absurd (cc), λ h. absurd (omega (arith, h.0)))
  write_fields-none (k ∷ []) = write_fields-last k
  write_fields-none (k ∷ v ∷ rest) =
      let more = write_fields-more k v rest in
      let ends = EndsInKey-more k v rest in
      let ih = write_fields-none rest in
      (λ h. ends.1 (ih.0 (more.0 h)), λ h. more.1 (ih.1 (ends.0 h)))

then_fields-none :
    (style : Style) (front : List ℕ) (fields : Option (List ℕ))
    → (then_fields style front fields ≡ none) ↔ (fields ≡ none)
then_fields-none style front none = (λ h. refl, λ h. refl)
then_fields-none style front (some fields) = (λ h. absurd (cc), λ h. absurd (cc))

-- `FancyLog` panics exactly where the number of fields is odd and the last of them is not the empty
-- text.
pub fancy_log-none :
    (style : Style) (time : List ℕ) (e : LogEntry)
    → (fancy_log style time e ≡ none) ↔ EndsInKey e.fields
unfolding fancy_log
fancy_log-none style time e =
    let front = then_fields-none style _ (write_fields style e.fields) in
    let fields = write_fields-none style e.fields in
    (λ h. fields.0 (front.0 h), λ h. front.1 (fields.1 h))
