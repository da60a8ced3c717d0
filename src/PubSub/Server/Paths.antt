-- ===== src/PubSub/Server/Paths.antt =====
-- Which paths name a buffer (internal/pubsubbuffer/server.go, `ServeHTTP`).
use Prim.Native.Char.{Char, code}
use Prim.Native.String.{◌++◌ as append}
use text.Mathlib.TextLemmas.{cons-append}
use text.Mathlib.TextEquality.{Char-path, eq_iff}
use taskcluster_multistage_d.Common.{
  split_slash, extend_first, ◌≡◌, ◌≢◌, ◌↔◌, ◌⊎◌, inl, inr, refl, ◌==◌, Bool, false, List, [], ◌∷◌,
  String, arith, Bool-cases, str_eq, ap, ◌∙◌, ◌||◌, sym,
}
use taskcluster_multistage_d.PubSub.Server.{drop_empty_last, only_part, route, wants}

abbrev has_slash : String → Bool
has_slash String.[] = false
has_slash (String.◌∷◌ c s) = (code c == b'/') || has_slash s

split_slash-nonempty : (s : String) → split_slash s ≢ []
unfolding split_slash
split_slash-nonempty String.[] h = cc
split_slash-nonempty (String.◌∷◌ c s) h = ground (arith, split_slash-nonempty s)

-- A text with no slash is its only part.
split_slash-one : (s : String) → has_slash s ≡ false → split_slash s ≡ s ∷ []
unfolding split_slash
split_slash-one String.[] h = refl
split_slash-one (String.◌∷◌ c s) h = ground (arith, split_slash-one s)

extend_first-one :
    (c : Char) (parts : List String) (p : String)
    → extend_first c parts ≡ p ∷ []
    → (q : String) × (parts ≡ q ∷ []) × (p ≡ String.◌∷◌ c q)
extend_first-one c [] p h = cc
extend_first-one c (q ∷ []) p h = (q, refl, cc)
extend_first-one c (q ∷ r ∷ parts) p h = cc

extend_first-two :
    (c : Char) (parts : List String) (p r : String)
    → extend_first c parts ≡ p ∷ r ∷ []
    → (q : String) × (parts ≡ q ∷ r ∷ []) × (p ≡ String.◌∷◌ c q)
extend_first-two c [] p r h = cc
extend_first-two c (q ∷ []) p r h = cc
extend_first-two c (q ∷ x ∷ []) p r h = (q, cc, cc)
extend_first-two c (q ∷ x ∷ y ∷ parts) p r h = cc

-- Only a text with no slash is its only part.
one-split_slash : (s p : String) → split_slash s ≡ p ∷ [] → (s ≡ p) × (has_slash s ≡ false)
unfolding split_slash
one-split_slash String.[] p h = (cc, refl)
one-split_slash (String.◌∷◌ c s) p h = elim (Bool-cases (code c == b'/')) [
  | inl slash ↦ absurd (split_slash-nonempty s (ground arith))
  | inr other ↦
      let (q, e, f) = extend_first-one c (split_slash s) p (ground arith) in
      let (same, none) = one-split_slash s q e in
      (ap (λ t. String.◌∷◌ c t) same ∙ sym f, rw (other) none)
]

-- A text with one slash, at its end.
two-split_slash :
    (s p : String) → split_slash s ≡ p ∷ "" ∷ [] → (s ≡ append p "/") × (has_slash p ≡ false)
unfolding split_slash
two-split_slash String.[] p h = cc
two-split_slash (String.◌∷◌ c s) p h = elim (Bool-cases (code c == b'/')) [
  | inl slash ↦
      let (same, none) = one-split_slash s "" (ground arith) in
      let p_empty : p ≡ "" = ground arith in
      let c_slash : c ≡ "/" = Char-path c "/" (ground arith) in
      rw (same, p_empty, c_slash) (refl, refl)
  | inr other ↦
      let (q, e, f) = extend_first-two c (split_slash s) p "" (ground arith) in
      let (same, none) = two-split_slash s q e in
      rw (f, other, cons-append) (ap (λ t. String.◌∷◌ c t) same, none)
]

split_slash-trailing : (s : String) → has_slash s ≡ false → split_slash (append s "/") ≡ s ∷ "" ∷ []
unfolding split_slash
split_slash-trailing String.[] h = refl
split_slash-trailing (String.◌∷◌ c s) h = rw cons-append (ground (arith, split_slash-trailing s))

-- What a path after its first character asks for: a text with no slash that is not empty, or one
-- with no slash and a slash behind it.
abbrev pub Names : String → String → Type 0
Names path id = (has_slash id ≡ false) × ((path ≡ id) × (id ≢ "") ⊎ (path ≡ append id "/"))

only_part-drop_empty_last :
    (parts : List String) (id : String)
    → only_part (drop_empty_last parts) ≡ wants id
    → ((parts ≡ id ∷ []) × (id ≢ "")) ⊎ (parts ≡ id ∷ "" ∷ [])
only_part-drop_empty_last [] id h = cc
only_part-drop_empty_last (p ∷ []) id h = elim (Bool-cases (str_eq p "")) [
  | inl e ↦ ground arith
  | inr e ↦ inl (ground arith, λ f. ground (arith, eq_iff p ""))
]
only_part-drop_empty_last (p ∷ q ∷ []) id h = ground (arith, eq_iff q "")
only_part-drop_empty_last (p ∷ q ∷ r ∷ parts) id h = cc

only_part_alone : (id : String) → id ≢ "" → only_part (drop_empty_last (id ∷ [])) ≡ wants id
only_part_alone id ne = elim (Bool-cases (str_eq id "")) [
  | inl e ↦ absurd (ne ((eq_iff id "").0 e))
  | inr e ↦ ground arith
]

-- A path names exactly the buffers that the server's rule says: `/id` and `/id/`.
pub route_iff :
    (c : Char) (path id : String) → (route (String.◌∷◌ c path) ≡ wants id) ↔ Names path id
unfolding route
route_iff c path id = (forth, back)
  where
    forth : only_part (drop_empty_last (split_slash path)) ≡ wants id → Names path id
    forth h = elim (only_part-drop_empty_last (split_slash path) id h) [
      | inl (one, ne) ↦
          let (same, none) = one-split_slash path id one in (rw same at none, inl (same, ne))
      | inr two ↦ let (same, none) = two-split_slash path id two in (none, inr same)
    ]

    back : Names path id → only_part (drop_empty_last (split_slash path)) ≡ wants id
    back (none, inl (same, ne)) = rw (same, split_slash-one id none) (only_part_alone id ne)
    back (none, inr same) = rw (same, split_slash-trailing id none) refl
