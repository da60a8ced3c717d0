-- ===== src/Worker/Output/Entries.antt =====
-- The entries that the logger of internal/worker/run.go takes, and the bytes they become.
use taskcluster_multistage_d.Common.{
  ℕ, ◌≡◌, refl, ◌∙◌, ap, sym, true, false, Bool, Option, none, some, List, [], ◌∷◌, ◌++◌,
  append-nil, append_assoc, ◌==◌, if◌then◌else◌,
}
use taskcluster_multistage_d.PubSub.Buffer.{write}
use taskcluster_multistage_d.Log.Fancy.{Style, fancy_log, write_fields}
use taskcluster_multistage_d.Worker.Output.{
  Said, line_of, tells, Output, Labels, render, after_write, write_live, say,
}

abbrev pub line_at : ℕ → Said → List (List ℕ)
line_at i (line_of time j line) = if j == i then line ∷ [] else []
line_at i (tells time e) = []

-- The lines of pipe `i` among the entries.
abbrev pub lines_of : ℕ → List Said → List (List ℕ)
lines_of i [] = []
lines_of i (said ∷ rest) = line_at i said ++ lines_of i rest

lines_of-append :
    (i : ℕ) (xs ys : List Said) → lines_of i (xs ++ ys) ≡ lines_of i xs ++ lines_of i ys
lines_of-append i [] ys = refl
lines_of-append i (x ∷ xs) ys =
    ap (λ t. line_at i x ++ t) (lines_of-append i xs ys)
    ∙ sym (append_assoc (line_at i x) (lines_of i xs) (lines_of i ys))

-- Both the lines that the live log took and those that it refused, which come after them.
abbrev pub total : ℕ → Output → List (List ℕ)
total i o = lines_of i o.logged ++ lines_of i o.refused

lines_of-append_one :
    (i : ℕ) (xs : List Said) (x : Said) → lines_of i (xs ++ x ∷ []) ≡ lines_of i xs ++ line_at i x
lines_of-append_one i xs x =
    lines_of-append i xs (x ∷ []) ∙ ap (λ t. lines_of i xs ++ t) (append-nil (line_at i x))

lines_of-refused :
    (i : ℕ) (xs ys : List Said) (x : Said)
    → lines_of i xs ++ lines_of i (ys ++ x ∷ []) ≡ (lines_of i xs ++ lines_of i ys) ++ line_at i x
lines_of-refused i xs ys x =
    ap (λ t. lines_of i xs ++ t) (lines_of-append_one i ys x)
    ∙ sym (append_assoc (lines_of i xs) (lines_of i ys) (line_at i x))

lines_of-logged :
    (i : ℕ) (xs ys : List Said) (x : Said)
    → ys ≡ []
    → lines_of i (xs ++ x ∷ []) ++ lines_of i ys ≡ (lines_of i xs ++ lines_of i ys) ++ line_at i x
lines_of-logged i xs ys x e = rw e (
    append-nil (lines_of i (xs ++ x ∷ []))
    ∙ lines_of-append_one i xs x
    ∙ ap (λ t. t ++ line_at i x) (sym (append-nil (lines_of i xs))))

module _ (style : Style) (labels : Labels) where
  abbrev pub text_of : Option (List ℕ) → List ℕ
  text_of none = []
  text_of (some bytes) = bytes

  -- The bytes of the entries.
  unfoldable pub rendered : List Said → List ℕ
  unfolding render
  rendered [] = []
  rendered (said ∷ rest) = text_of (render style labels said) ++ rendered rest

  rendered-append : (xs ys : List Said) → rendered (xs ++ ys) ≡ rendered xs ++ rendered ys
  unfolding rendered
  rendered-append [] ys = refl
  rendered-append (x ∷ xs) ys =
      ap (λ t. text_of (render style labels x) ++ t) (rendered-append xs ys)
      ∙ sym (append_assoc (text_of (render style labels x)) (rendered xs) (rendered ys))

  rendered_one :
      (said : Said) (bytes : List ℕ)
      → render style labels said ≡ some bytes
      → bytes ≡ rendered (said ∷ [])
  unfolding rendered
  rendered_one said bytes r = rw r (sym (append-nil bytes))

  -- What an entry does to an output.
  pub record Heard (said : Said) (o p : Output) : Type 0 where
    pub same_stream : p.stream ≡ o.stream
    pub told : (i : ℕ) → total i p ≡ total i o ++ line_at i said
    pub refused_late : p.live.closed ≡ false → p.refused ≡ []
    pub shown : p.live.contents ≡ rendered p.logged

  after_write-Heard :
      (closed : Bool) (said : Said) (bytes : List ℕ) (o : Output)
      → render style labels said ≡ some bytes
      → o.live.closed ≡ closed
      → (o.live.closed ≡ false → o.refused ≡ [])
      → o.live.contents ≡ rendered o.logged
      → Heard said o (after_write said (write bytes o.live) o)
  unfolding write
  after_write-Heard true said bytes o r c late s = rw c (record {
    same_stream = refl;
    told = λ i. lines_of-refused i o.logged o.refused said;
    refused_late = λ h. absurd (cc);
    shown = s;
  })
  after_write-Heard false said bytes o r c late s = rw c (record {
    same_stream = refl;
    told = λ i. lines_of-logged i o.logged o.refused said (late c);
    refused_late = λ h. late c;
    shown =
        ap (λ t. t ++ bytes) s
        ∙ ap (λ t. rendered o.logged ++ t) (rendered_one said bytes r)
        ∙ sym (rendered-append o.logged (said ∷ []));
  })

  -- An entry of a copy has no fields, and is rendered.
  pub render-line :
      (time line : List ℕ) (i : ℕ)
      → (bytes : List ℕ) × (render style labels (line_of time i line) ≡ some bytes)
  unfolding render fancy_log write_fields
  render-line time line i = (_, refl)

  write_live-Heard :
      (result : Option (List ℕ)) (said : Said) (o : Output)
      → render style labels said ≡ result
      → (result ≡ none → (i : ℕ) → line_at i said ≡ [])
      → (o.live.closed ≡ false → o.refused ≡ [])
      → o.live.contents ≡ rendered o.logged
      → Heard said o (write_live result said o)
  write_live-Heard none said o r silent late s = record {
    same_stream = refl;
    told = λ i. sym (ap (λ t. total i o ++ t) (silent refl i) ∙ append-nil (total i o));
    refused_late = late;
    shown = s;
  }
  write_live-Heard (some bytes) said o r silent late s =
      after_write-Heard o.live.closed said bytes o r refl late s

  silent_if_none : (said : Said) → render style labels said ≡ none → (i : ℕ) → line_at i said ≡ []
  silent_if_none (line_of time j line) h i = let (bytes, e) = render-line time line j in absurd (cc)
  silent_if_none (tells time e) h i = refl

  pub say-Heard :
      (said : Said) (o : Output)
      → (o.live.closed ≡ false → o.refused ≡ [])
      → o.live.contents ≡ rendered o.logged
      → Heard said o (say style labels said o)
  unfolding say
  say-Heard said o late s =
      write_live-Heard (render style labels said) said o refl (silent_if_none said) late s
