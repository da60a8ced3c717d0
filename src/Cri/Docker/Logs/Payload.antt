-- ===== src/Cri/Docker/Logs/Payload.antt =====
-- How the payload of a frame is copied (the inner loop of `dockerContainer.Run`,
-- internal/cri/docker.go).
use taskcluster_multistage_d.Common.{
  ℕ, zero, suc, ◌-◌, ◌≤◌, ◌≡◌, refl, sym, ap, ◌∙◌, subst, false, Option, none, some, List, [], ◌∷◌,
  ◌++◌, ◌==◌, if◌then◌else◌, length, take, drop, arith, length-append, length-take, length-drop,
  take-append_le, drop-append_le, take-append-drop, append_assoc, append-nil,
}
use taskcluster_multistage_d.Exception.{Error}
use taskcluster_multistage_d.Cri.Docker.Logs.{
  LogWorld, Writer, discard, given, Chunk, full, read_full, Step, copied, go_on, copy_part,
  write_part, error_of_write, max, to_read, copy_payload,
}

-- The bytes in the order in which they are written, each with its writer.
abbrev pub tag : Writer → List ℕ → List (Writer × ℕ)
tag w [] = []
tag w (b ∷ bs) = (w, b) ∷ tag w bs

abbrev pub flow : List Chunk → List (Writer × ℕ)
flow [] = []
flow (c ∷ cs) = tag c.writer c.bytes ++ flow cs

-- No call of `Write` gets more than the buffer holds.
abbrev pub AllSmall : List Chunk → Type 0
AllSmall [] = Unit {0}
AllSmall (c ∷ cs) = (length c.bytes ≤ max) × AllSmall cs

tag-append : (w : Writer) (xs ys : List ℕ) → tag w (xs ++ ys) ≡ tag w xs ++ tag w ys
tag-append w [] ys = refl
tag-append w (x ∷ xs) ys = ap (λ t. (w, x) ∷ t) (tag-append w xs ys)

flow-append : (cs ds : List Chunk) → flow (cs ++ ds) ≡ flow cs ++ flow ds
flow-append [] ds = refl
flow-append (c ∷ cs) ds =
    ap (λ t. tag c.writer c.bytes ++ t) (flow-append cs ds)
    ∙ sym (append_assoc (tag c.writer c.bytes) (flow cs) (flow ds))

AllSmall-append : (cs ds : List Chunk) → AllSmall cs → AllSmall ds → AllSmall (cs ++ ds)
AllSmall-append [] ds a b = b
AllSmall-append (c ∷ cs) ds a b = (a.0, AllSmall-append cs ds a.1 b)

pub read_full-append :
    (n : ℕ) (ends : Option Error) (xs rest : List ℕ)
    → n ≤ length xs
    → read_full n ends (xs ++ rest) ≡ full (take n xs) (drop n xs ++ rest)
unfolding read_full
read_full-append n ends xs rest le =
    ground (arith, length-append xs rest, take-append_le n xs rest le, drop-append_le n xs rest le)

-- `s` goes on with `rest`, the history `h` having grown by `bytes` to the writer `w`.
pub record Grows (h : List Chunk) (bytes : List (Writer × ℕ)) (rest : List ℕ) (s : Step)
    : Type 0 where
  pub history : List Chunk
  pub goes_on : s ≡ copied rest history
  pub flows : flow history ≡ flow h ++ bytes
  pub small : AllSmall h → AllSmall history

pub Grows-go_on :
    (h : List Chunk) (xs ys : List (Writer × ℕ)) (between rest : List ℕ)
    (more : List ℕ → List Chunk → Step) (s : Step)
    → Grows h xs between s
    → ((h' : List Chunk) → Grows h' ys rest (more between h'))
    → Grows h (xs ++ ys) rest (go_on more s)
Grows-go_on h xs ys between rest more s g next =
    let k = next g.history in
    record {
      history = k.history;
      goes_on = ap (go_on more) g.goes_on ∙ k.goes_on;
      flows = k.flows ∙ ap (λ t. t ++ ys) g.flows ∙ append_assoc (flow h) xs ys;
      small = λ a. k.small (g.small a);
    }

tag-take-drop : (w : Writer) (n : ℕ) (q : List ℕ) → tag w (take n q) ++ tag w (drop n q) ≡ tag w q
tag-take-drop w n q = sym (tag-append w (take n q) (drop n q)) ∙ ap (tag w) (take-append-drop n q)

module _ (lw : LogWorld)
    (takes : (h : List Chunk) (k : ℕ) (bs : List ℕ) → lw.write_error h k bs ≡ none) where
  write_part-Grows :
      (w : Writer) (part rest : List ℕ) (h : List Chunk)
      → length part ≤ max
      → Grows h (tag w part) rest (write_part lw (some w) part rest h)
  write_part-Grows w part rest h le = rw (takes_write w) (record {
    history = h ++ record { writer = w; bytes = part } ∷ [];
    goes_on = refl;
    flows =
        flow-append h (record { writer = w; bytes = part } ∷ [])
        ∙ ap (λ t. flow h ++ t) (append-nil (tag w part));
    small = λ a. AllSmall-append h _ a (le, tt);
  })
    where
      takes_write : (v : Writer) → error_of_write lw h v part ≡ none
      takes_write discard = refl
      takes_write (given k) = takes h k part

  copy_part-Grows :
      (w : Writer) (n : ℕ) (q rest : List ℕ) (h : List Chunk)
      → n ≤ length q
      → n ≤ max
      → Grows h
          (tag w (take n q))
          (drop n q ++ rest)
          (copy_part lw (some w) h (read_full n lw.ends (q ++ rest)))
  copy_part-Grows w n q rest h le small =
      rw (read_full-append n lw.ends q rest le)
        (write_part-Grows w (take n q) (drop n q ++ rest) h (omega (arith, length-take n q)))

  pub copy_payload-Grows :
      (w : Writer) (fuel : ℕ) (q rest : List ℕ) (h : List Chunk)
      → length q ≤ fuel
      → Grows h (tag w q) rest (copy_payload lw (some w) fuel (length q) (q ++ rest) h)
  unfolding copy_payload
  copy_payload-Grows w zero [] rest h le = record {
    history = h;
    goes_on = refl;
    flows = sym (append-nil (flow h));
    small = λ a. a;
  }
  copy_payload-Grows w (suc fuel) [] rest h le = record {
    history = h;
    goes_on = refl;
    flows = sym (append-nil (flow h));
    small = λ a. a;
  }
  copy_payload-Grows w zero (b ∷ p) rest h le = absurd (omega arith)
  copy_payload-Grows w (suc fuel) (b ∷ p) rest h le =
      let q = b ∷ p in
      let n = to_read (length q) in
      let within : n ≤ length q = ground arith in
      let small : n ≤ max = ground arith in
      let same : length (drop n q) ≡ length q - n = length-drop n q in
      let more : (length q == 0) ≡ false = ground arith in
      let round =
        Grows-go_on h (tag w (take n q)) (tag w (drop n q)) (drop n q ++ rest) rest
          (copy_payload lw (some w) fuel (length q - n)) _
          (copy_part-Grows w n q rest h within small)
          (λ h'.
            subst
              (λ k.
                Grows h' (tag w (drop n q)) rest
                  (copy_payload lw (some w) fuel k (drop n q ++ rest) h'))
              same (copy_payload-Grows w fuel (drop n q) rest h' (ground (arith, same)))) in
      subst (λ t. Grows h t rest (copy_payload lw (some w) (suc fuel) (length q) (q ++ rest) h))
        (tag-take-drop w n q)
        (subst
          (λ t. Grows h (tag w (take n q) ++ tag w (drop n q)) rest (
            if t
            then copied (q ++ rest) h
            else go_on (copy_payload lw (some w) fuel (length q - n))
                (copy_part lw (some w) h (read_full n lw.ends (q ++ rest)))))
          (sym more) round)
