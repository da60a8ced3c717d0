-- ===== src/PubSub/Server/Board/Views.antt =====
-- What an operation changes of what requests see, id by id (internal/pubsubbuffer/server.go).
use taskcluster_multistage_d.Common.{
  ℕ, ◌≡◌, ◌≢◌, ◌⊎◌, refl, sym, subst, ap, inl, inr, ◌∙◌, true, false, Option, some, none, List, [],
  ◌∷◌, ◌++◌, String, arith, Option-cases, Bool-cases, length, get_elem?, get_elem?-set, str_eq,
  str_eq_iff, str_eq_refl, if◌then◌else◌, get_elem?-append_left, get_elem?-append_last,
  lt_of_get_elem?, lookup, lookup-insert, lookup-erase,
}
use taskcluster_multistage_d.PubSub.Buffer.{Buffer, new_buffer, close, write}
use taskcluster_multistage_d.PubSub.Server.{
  Server, Writer, update_buffer, allocate, writer_write, writer_close,
}
use taskcluster_multistage_d.PubSub.Server.Lifetime.{is_open, lt_of_open, update_buffer-other}
use taskcluster_multistage_d.PubSub.Server.Board.{extend}

-- What a request is answered from.
abbrev pub contents_of : Option Buffer → Option (List ℕ)
contents_of none = none
contents_of (some b) = some b.contents

abbrev pub seen : Server → Option ℕ → Option (List ℕ)
seen s none = none
seen s (some addr) = contents_of (get_elem? s.store addr)

-- A writer's id names the writer's buffer, or nothing any more.
abbrev pub Tied : List (String × ℕ) → Writer → Type 0
Tied buffers w = (lookup w.id buffers ≡ none) ⊎ (lookup w.id buffers ≡ some w.addr)

-- A write to an open buffer.
contents-write :
    (addr : ℕ) (src : List ℕ) (store : List Buffer)
    → is_open (get_elem? store addr) ≡ true
    → contents_of (get_elem? (update_buffer addr (λ b. (write src b).0) store) addr)
      ≡ extend src (contents_of (get_elem? store addr))
unfolding write
contents-write addr src store h = elim (Option-cases (get_elem? store addr)) [
  | inl e ↦ ground arith
  | inr (b, e) ↦
      ground (arith, get_elem?-set store addr addr (write src b).0, lt_of_get_elem? store addr b)
]

module _ (s : Server)
    (live : (j : String) (addr : ℕ)
      → lookup j s.buffers ≡ some addr
      → is_open (get_elem? s.store addr) ≡ true) where
  seen-append :
      (j : String)
      → seen (record s { store = s.store ++ new_buffer ∷ [] }) (lookup j s.buffers)
        ≡ seen s (lookup j s.buffers)
  seen-append j = elim (Option-cases (lookup j s.buffers)) [
    | inl e ↦ rw e refl
    | inr (addr, e) ↦ rw e (
        ap contents_of (
          get_elem?-append_left s.store (new_buffer ∷ []) addr
            (lt_of_open s.store addr (live j addr e))))
  ]

  pub seen-allocate :
      (id j : String)
      → let t = (allocate id s).0 in
        seen t (lookup j t.buffers) ≡ (if str_eq id j then some [] else seen s (lookup j s.buffers))
  unfolding allocate new_buffer
  seen-allocate id j = elim (Bool-cases (str_eq id j)) [
    | inl e ↦
        rw (lookup-insert id j (length s.store) s.buffers)
          (rw e (ap contents_of (get_elem?-append_last s.store new_buffer)))
    | inr e ↦ rw (lookup-insert id j (length s.store) s.buffers) (rw e (seen-append j))
  ]

  module _ (w : Writer) (owned : (j : String) → lookup j s.buffers ≡ some w.addr → j ≡ w.id)
      (tied : Tied s.buffers w) where
    clash :
        (addr : ℕ) (j : String)
        → str_eq w.id j ≡ false
        → lookup j s.buffers ≡ some addr
        → w.addr ≢ addr
    clash addr j other e same =
        let is_own = owned j (e ∙ ap some (sym same)) in
        let bad : false ≡ true = sym other ∙ ap (str_eq w.id) is_own ∙ str_eq_refl w.id in cc

    -- A change to the writer's buffer is seen under no other id.
    seen-other :
        (f : Buffer → Buffer) (j : String)
        → str_eq w.id j ≡ false
        → seen (record s { store = update_buffer w.addr f s.store }) (lookup j s.buffers)
          ≡ seen s (lookup j s.buffers)
    seen-other f j other = elim (Option-cases (lookup j s.buffers)) [
      | inl e ↦ rw e refl
      | inr (addr, e) ↦
          rw e (ap contents_of (update_buffer-other w.addr addr f s.store (clash addr j other e)))
    ]

    pub seen-write :
        (src : List ℕ) (j : String)
        → seen (writer_write w src s) (lookup j s.buffers) ≡ (
            if str_eq w.id j
            then extend src (seen s (lookup j s.buffers))
            else seen s (lookup j s.buffers))
    unfolding writer_write
    seen-write src j = elim (Bool-cases (str_eq w.id j)) [
      | inr other ↦ rw other (seen-other (λ b. (write src b).0) j other)
      | inl same ↦ rw same (
          subst
            (λ id.
              seen (writer_write w src s) (lookup id s.buffers)
              ≡ extend src (seen s (lookup id s.buffers)))
            (str_eq_iff w.id j same) (own tied))
    ]
      where
        own :
            Tied s.buffers w
            → seen (writer_write w src s) (lookup w.id s.buffers)
              ≡ extend src (seen s (lookup w.id s.buffers))
        own (inl e) = rw e refl
        own (inr e) = rw e (contents-write w.addr src s.store (live w.id w.addr e))

    pub seen-close :
        (j : String)
        → let t = writer_close w s in
          seen t (lookup j t.buffers)
          ≡ (if str_eq w.id j then none else seen s (lookup j s.buffers))
    unfolding writer_close
    seen-close j = elim (Bool-cases (str_eq w.id j)) [
      | inl same ↦ rw (lookup-erase w.id j s.buffers) (rw same refl)
      | inr other ↦ rw (lookup-erase w.id j s.buffers) (rw other (seen-other close j other))
    ]
