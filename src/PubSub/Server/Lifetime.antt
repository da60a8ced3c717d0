-- ===== src/PubSub/Server/Lifetime.antt =====
-- From `Allocate` to `Close` of a writer (internal/pubsubbuffer/server.go), over all histories.
use text.Mathlib.TextEquality.{eq_iff}
use taskcluster_multistage_d.Common.{
  ℕ, ◌<◌, ◌≡◌, ◌≢◌, inl, inr, ◌∙◌, not, Bool, true, false, Option, some, none, List, [], ◌∷◌, ◌++◌,
  String, arith, Option-cases, length, length-set, length-append, get_elem?, get_elem?-set,
  get_elem?-append_left, get_elem?-append_last, lt_of_get_elem?, lookup, get_elem?-append_one,
  lookup-insert, lookup-erase,
}
use taskcluster_multistage_d.PubSub.Buffer.{Buffer, new_buffer, close, write}
use taskcluster_multistage_d.PubSub.Server.{
  Server, Writer, new_server, update_buffer, allocate, writer_write, writer_close,
}

pub data Op : Type 0 where
  allocates : String → Op
  writes : ℕ → List ℕ → Op
  closes : ℕ → Op

-- The server and the writers that it gave out, oldest first. A writer may be used after its `Close`.
pub record History : Type 0 where
  pub server : Server
  pub writers : List Writer

abbrev pub on_writer : (Writer → Server → Server) → Option Writer → Server → Server
on_writer f none s = s
on_writer f (some w) s = f w s

unfoldable pub apply : Op → History → History
unfolding allocate writer_write writer_close
apply (allocates id) h =
    let (s, w) = allocate id h.server in record { server = s; writers = h.writers ++ w ∷ [] }
apply (writes k src) h = record h {
  server = on_writer (λ w. writer_write w src) (get_elem? h.writers k) h.server;
}
apply (closes k) h = record h { server = on_writer writer_close (get_elem? h.writers k) h.server }

unfoldable pub replay : List Op → History
unfolding new_server
replay [] = record { server = new_server; writers = [] }
replay (op ∷ ops) = apply op (replay ops)

-- The buffer at an address, if it is open.
abbrev pub is_open : Option Buffer → Bool
is_open none = false
is_open (some b) = not b.closed

pub record IsWell (h : History) : Type 0 where
  pub live :
      (id : String) (addr : ℕ)
      → lookup id h.server.buffers ≡ some addr
      → is_open (get_elem? h.server.store addr) ≡ true
  pub owned :
      (k : ℕ) (w : Writer) (id : String)
      → get_elem? h.writers k ≡ some w
      → lookup id h.server.buffers ≡ some w.addr
      → id ≡ w.id
  pub placed :
      (k : ℕ) (w : Writer) → get_elem? h.writers k ≡ some w → w.addr < length h.server.store

update_buffer-length :
    (addr : ℕ) (f : Buffer → Buffer) (store : List Buffer)
    → length (update_buffer addr f store) ≡ length store
update_buffer-length addr f store = elim (Option-cases (get_elem? store addr)) [
  | inl e ↦ ground arith
  | inr (b, e) ↦ ground (arith, length-set store addr (f b))
]

pub update_buffer-other :
    (addr j : ℕ) (f : Buffer → Buffer) (store : List Buffer)
    → addr ≢ j
    → get_elem? (update_buffer addr f store) j ≡ get_elem? store j
update_buffer-other addr j f store ne = elim (Option-cases (get_elem? store addr)) [
  | inl e ↦ ground arith
  | inr (b, e) ↦ ground (arith, get_elem?-set store addr j (f b), lt_of_get_elem? store addr b)
]

write-open :
    (addr j : ℕ) (src : List ℕ) (store : List Buffer)
    → is_open (get_elem? (update_buffer addr (λ b. (write src b).0) store) j)
      ≡ is_open (get_elem? store j)
unfolding write
write-open addr j src store = elim (Option-cases (get_elem? store addr)) [
  | inl e ↦ ground arith
  | inr (b, e) ↦
      ground (arith, get_elem?-set store addr j (write src b).0, lt_of_get_elem? store addr b)
]

pub lt_of_open :
    (store : List Buffer) (addr : ℕ) → is_open (get_elem? store addr) ≡ true → addr < length store
lt_of_open store addr h = elim (Option-cases (get_elem? store addr)) [
  | inl e ↦ ground arith
  | inr (b, e) ↦ lt_of_get_elem? store addr b e
]

allocate-live :
    (id : String) (h : History)
    → IsWell h
    → (j : String) (addr : ℕ) → lookup j (apply (allocates id) h).server.buffers ≡ some addr
    → is_open (get_elem? (apply (allocates id) h).server.store addr) ≡ true
unfolding apply new_buffer
allocate-live id h v j addr e = ground (
  arith,
  lookup-insert id j (length h.server.store) h.server.buffers,
  v.live j addr,
  lt_of_open h.server.store addr,
  get_elem?-append_left h.server.store (new_buffer ∷ []) addr,
  get_elem?-append_last h.server.store new_buffer,
)

allocate-owned :
    (id : String) (h : History)
    → IsWell h
    → (k : ℕ) (w : Writer) (j : String) → get_elem? (apply (allocates id) h).writers k ≡ some w
    → lookup j (apply (allocates id) h).server.buffers ≡ some w.addr
    → j ≡ w.id
unfolding apply
allocate-owned id h v k w j e m =
    elim (get_elem?-append_one h.writers (allocate id h.server).1 k w e) [
      | inl old ↦ ground (
        arith,
        lookup-insert id j (length h.server.store) h.server.buffers,
        v.placed k w old,
        v.owned k w j old,
      )
      | inr new ↦ ground (
        arith,
        eq_iff id j,
        lookup-insert id j (length h.server.store) h.server.buffers,
        v.live j (length h.server.store),
        lt_of_open h.server.store (length h.server.store),
      )
    ]

allocate-placed :
    (id : String) (h : History)
    → IsWell h
    → (k : ℕ) (w : Writer) → get_elem? (apply (allocates id) h).writers k ≡ some w
    → w.addr < length (apply (allocates id) h).server.store
unfolding apply
allocate-placed id h v k w e =
    elim (get_elem?-append_one h.writers (allocate id h.server).1 k w e) [
      | inl old ↦ omega (arith, v.placed k w old, length-append h.server.store (new_buffer ∷ []))
      | inr new ↦ ground (arith, length-append h.server.store (new_buffer ∷ []))
    ]

allocate-IsWell : (id : String) (h : History) → IsWell h → IsWell (apply (allocates id) h)
allocate-IsWell id h v = record {
  live = allocate-live id h v;
  owned = allocate-owned id h v;
  placed = allocate-placed id h v;
}

write-IsWell : (k : ℕ) (src : List ℕ) (h : History) → IsWell h → IsWell (apply (writes k src) h)
unfolding apply
write-IsWell k src h v = elim (Option-cases (get_elem? h.writers k)) [
  | inl e ↦ rw (e, apply) v
  | inr (w, e) ↦
      rw (e, apply)
        (record {
          live = λ j addr m. write-open w.addr addr src h.server.store ∙ v.live j addr m;
          owned = v.owned;
          placed = λ i x p. omega (
            arith,
            v.placed i x p,
            update_buffer-length w.addr (λ b. (write src b).0) h.server.store,
          );
        })
]

-- The buffer that a close reaches in the map is the writer's own, and has left the map.
close-live :
    (w : Writer) (k : ℕ) (h : History)
    → IsWell h
    → get_elem? h.writers k ≡ some w
    → (j : String) (addr : ℕ) → lookup j (writer_close w h.server).buffers ≡ some addr
    → is_open (get_elem? (writer_close w h.server).store addr) ≡ true
unfolding writer_close
close-live w k h v e j addr m = ground (
  arith,
  eq_iff w.id j,
  lookup-erase w.id j h.server.buffers,
  v.live j addr,
  v.owned k w j e,
  update_buffer-other w.addr addr close h.server.store,
)

close-owned :
    (w : Writer) (h : History)
    → IsWell h
    → (i : ℕ) (x : Writer) (j : String) → get_elem? h.writers i ≡ some x
    → lookup j (writer_close w h.server).buffers ≡ some x.addr
    → j ≡ x.id
unfolding writer_close
close-owned w h v i x j e m = ground (arith, lookup-erase w.id j h.server.buffers, v.owned i x j e)

close-IsWell : (k : ℕ) (h : History) → IsWell h → IsWell (apply (closes k) h)
unfolding apply
close-IsWell k h v = elim (Option-cases (get_elem? h.writers k)) [
  | inl e ↦ rw (e, apply) v
  | inr (w, e) ↦
      rw (e, apply)
        (record {
          live = close-live w k h v e;
          owned = close-owned w h v;
          placed = λ i x p.
              omega (arith, v.placed i x p, update_buffer-length w.addr close h.server.store);
        })
]

pub replay-IsWell : (ops : List Op) → IsWell (replay ops)
unfolding replay lookup
replay-IsWell [] = record { live = λ id addr e. cc; owned = λ k w id e m. cc; placed = λ k w e. cc }
replay-IsWell (allocates id ∷ ops) = allocate-IsWell id (replay ops) (replay-IsWell ops)
replay-IsWell (writes k src ∷ ops) = write-IsWell k src (replay ops) (replay-IsWell ops)
replay-IsWell (closes k ∷ ops) = close-IsWell k (replay ops) (replay-IsWell ops)
