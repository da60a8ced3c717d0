-- ===== src/PubSub/Server/Board/Refinement.antt =====
-- The server of internal/pubsubbuffer/server.go and the board of logs.
use Prim.Native.Char.{Char}
use taskcluster_multistage_d.Common.{
  ℕ, zero, suc, map, ◌≡◌, ◌⊎◌, refl, sym, subst, ap, inl, inr, ◌∙◌, Bool, true, false, Option, some,
  none, List, [], ◌∷◌, ◌++◌, String, arith, length, get_elem?, str_eq, str_eq_refl, if◌then◌else◌,
  lookup, insert, get_elem?-append_one, lookup-insert, lookup-erase,
}
use taskcluster_multistage_d.PubSub.Server.{
  Server, Writer, allocate, writer_write, writer_close, Answer, crashes, responds, serves,
  serve_http, new_server, get_buffer, answer_route, answer_buffer,
}
use taskcluster_multistage_d.PubSub.Server.Paths.{Names, route_iff}
use taskcluster_multistage_d.PubSub.Server.Lifetime.{
  on_writer, Op, allocates, writes, closes, History, apply, replay, replay-IsWell,
}
use taskcluster_multistage_d.PubSub.Server.Board.{allocated, is_id, extend, board, IsNew, AllNew}
use taskcluster_multistage_d.PubSub.Server.Board.Views.{
  contents_of, seen, Tied, seen-allocate, seen-write, seen-close,
}

abbrev pub id_of : Option Writer → Option String
id_of none = none
id_of (some w) = some w.id

-- What the histories of a board and a server have in common.
record Agrees (ops : List Op) (h : History) : Type 0 where
  ids : map (λ w. w.id) h.writers ≡ allocated ops
  tied : (k : ℕ) (w : Writer) → get_elem? h.writers k ≡ some w → Tied h.server.buffers w
  views : (j : String) → seen h.server (lookup j h.server.buffers) ≡ board ops j

get_elem?-ids :
    (ws : List Writer) (k : ℕ) → id_of (get_elem? ws k) ≡ get_elem? (map (λ w. w.id) ws) k
get_elem?-ids [] k = refl
get_elem?-ids (w ∷ ws) zero = refl
get_elem?-ids (w ∷ ws) (suc k) = get_elem?-ids ws k

ids-append :
    (ws : List Writer) (w : Writer)
    → map (λ w. w.id) (ws ++ w ∷ []) ≡ map (λ w. w.id) ws ++ w.id ∷ []
ids-append [] w = refl
ids-append (v ∷ ws) w = ap (λ t. v.id ∷ t) (ids-append ws w)

-- A new id is none of those given out.
IsNew-other :
    (id : String) (ws : List Writer) (k : ℕ) (w : Writer)
    → IsNew id (map (λ w. w.id) ws)
    → get_elem? ws k ≡ some w
    → str_eq id w.id ≡ false
IsNew-other id [] k w fresh e = cc
IsNew-other id (v ∷ ws) zero w fresh e = ground (arith, fresh.0)
IsNew-other id (v ∷ ws) (suc k) w fresh e = IsNew-other id ws k w fresh.1 e

module _ (ops : List Op) (agrees : Agrees ops (replay ops)) where
  -- The writer that an operation names, on the board.
  id_at : (k : ℕ) → get_elem? (allocated ops) k ≡ id_of (get_elem? (replay ops).writers k)
  id_at k =
      sym (ap (λ ids. get_elem? ids k) agrees.ids) ∙ sym (get_elem?-ids (replay ops).writers k)

  Tied-insert :
      (id : String) (w v : Writer) (k : ℕ)
      → IsNew id (allocated ops)
      → v ≡ record { addr = length (replay ops).server.store; id = id }
      → (get_elem? (replay ops).writers k ≡ some w) ⊎ (w ≡ v)
      → Tied (insert id (length (replay ops).server.store) (replay ops).server.buffers) w
  Tied-insert id w v k fresh new (inr same) =
      subst (Tied (insert id (length (replay ops).server.store) (replay ops).server.buffers))
        (sym (same ∙ new))
        (inr (
          lookup-insert id id (length (replay ops).server.store) (replay ops).server.buffers
          ∙ ap
              (λ b.
                if b
                then some (length (replay ops).server.store)
                else lookup id (replay ops).server.buffers)
              (str_eq_refl id)))
  Tied-insert id w v k fresh new (inl old) =
      let other =
        IsNew-other id (replay ops).writers k w (subst (IsNew id) (sym agrees.ids) fresh) old in
      rw (lookup-insert id w.id (length (replay ops).server.store) (replay ops).server.buffers)
        (rw other (agrees.tied k w old))

  Agrees-allocates :
      (id : String)
      → IsNew id (allocated ops)
      → Agrees (allocates id ∷ ops) (replay (allocates id ∷ ops))
  unfolding replay apply allocate
  Agrees-allocates id fresh = record {
    ids = ids-append (replay ops).writers _ ∙ ap (λ t. t ++ id ∷ []) agrees.ids;
    tied = λ k w e.
        Tied-insert id w _ k fresh refl (get_elem?-append_one (replay ops).writers _ k w e);
    views = λ j.
        seen-allocate (replay ops).server (replay-IsWell ops).live id j
        ∙ ap (λ t. if str_eq id j then some [] else t) (agrees.views j);
  }

  Agrees-write :
      (k : ℕ) (src : List ℕ) (o : Option Writer)
      → get_elem? (replay ops).writers k ≡ o
      → Agrees (writes k src ∷ ops) (record (replay ops) {
        server = on_writer (λ w. writer_write w src) o (replay ops).server;
      })
  unfolding writer_write
  Agrees-write k src none e = record {
    ids = agrees.ids;
    tied = agrees.tied;
    views = λ j.
        agrees.views j
        ∙ sym (
            ap (λ o. if is_id o j then extend src (board ops j) else board ops j)
              (id_at k ∙ ap id_of e));
  }
  Agrees-write k src (some w) e = record {
    ids = agrees.ids;
    tied = agrees.tied;
    views = λ j.
        seen-write (replay ops).server (replay-IsWell ops).live w
          (λ i. (replay-IsWell ops).owned k w i e) (agrees.tied k w e) src j
        ∙ ap (λ t. if str_eq w.id j then extend src t else t) (agrees.views j)
        ∙ sym (
            ap (λ o. if is_id o j then extend src (board ops j) else board ops j)
              (id_at k ∙ ap id_of e));
  }

  Agrees-close :
      (k : ℕ) (o : Option Writer)
      → get_elem? (replay ops).writers k ≡ o
      → Agrees
          (closes k ∷ ops)
          (record (replay ops) { server = on_writer writer_close o (replay ops).server })
  unfolding writer_close
  Agrees-close k none e = record {
    ids = agrees.ids;
    tied = agrees.tied;
    views = λ j.
        agrees.views j
        ∙ sym (ap (λ o. if is_id o j then none else board ops j) (id_at k ∙ ap id_of e));
  }
  Agrees-close k (some w) e = record {
    ids = agrees.ids;
    tied = λ i x p.
        rw (lookup-erase w.id x.id (replay ops).server.buffers)
          (erased x (str_eq w.id x.id) (agrees.tied i x p));
    views = λ j.
        seen-close (replay ops).server (replay-IsWell ops).live w
          (λ i. (replay-IsWell ops).owned k w i e) (agrees.tied k w e) j
        ∙ ap (λ t. if str_eq w.id j then none else t) (agrees.views j)
        ∙ sym (ap (λ o. if is_id o j then none else board ops j) (id_at k ∙ ap id_of e));
  }
    where
      erased :
          (x : Writer) (same : Bool)
          → Tied (replay ops).server.buffers x
          → ((if same then none else lookup x.id (replay ops).server.buffers) ≡ none)
            ⊎ ((if same then none else lookup x.id (replay ops).server.buffers) ≡ some x.addr)
      erased x true tied = inl refl
      erased x false tied = tied

replay-Agrees : (ops : List Op) → AllNew ops → Agrees ops (replay ops)
unfolding replay apply new_server lookup
replay-Agrees [] new = record { ids = refl; tied = λ k w e. cc; views = λ j. refl }
replay-Agrees (allocates id ∷ ops) new = Agrees-allocates ops (replay-Agrees ops new.1) id new.0
replay-Agrees (writes k src ∷ ops) new =
    Agrees-write ops (replay-Agrees ops new) k src (get_elem? (replay ops).writers k) refl
replay-Agrees (closes k ∷ ops) new =
    Agrees-close ops (replay-Agrees ops new) k (get_elem? (replay ops).writers k) refl

-- What an answer gives to read: the contents of the buffer that serves it.
abbrev pub answered : Server → Answer → Option (List ℕ)
answered s crashes = none
answered s (responds r) = none
answered s (serves addr) = contents_of (get_elem? s.store addr)

answered-answer_buffer : (s : Server) (o : Option ℕ) → answered s (answer_buffer o) ≡ seen s o
answered-answer_buffer s none = refl
answered-answer_buffer s (some addr) = refl

-- The server refines the board: after any history in which no id is given out twice, a request for a
-- path of an id is answered from a buffer exactly if the id's log is on the board, that is, was
-- allocated and not closed since, and the buffer holds what its writer wrote, all of it and nothing
-- else.
pub serve_http-board :
    (ops : List Op) (c : Char) (path id : String)
    → AllNew ops
    → Names path id
    → answered (replay ops).server (serve_http (String.◌∷◌ c path) (replay ops).server)
      ≡ board ops id
unfolding serve_http get_buffer
serve_http-board ops c path id new named =
    let s = (replay ops).server in
    ap (λ r. answered s (answer_route r s)) ((route_iff c path id).1 named)
    ∙ answered-answer_buffer s (lookup id s.buffers)
    ∙ (replay-Agrees ops new).views id
