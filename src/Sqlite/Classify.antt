-- ===== src/Sqlite/Classify.antt =====
-- What `getAllTriplesText` pushes on the three vectors.
use m3sec.Common.{
  eq_bytes, Bool, not, ◌&&◌, List, [], ◌∷◌, ◌++◌, map, append-nil, append_assoc, Bytes, ◌≡◌, ap,
  ◌∙◌, if◌then◌else◌, Bool-cases, inl, inr,
}
use m3sec.Common.Exec.{ok, Exec, ◌>>=◌}
use m3sec.BdbVfs.{State}
use m3sec.BdbVfs.Vfs.{at}
use m3sec.Sqlite.{push_s, push_p, push_o, classify, each_node, each_triple}

-- A row of the table `triple`, by its three identifiers, and a row of `node`.
pub record Triple : Type 0 where
  pub s : Bytes
  pub p : Bytes
  pub o : Bytes

pub record Node : Type 0 where
  pub id : Bytes
  pub str : Bytes

abbrev pub triple_row : Triple → List Bytes
triple_row t = t.s ∷ t.p ∷ t.o ∷ []

abbrev pub node_row : Node → List Bytes
node_row n = n.id ∷ n.str ∷ []

-- The texts of the nodes that pass a test, in order.
unfoldable pub texts : (Bytes → Bool) → List Node → List Bytes
texts f [] = []
texts f (n ∷ ns) = if f n.id then n.str ∷ texts f ns else texts f ns

texts-cons :
    (f : Bytes → Bool) (n : Node) (ns : List Node)
    → texts f (n ∷ []) ++ texts f ns ≡ texts f (n ∷ ns)
unfolding texts
texts-cons f n ns = elim (Bool-cases (f n.id)) [ inl e ↦ rw e | inr e ↦ rw e ]

-- The tests in the order of the program: a node that is the subject is no predicate, and so on.
abbrev pub is_subject : Triple → Bytes → Bool
is_subject t id = eq_bytes t.s id

abbrev pub is_predicate : Triple → Bytes → Bool
is_predicate t id = not (eq_bytes t.s id) && eq_bytes t.p id

abbrev pub is_object : Triple → Bytes → Bool
is_object t id = not (eq_bytes t.s id) && (not (eq_bytes t.p id) && eq_bytes t.o id)

-- The texts that the triples add, triple by triple.
unfoldable pub gathered : (Triple → Bytes → Bool) → List Triple → List Node → List Bytes
gathered f [] ns = []
gathered f (t ∷ ts) ns = texts (f t) ns ++ gathered f ts ns

module _ {W F : Type 0} where
  -- The state with more at the end of the three vectors.
  abbrev pub pushed : List Bytes → List Bytes → List Bytes → State W F → State W F
  pushed ss ps os s = record s {
    subj_vector = s.subj_vector ++ ss;
    pred_vector = s.pred_vector ++ ps;
    obj_vector = s.obj_vector ++ os;
  }

  pushed-pushed :
      (as' ps os bs qs us : List Bytes) (s : State W F)
      → pushed bs qs us (pushed as' ps os s) ≡ pushed (as' ++ bs) (ps ++ qs) (os ++ us) s
  pushed-pushed as' ps os bs qs us s = rw (
    append_assoc s.subj_vector as' bs,
    append_assoc s.pred_vector ps qs,
    append_assoc s.obj_vector os us,
  )

  -- What the nodes add for one triple.
  abbrev added : Triple → List Node → State W F → State W F
  added t ns = pushed (texts (is_subject t) ns) (texts (is_predicate t) ns) (texts (is_object t) ns)

  classify-added :
      (t : Triple) (n : Node) (s : State W F)
      → classify (triple_row t) (node_row n) s ≡ (ok tt, added t (n ∷ []) s)
  unfolding classify texts at push_s push_p push_o ◌>>=◌
  classify-added t n s = elim (Bool-cases (eq_bytes t.s n.id)) [
    | inl e ↦ rw (e, append-nil s.pred_vector, append-nil s.obj_vector)
    | inr e ↦ elim (Bool-cases (eq_bytes t.p n.id)) [
      | inl e' ↦ rw (e, e', append-nil s.subj_vector, append-nil s.obj_vector)
      | inr e' ↦ elim (Bool-cases (eq_bytes t.o n.id)) [
        | inl u ↦ rw (e, e', u, append-nil s.subj_vector, append-nil s.pred_vector)
        | inr u ↦
            rw (
              e,
              e',
              u,
              append-nil s.subj_vector,
              append-nil s.pred_vector,
              append-nil s.obj_vector,
            )
      ]
    ]
  ]

  after_ok :
      (m k : Exec (State W F) (Unit {0})) (s r : State W F)
      → m s ≡ (ok tt, r)
      → (m >>= λ _. k) s ≡ k r
  unfolding ◌>>=◌
  after_ok m k s r e = rw e

  each_node-added :
      (t : Triple) (ns : List Node) (s : State W F)
      → each_node (triple_row t) (map node_row ns) s ≡ (ok tt, added t ns s)
  unfolding each_node texts
  each_node-added t [] s =
      unfold ◌>>=◌ in
      rw (append-nil s.subj_vector, append-nil s.pred_vector, append-nil s.obj_vector)
  each_node-added t (n ∷ ns) s =
      after_ok _ _ s (added t (n ∷ []) s) (classify-added t n s)
      ∙ each_node-added t ns (added t (n ∷ []) s)
      ∙ ap (λ (r : State W F). (ok tt, r))
          (pushed-pushed (texts (is_subject t) (n ∷ [])) (texts (is_predicate t) (n ∷ []))
            (texts (is_object t) (n ∷ [])) (texts (is_subject t) ns) (texts (is_predicate t) ns)
            (texts (is_object t) ns) s)
      ∙ (λ i. (
        ok tt,
        pushed (texts-cons (is_subject t) n ns i) (texts-cons (is_predicate t) n ns i)
            (texts-cons (is_object t) n ns i) s,
      ))

  -- The two loops of `getAllTriplesText`, on rows of three and of two columns, throw nothing. They
  -- push for each triple, in order, the texts of the nodes whose identifier is the subject on S,
  -- of those that are the predicate and not the subject on P, and of those that are the object and
  -- neither of the others on O.
  pub each_triple_lem :
      (ts : List Triple) (ns : List Node) (s : State W F)
      → each_triple (map triple_row ts) (map node_row ns) s ≡ (
        ok tt,
        pushed
            (gathered is_subject ts ns)
            (gathered is_predicate ts ns)
            (gathered is_object ts ns)
            s,
      )
  unfolding each_triple gathered
  each_triple_lem [] ns s =
      unfold ◌>>=◌ in
      rw (append-nil s.subj_vector, append-nil s.pred_vector, append-nil s.obj_vector)
  each_triple_lem (t ∷ ts) ns s =
      after_ok _ _ s (added t ns s) (each_node-added t ns s)
      ∙ each_triple_lem ts ns (added t ns s)
      ∙ ap (λ (r : State W F). (ok tt, r))
          (pushed-pushed (texts (is_subject t) ns) (texts (is_predicate t) ns)
            (texts (is_object t) ns) (gathered is_subject ts ns) (gathered is_predicate ts ns)
            (gathered is_object ts ns) s)
