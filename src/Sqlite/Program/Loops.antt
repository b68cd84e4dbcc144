-- ===== src/Sqlite/Program/Loops.antt =====
-- A triple whose subject is its object makes main.cpp ask for an object that is not there.
use m3sec.Common.{
  ℕ, ◌+◌, ◌≤◌, ◌<◌, Bool, eq_bytes, Bool-cases, false, List, [], ◌∷◌, ◌++◌, map, Bytes, codes, ◌≡◌,
  refl, ap, ◌⊎◌, inl, inr, arith, length, length-append, All,
}
use m3sec.Common.Exec.{throw, out_of_range, ◌>>=◌}
use m3sec.Common.Exec.Throws.{Throws, Throws-assume, Throws-first, Throws-then}
use m3sec.Fusekit.{Fusekit}
use m3sec.BdbVfs.{State, on_fuse}
use m3sec.BdbVfs.Vfs.Total.{
  Answers, Rows, add_directory-Rows, get_subjs, get_preds, get_objs, print_subjects-Rows,
}
use m3sec.BdbVfs.Vfs.Total.Short.{fill_subjects-Throws}
use m3sec.Sqlite.{Sqlite3, new_db, open_database}
use m3sec.Sqlite.Classify.{
  Triple, Node, triple_row, node_row, texts, is_predicate, is_object, gathered,
}
use m3sec.Sqlite.Queries.{Yields, get_all_triples_text_lem}
use m3sec.Sqlite.Shapes.{
  IsPlain, texts-ext, texts_of_false, eq_bytes-other, no_object, one_predicate, one_object,
}
use m3sec.Sqlite.Program.{build, main_sqlite}

-- The subject is the object, and the predicate another identifier, which is that of one node.
pub record IsLoop (ns : List Node) (t : Triple) : Type 0 where
  pub s_o : t.s ≡ t.o
  pub s_p : eq_bytes t.s t.p ≡ false
  pub one_p : length (texts (eq_bytes t.p) ns) ≡ 1

abbrev pub PlainOrLoop : List Node → Triple → Type 0
PlainOrLoop ns t = IsPlain ns t ⊎ IsLoop ns t

abbrev pub HasLoop : List Node → List Triple → Type 0
HasLoop ns [] = ⊥
HasLoop ns (t ∷ ts) = IsLoop ns t ⊎ HasLoop ns ts

module _ (ns : List Node) (t : Triple) where
  loop-predicate : IsLoop ns t → length (texts (is_predicate t) ns) ≡ 1
  loop-predicate h = rw (texts-ext (is_predicate t) (eq_bytes t.p) ns same) h.one_p
    where
      same : (id : Bytes) → is_predicate t id ≡ eq_bytes t.p id
      same id = elim (Bool-cases (eq_bytes t.p id)) [
        | inl e ↦ rw (e, eq_bytes-other t.s t.p id h.s_p e)
        | inr e ↦ ground arith
      ]

  loop-object : IsLoop ns t → length (texts (is_object t) ns) ≡ 0
  loop-object h = rw (texts_of_false (is_object t) ns (no_object t h.s_o)) refl

  -- One predicate, and an object at most.
  counts :
      PlainOrLoop ns t
      → (length (texts (is_predicate t) ns) ≡ 1) × (length (texts (is_object t) ns) ≤ 1)
  counts (inl h) = (one_predicate ns t h, omega (arith, one_object ns t h))
  counts (inr h) = (loop-predicate h, omega (arith, loop-object h))

module _ (ns : List Node) where
  length-gathered-cons :
      (f : Triple → Bytes → Bool) (t : Triple) (ts : List Triple)
      → length (gathered f (t ∷ ts) ns) ≡ length (texts (f t) ns) + length (gathered f ts ns)
  unfolding gathered
  length-gathered-cons f t ts = length-append (texts (f t) ns) (gathered f ts ns)

  objects-le :
      (ts : List Triple)
      → All (PlainOrLoop ns) ts
      → length (gathered is_object ts ns) ≤ length (gathered is_predicate ts ns)
  objects-le [] h = unfold gathered in omega arith
  objects-le (t ∷ ts) (ht, h) =
      let (one, few) = counts ns t ht in
      omega (
        arith,
        one,
        few,
        objects-le ts h,
        length-gathered-cons is_object t ts,
        length-gathered-cons is_predicate t ts,
      )

  objects-lt :
      (ts : List Triple)
      → All (PlainOrLoop ns) ts
      → HasLoop ns ts
      → length (gathered is_object ts ns) < length (gathered is_predicate ts ns)
  objects-lt [] h l = absurd l
  objects-lt (t ∷ ts) (ht, h) (inl l) = omega (
    arith,
    loop-predicate ns t l,
    loop-object ns t l,
    objects-le ts h,
    length-gathered-cons is_object t ts,
    length-gathered-cons is_predicate t ts,
  )
  objects-lt (t ∷ ts) (ht, h) (inr l) =
      let (one, few) = counts ns t ht in
      omega (
        arith,
        one,
        few,
        objects-lt ts h l,
        length-gathered-cons is_object t ts,
        length-gathered-cons is_predicate t ts,
      )

module _ (W : Type 0) (f : Fusekit) (answers : Answers f) where
  build-Throws :
      (ps os : List Bytes)
      → length os < length ps
      → Throws (Rows W f answers ps os) (build W f) out_of_range
  unfolding build
  build-Throws ps os short =
      let directory = add_directory-Rows W f answers ps os in
      Throws-then _ _ _ (directory _ _) λ o. Throws-then _ _ _ (directory _ _) λ s.
        Throws-then _ _ _ (directory _ _) λ p.
          Throws-then _ _ _ (get_subjs W f answers ps os) λ subjs.
            Throws-then _ _ _ (get_preds W f answers ps os) λ preds. Throws-assume _ _ λ ep.
              Throws-then _ _ _ (get_objs W f answers ps os) λ objs. Throws-assume _ _ λ eo.
                Throws-then _ _ _ (print_subjects-Rows W f answers ps os subjs) λ _.
                  Throws-first _ _ _ (
                    fill_subjects-Throws W f answers ps os s preds objs (
                      omega (arith, short, ap (length {A = Bytes}) ep, ap (length {A = Bytes}) eo)))

module _ (q : Sqlite3) (f : Fusekit) (answers : Answers f) where
  -- If the two queries give triples and nodes with no error, each triple has three different
  -- identifiers, each of one node, or a subject that is its object, with another predicate, of one
  -- node, at least one is of the second kind, the vectors of DB are empty at first, fusekit's calls
  -- return, and there is fuel for one round more than rows, then main ends by the `out_of_range` of
  -- a vector, which nothing catches.
  pub main_sqlite-loop :
      (fuel : ℕ) (argv : List Bytes) (ts : List Triple) (ns : List Node) (w1 w2 : q.World)
      (s : State q.World f.World)
      → s.pred_vector ≡ []
      → s.obj_vector ≡ []
      → Yields q
          (codes "SELECT * FROM triple;")
          (q.open_db (codes "X") s.db).1
          (map triple_row ts)
          w1
      → Yields q (codes "SELECT id, str FROM node;") w1 (map node_row ns) w2
      → length (map triple_row ts) < fuel
      → length (map node_row ns) < fuel
      → All (PlainOrLoop ns) ts
      → HasLoop ns ts
      → (main_sqlite q f fuel argv s).0 ≡ throw out_of_range
  unfolding main_sqlite new_db open_database ◌>>=◌
  main_sqlite-loop fuel argv ts ns w1 w2 s no_preds no_objs yt yn lt ln kinds loop =
      let s1 = record s { db = (q.open_db (codes "X") s.db).1 } in
      let ps = gathered is_predicate ts ns in
      let os = gathered is_object ts ns in
      let thrown =
        (Throws-first _ (λ _. on_fuse (f.run argv)) _
          (build-Throws q.World f answers ps os (objects-lt ns ts kinds loop))).at in
      rw (get_all_triples_text_lem q fuel ts ns w1 w2 s1 yt yn lt ln)
        (thrown _ (ap (λ v. v ++ ps) no_preds, ap (λ v. v ++ os) no_objs))
