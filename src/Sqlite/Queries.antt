-- ===== src/Sqlite/Queries.antt =====
-- What `query` returns, and getAllTriplesText from the file to the vectors.
use m3sec.Common.{
  ℕ, zero, suc, ◌+◌, ◌<◌, true, false, List, [], ◌∷◌, ◌++◌, some, map, Bytes, codes, ◌≡◌, arith,
  length, append-nil, append_assoc,
}
use m3sec.Common.Exec.{ok, ◌>>=◌}
use m3sec.BdbVfs.{State}
use m3sec.Sqlite.{
  Sqlite3, eq_bytes, string_of, read_values, sqlite_step, read_results, prepare_query,
  run_statement, query_db, get_all_triples_text, close_database,
}
use m3sec.Sqlite.Classify.{
  Triple, Node, triple_row, node_row, is_subject, is_predicate, is_object, gathered, pushed,
  each_triple_lem,
}

module _ (q : Sqlite3) where
  -- In the world `w` the columns from `col` on hold these texts.
  abbrev pub Columns : q.World → ℕ → List Bytes → Type 0
  Columns w col [] = Unit
  Columns w col (v ∷ vs) = (q.column_text col w ≡ some v) × Columns w (col + 1) vs

  -- The statement gives these rows of `cols` columns, and then something else than SQLITE_ROW.
  abbrev pub Steps : ℕ → q.World → List (List Bytes) → q.World → Type 0
  Steps cols w [] w' = q.step w ≡ (false, w')
  Steps cols w (r ∷ rs) w' =
      (w1 : q.World) × ((q.step w ≡ (true, w1))
        × ((length r ≡ cols) × (Columns w1 0 r × Steps cols w1 rs w')))

  -- The query can be prepared and gives these rows, with no error at the end.
  pub record Yields (query : Bytes) (w : q.World) (rows : List (List Bytes)) (w' : q.World)
      : Type 0 where
    pub prepared : q.World
    pub last : q.World
    pub prepare_eq : q.prepare query w ≡ (true, prepared)
    pub steps : Steps (q.column_count prepared) prepared rows last
    pub finalize_eq : q.finalize last ≡ w'
    pub no_error : eq_bytes (q.errmsg w') (codes "not an error") ≡ true

  module _ {F : Type 0} where
    read_values_lem :
        (n col : ℕ) (vs values : List Bytes) (s : State q.World F)
        → length vs ≡ n
        → Columns s.db col vs
        → read_values q n col values s ≡ (ok (values ++ vs), s)
    unfolding read_values string_of ◌>>=◌
    read_values_lem zero col [] values s e h = rw (append-nil values)
    read_values_lem zero col (v ∷ vs) values s e h = absurd (omega arith)
    read_values_lem (suc n) col [] values s e h = absurd (omega arith)
    read_values_lem (suc n) col (v ∷ vs) values s e (hv, h) = rw (
      hv,
      read_values_lem n (col + 1) vs (values ++ v ∷ []) s (omega arith) h,
      append_assoc values (v ∷ []) vs,
    )

    read_results_lem :
        (fuel cols : ℕ) (rows results : List (List Bytes)) (w' : q.World) (s : State q.World F)
        → Steps cols s.db rows w'
        → length rows < fuel
        → read_results q fuel cols results s ≡ (ok (results ++ rows), record s { db = w' })
    unfolding read_results sqlite_step ◌>>=◌
    read_results_lem zero cols rows results w' s h lt = absurd (omega arith)
    read_results_lem (suc fuel) cols [] results w' s h lt = rw (h, append-nil results)
    read_results_lem (suc fuel) cols (r ∷ rs) results w' s (w1, (e, (el, (hc, h)))) lt = rw (
      e,
      read_values_lem cols 0 r [] (record s { db = w1 }) el hc,
      read_results_lem fuel cols rs (results ++ r ∷ []) w' (record s { db = w1 }) h (omega arith),
      append_assoc results (r ∷ []) rs,
    )

    -- If the query can be prepared and gives some rows with no error at the end, `query` with fuel
    -- for one round more than there are rows returns just these rows and prints nothing.
    pub query_db_lem :
        (fuel : ℕ) (query : Bytes) (rows : List (List Bytes)) (w' : q.World) (s : State q.World F)
        → Yields query s.db rows w'
        → length rows < fuel
        → query_db q fuel query s ≡ (ok rows, record s { db = w' })
    unfolding query_db run_statement prepare_query ◌>>=◌
    query_db_lem fuel query rows w' s y lt = rw (
      y.prepare_eq,
      read_results_lem fuel (q.column_count y.prepared) rows [] y.last
          (record s { db = y.prepared }) y.steps lt,
      y.finalize_eq,
      y.no_error,
    )

    -- If the two queries give triples and nodes with no error, then with fuel for one round more
    -- than either has rows getAllTriplesText throws nothing, prints nothing, adds to S, P and O the
    -- texts that the triples select from the nodes, and closes the file.
    pub get_all_triples_text_lem :
        (fuel : ℕ) (ts : List Triple) (ns : List Node) (w1 w2 : q.World) (s : State q.World F)
        → Yields (codes "SELECT * FROM triple;") s.db (map triple_row ts) w1
        → Yields (codes "SELECT id, str FROM node;") w1 (map node_row ns) w2
        → length (map triple_row ts) < fuel
        → length (map node_row ns) < fuel
        → get_all_triples_text q fuel s ≡ (
          ok tt,
          pushed
              (gathered is_subject ts ns)
              (gathered is_predicate ts ns)
              (gathered is_object ts ns)
              (record s { db = q.close w2 }),
        )
    unfolding get_all_triples_text close_database ◌>>=◌
    get_all_triples_text_lem fuel ts ns w1 w2 s yt yn lt ln = rw (
      query_db_lem fuel (codes "SELECT * FROM triple;") (map triple_row ts) w1 s yt lt,
      query_db_lem fuel (codes "SELECT id, str FROM node;") (map node_row ns) w2
          (record s { db = w1 }) yn ln,
      each_triple_lem ts ns (record s { db = w2 }),
    )
