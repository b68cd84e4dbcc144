-- ===== src/Tests/SqliteRuns.antt =====
-- The theorems about db.cpp at concrete inputs.
use m3sec.Common.{
  eq_bytes, ℕ, ℤ, Bool, true, false, if◌then◌else◌, get_elem?, arith, inl, inr, List, [], ◌∷◌, map,
  Bytes, codes, ◌≡◌, refl, length, pos, ◌++◌,
}
use m3sec.Common.Exec.{ok, throw, out_of_range}
use m3sec.BdbVfs.{State}
use m3sec.BdbVfs.Menu.Sessions.{start}
use m3sec.Sqlite.{Sqlite3, each_triple, get_all_triples_text}
use m3sec.Sqlite.Queries.{Yields, Steps, get_all_triples_text_lem}
use m3sec.Sqlite.Classify.{
  Triple, Node, triple_row, node_row, texts, is_subject, is_predicate, is_object, gathered, pushed,
  each_triple_lem,
}
use m3sec.Sqlite.Shapes.{IsPlain}
use m3sec.Sqlite.Program.{main_sqlite}
use m3sec.Sqlite.Program.Plain.{tree, Served, main_sqlite-plain}
use m3sec.Fusekit.{Fusekit}
use m3sec.BdbVfs.Vfs.Calls.{Call, directory, file, Builds}
use m3sec.Sqlite.Program.Loops.{IsLoop, main_sqlite-loop}
use m3sec.Tests.Memory.{unused, listing, listing-Answers}
use m3sec.BdbLaws.{Tables}

abbrev nodes : List Node
nodes =
    record { id = codes "1"; str = codes "I" }
    ∷ record { id = codes "2"; str = codes "am" }
    ∷ record { id = codes "3"; str = codes "Kirill" }
    ∷ []

abbrev plain : Triple
plain = record { s = codes "1"; p = codes "2"; o = codes "3" }

abbrev loop : Triple
loop = record { s = codes "1"; p = codes "2"; o = codes "1" }

abbrev blank : State Tables (List Bytes)
blank = start unused []

each_triple_lem_example :
    each_triple (map triple_row (plain ∷ loop ∷ [])) (map node_row nodes) blank ≡ (
      ok tt,
      pushed
          (gathered is_subject (plain ∷ loop ∷ []) nodes)
          (gathered is_predicate (plain ∷ loop ∷ []) nodes)
          (gathered is_object (plain ∷ loop ∷ []) nodes)
          blank,
    )
each_triple_lem_example = each_triple_lem (plain ∷ loop ∷ []) nodes blank

plain-IsPlain : IsPlain nodes plain
unfolding eq_bytes texts
plain-IsPlain = record {
  s_p = refl;
  s_o = refl;
  p_o = refl;
  one_s = refl;
  one_p = refl;
  one_o = refl;
}

-- The world is what the statement still has to give, the row in front being the current one, and
-- the two tables.
record Scripted : Type 0 where
  current : List Bytes
  rest : List (List Bytes)

abbrev columns_of : List (List Bytes) → ℕ
columns_of [] = 0
columns_of (r ∷ rs) = length r

abbrev next : List (List Bytes) → Bool × Scripted
next [] = (false, record { current = []; rest = [] })
next (r ∷ rs) = (true, record { current = r; rest = rs })

-- A file of some triples and three nodes.
abbrev script : List Triple → Sqlite3
script ts = record {
  World = Scripted;
  open_db = λ n w. (true, w);
  prepare = λ query w. (
    true,
    record {
      current = [];
      rest =
          if eq_bytes query (codes "SELECT * FROM triple;")
          then map triple_row ts
          else map node_row nodes;
    },
  );
  column_count = λ w. columns_of w.rest;
  step = λ w. next w.rest;
  column_text = λ n w. get_elem? w.current n;
  finalize = λ w. w;
  errmsg = λ w. codes "not an error";
  close = λ w. w;
}

abbrev nothing : Scripted
nothing = record { current = []; rest = [] }

abbrev blank_file : (A : Type 0) → State Scripted (List A)
blank_file A = record {
  db = nothing;
  fuse = [];
  subj_vector = [];
  pred_vector = [];
  obj_vector = [];
  cout = [];
  cerr = [];
}

module _ (ts : List Triple) where
  triple-Steps :
      (c : List Bytes) (us : List Triple)
      → Steps
          (script ts)
          3
          (record { current = c; rest = map triple_row us })
          (map triple_row us)
          nothing
  triple-Steps c [] = refl
  triple-Steps c (u ∷ us) = (
    record { current = triple_row u; rest = map triple_row us },
    (refl, (refl, ((refl, (refl, (refl, tt))), triple-Steps (triple_row u) us))),
  )

  node-Steps :
      (c : List Bytes) (ns : List Node)
      → Steps
          (script ts)
          2
          (record { current = c; rest = map node_row ns })
          (map node_row ns)
          nothing
  node-Steps c [] = refl
  node-Steps c (n ∷ ns) = (
    record { current = node_row n; rest = map node_row ns },
    (refl, (refl, ((refl, (refl, tt)), node-Steps (node_row n) ns))),
  )

triples-Yields :
    (t : Triple) (ts : List Triple)
    → Yields
        (script (t ∷ ts))
        (codes "SELECT * FROM triple;")
        nothing
        (map triple_row (t ∷ ts))
        nothing
unfolding eq_bytes
triples-Yields t ts = record {
  prepared = record { current = []; rest = map triple_row (t ∷ ts) };
  last = nothing;
  prepare_eq = refl;
  steps = triple-Steps (t ∷ ts) [] (t ∷ ts);
  finalize_eq = refl;
  no_error = refl;
}

nodes-Yields :
    (ts : List Triple)
    → Yields (script ts) (codes "SELECT id, str FROM node;") nothing (map node_row nodes) nothing
unfolding eq_bytes
nodes-Yields ts = record {
  prepared = record { current = []; rest = map node_row nodes };
  last = nothing;
  prepare_eq = refl;
  steps = node-Steps ts [] nodes;
  finalize_eq = refl;
  no_error = refl;
}

get_all_triples_text_lem_example :
    get_all_triples_text (script (plain ∷ [])) 4 (blank_file Bytes) ≡ (
      ok tt,
      pushed
          (gathered is_subject (plain ∷ []) nodes)
          (gathered is_predicate (plain ∷ []) nodes)
          (gathered is_object (plain ∷ []) nodes)
          (record (blank_file Bytes) { db = nothing }),
    )
get_all_triples_text_lem_example =
    get_all_triples_text_lem (script (plain ∷ [])) 4 (plain ∷ []) nodes nothing nothing
      (blank_file Bytes) (triples-Yields plain []) (nodes-Yields (plain ∷ [])) (omega arith)
      (omega arith)

loop-IsLoop : IsLoop nodes loop
unfolding eq_bytes texts
loop-IsLoop = record { s_o = refl; s_p = refl; one_p = refl }

main_sqlite-loop_example :
    (main_sqlite (script (plain ∷ loop ∷ [])) listing 4 [] (blank_file Bytes)).0
    ≡ throw out_of_range
main_sqlite-loop_example =
    main_sqlite-loop (script (plain ∷ loop ∷ [])) listing listing-Answers 4 [] (plain ∷ loop ∷ [])
      nodes nothing nothing (blank_file Bytes) refl refl (triples-Yields plain (loop ∷ []))
      (nodes-Yields (plain ∷ loop ∷ [])) (omega arith) (omega arith)
      (inl plain-IsPlain, (inr loop-IsLoop, tt)) (inr (inl loop-IsLoop))

-- Directories are paths, and the world lists the calls.
abbrev recorder : Fusekit
recorder = record {
  World = List (Call Bytes);
  Dir = Bytes;
  root = [];
  add_directory = λ d n w. (ok (d ++ (codes "/" ++ n)), w ++ directory d n ∷ []);
  add_file = λ d n c w. (ok tt, w ++ file d n c ∷ []);
  copy = λ d w. (ok d, w);
  run = λ argv w. (ok (pos 0), w);
}

recorder-Builds : Builds recorder
recorder-Builds = record {
  made = λ w. w;
  below = λ d n. d ++ (codes "/" ++ n);
  copied = λ d. d;
  add_directory_law = λ d n w. (refl, refl);
  add_file_law = λ d n c w. (refl, refl);
  copy_law = λ d w. (refl, refl);
  run_law = λ argv w. (pos 0, refl);
}

main_sqlite-plain_example :
    (c : ℤ) × ((main_sqlite (script (plain ∷ [])) recorder 4 [] (blank_file (Call Bytes))).0 ≡ ok c)
    × Served recorder recorder-Builds
        (tree recorder recorder-Builds (codes "am" ∷ []) (codes "Kirill" ∷ []))
        []
        c
unfolding recorder-Builds gathered texts eq_bytes
main_sqlite-plain_example =
    main_sqlite-plain (script (plain ∷ [])) recorder recorder-Builds 4 [] (plain ∷ []) nodes nothing
      nothing (blank_file (Call Bytes)) refl refl (triples-Yields plain [])
      (nodes-Yields (plain ∷ [])) (omega arith) (omega arith) (plain-IsPlain, tt)
