-- ===== src/Sqlite.antt =====
-- sib_fs_mapping/sqlite/db.cpp: the class DB, which reads the triples of an SQLite file into three
-- vectors. The object's vectors S, P, O are those of the shared `State`; sqlite3 is an interface.
pub mod Classify
pub mod Shapes
pub mod Queries
pub mod Program
use m3sec.Common.{
  eq_bytes, ℕ, zero, suc, ◌+◌, Bool, true, false, ◌&&◌, List, [], ◌∷◌, ◌++◌, Option, none, some,
  Bytes, codes, ◌==◌, if◌then◌else◌,
}
use m3sec.Common.Exec.{
  Exec, Outcome, ok, throw, std_exception, pure, diverge, gets, lift, modify, ◌>>=◌, ◌>>◌,
}
use m3sec.Console.{text, lit}
use m3sec.BdbVfs.{State, say}
use m3sec.BdbVfs.Vfs.{at}

-- The C interface of sqlite3 on one connection and one statement at a time; it throws nothing.
-- `prepare` and `open_db` are whether the call returned SQLITE_OK, `step` whether it returned
-- SQLITE_ROW; `column_text` is none for an SQL NULL.
pub record Sqlite3 : Type 1 where
  pub World : Type 0
  pub open_db : Bytes → World → Bool × World
  pub prepare : Bytes → World → Bool × World
  pub column_count : World → ℕ
  pub step : World → Bool × World
  pub column_text : ℕ → World → Option Bytes
  pub finalize : World → World
  pub errmsg : World → Bytes
  pub close : World → World

-- `std::string` of the pointer: a null pointer is undefined behaviour, which libstdc++ turns into
-- a `std::logic_error`.
string_of : Option Bytes → Outcome Bytes
string_of none = throw (std_exception (codes "basic_string: construction from null is not valid"))
string_of (some s) = ok s

module _ (q : Sqlite3) {F : Type 0} where
  -- DB::open
  unfoldable pub open_database : Bytes → Exec (State q.World F) Bool
  open_database filename s =
      let (done, w) = q.open_db filename s.db in (ok done, record s { db = w })

  -- DB::DB: the result of `open` is dropped.
  unfoldable pub new_db : Bytes → Exec (State q.World F) (Unit {0})
  new_db filename = open_database filename >> pure tt

  -- DB::close
  close_database : Exec (State q.World F) (Unit {0})
  close_database = modify λ s. record s { db = q.close s.db }

  -- for (int col = 0; col < cols; col++): the first number is the columns left
  read_values : ℕ → ℕ → List Bytes → Exec (State q.World F) (List Bytes)
  read_values zero col values = pure values
  read_values (suc n) col values = do
    s ← gets (λ s. s.db)
    v ← lift (string_of (q.column_text col s))
    read_values n (col + 1) (values ++ v ∷ [])

  sqlite_step : Exec (State q.World F) Bool
  sqlite_step s = let (row, w) = q.step s.db in (ok row, record s { db = w })

  -- while (true) { result = sqlite3_step(statement); … }
  read_results : ℕ → ℕ → List (List Bytes) → Exec (State q.World F) (List (List Bytes))
  read_results zero cols results = diverge
  read_results (suc fuel) cols results = do
    row ← sqlite_step
    elim row [
      | true ↦ do values ← read_values cols 0 []; read_results fuel cols (results ++ values ∷ [])
      | false ↦ pure results
    ]

  prepare_query : Bytes → Exec (State q.World F) Bool
  prepare_query query s = let (done, w) = q.prepare query s.db in (ok done, record s { db = w })

  -- The rows of the statement, if it could be prepared.
  run_statement : ℕ → Bytes → Exec (State q.World F) (List (List Bytes))
  run_statement fuel query = do
    prepared ← prepare_query query
    elim prepared [
      | true ↦ do
        w ← gets (λ s. s.db)
        results ← read_results fuel (q.column_count w) []
        modify (λ s. record s { db = q.finalize s.db })
        pure results
      | false ↦ pure []
    ]

  -- DB::query
  pub query_db : ℕ → Bytes → Exec (State q.World F) (List (List Bytes))
  query_db fuel query = do
    results ← run_statement fuel query
    error ← gets (λ s. q.errmsg s.db)
    (if eq_bytes error (codes "not an error")
        then pure tt
        else say (text query ∷ lit " " ∷ text error ∷ []))
    pure results

module _ {W F : Type 0} where
  push_s : Bytes → Exec (State W F) (Unit {0})
  push_s x = modify λ s. record s { subj_vector = s.subj_vector ++ x ∷ [] }

  push_p : Bytes → Exec (State W F) (Unit {0})
  push_p x = modify λ s. record s { pred_vector = s.pred_vector ++ x ∷ [] }

  push_o : Bytes → Exec (State W F) (Unit {0})
  push_o x = modify λ s. record s { obj_vector = s.obj_vector ++ x ∷ [] }

  -- if (triples.at(column) == str.at(0)) push(str.at(1)); else …
  match_column :
      ℕ
      → List Bytes
      → List Bytes
      → (Bytes → Exec (State W F) (Unit {0}))
      → Exec (State W F) (Unit {0})
      → Exec (State W F) (Unit {0})
  match_column column triple str push otherwise = do
    id ← lift (at triple column)
    node ← lift (at str 0)
    if eq_bytes id node then (do x ← lift (at str 1); push x) else otherwise

  -- The body of the inner loop.
  classify : List Bytes → List Bytes → Exec (State W F) (Unit {0})
  unfolding match_column
  classify triple str =
      match_column 0 triple str push_s
        (match_column 1 triple str push_p (match_column 2 triple str push_o (pure tt)))

  each_node : List Bytes → List (List Bytes) → Exec (State W F) (Unit {0})
  each_node triple [] = pure tt
  each_node triple (str ∷ nodes) = classify triple str >> each_node triple nodes

  -- The two loops that turn identifiers into texts.
  pub each_triple : List (List Bytes) → List (List Bytes) → Exec (State W F) (Unit {0})
  each_triple [] nodes = pure tt
  each_triple (triple ∷ triples) nodes = each_node triple nodes >> each_triple triples nodes

module _ (q : Sqlite3) {F : Type 0} where
  -- DB::getAllTriplesText
  pub get_all_triples_text : ℕ → Exec (State q.World F) (Unit {0})
  get_all_triples_text fuel = do
    triples ← query_db q fuel (codes "SELECT * FROM triple;")
    nodes_id_str ← query_db q fuel (codes "SELECT id, str FROM node;")
    each_triple triples nodes_id_str
    close_database q
