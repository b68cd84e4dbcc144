-- ===== src/BdbVfs.antt =====
-- sib_fs_mapping/berkeley/bdb_vfs/src/bdb_vfs.cpp: the three tables of triples, the vectors that
-- they are read into, and (in `Vfs` and `Menu`) the file system that is built from the vectors.
pub mod Vfs
pub mod Menu
pub mod Aligned
pub mod Reports
pub mod Loaded
pub mod Contents
pub mod Printed
use m3sec.Common.{
  ℕ, zero, suc, ℤ, pos, minus_one, List, [], ◌∷◌, ◌++◌, none, some, Bytes, codes, with_nul,
  c_string,
}
use m3sec.Common.Exec.{Exn, db_exception, Exec, pure, diverge, modify, on, try_catch, ◌>>=◌, ◌>>◌}
use m3sec.Bdb.{Bdb, db_s, db_p, db_o, dup, create_truncate}
use m3sec.Rows.{Fetched, next_row, line_of}
use m3sec.Console.{Chunk, what, endl, lit}

-- The globals of the program, the worlds of the two libraries, and what was printed.
pub record State (W F : Type 0) : Type 0 where
  pub db : W
  pub fuse : F
  pub subj_vector : List Bytes
  pub pred_vector : List Bytes
  pub obj_vector : List Bytes
  pub cout : List Chunk
  pub cerr : List Chunk

module _ {W F : Type 0} where
  -- cout << … << endl
  unfoldable pub say : List Chunk → Exec (State W F) (Unit {0})
  say line = modify λ s. record s { cout = s.cout ++ (line ++ endl ∷ []) }

  unfoldable pub complain : List Chunk → Exec (State W F) (Unit {0})
  complain line = modify λ s. record s { cerr = s.cerr ++ (line ++ endl ∷ []) }

  -- A call of Berkeley DB.
  unfoldable pub on_db : {A : Type 0} → Exec W A → Exec (State W F) A
  on_db = on (λ s. s.db) (λ s w. record s { db = w })

  -- A call of fusekit.
  unfoldable pub on_fuse : {A : Type 0} → Exec F A → Exec (State W F) A
  on_fuse = on (λ s. s.fuse) (λ s w. record s { fuse = w })

  -- The two catch clauses at the end of every function.
  unfoldable pub report : Exn → Exec (State W F) ℤ
  report (db_exception n) = do
    complain (lit "DbException: " ∷ what (db_exception n) ∷ [])
    pure minus_one
  report e = do complain (what e ∷ []); pure minus_one

  -- The body of the loop of `printDbData`.
  unfoldable pub push_row : Fetched → Exec (State W F) (Unit {0})
  push_row r = do
    say (line_of (codes "S: ") r.key_s r.data_s)
    modify (λ s. record s { subj_vector = s.subj_vector ++ c_string r.data_s ∷ [] })
    say (line_of (codes "P: ") r.key_p r.data_p)
    modify (λ s. record s { pred_vector = s.pred_vector ++ c_string r.data_p ∷ [] })
    say (line_of (codes "O: ") r.key_o r.data_o)
    modify (λ s. record s { obj_vector = s.obj_vector ++ c_string r.data_o ∷ [] })

module _ (b : Bdb) {F : Type 0} where
  pub create_db : Exec (State b.World F) ℤ
  create_db =
      try_catch
        (do
          say (lit "Open DB" ∷ [])
          on_db (b.set_flags db_s dup)
          on_db (b.set_flags db_p dup)
          on_db (b.set_flags db_o dup)
          on_db (b.open_db db_s (codes "s.db") create_truncate)
          on_db (b.open_db db_p (codes "p.db") create_truncate)
          on_db (b.open_db db_o (codes "o.db") create_truncate)
          pure (pos 0))
        report

  pub close_db : Exec (State b.World F) ℤ
  close_db =
      try_catch
        (do
          say (lit "Closing DB ..." ∷ [])
          on_db (b.close db_s)
          on_db (b.close db_p)
          on_db (b.close db_o)
          say (lit "DB closed!" ∷ [])
          pure (pos 0))
        report

  -- A key is `Dbt(data, size())`, a value `Dbt(data, size() + 1)`.
  pub insert_db_data : Exec (State b.World F) ℤ
  insert_db_data =
      let subj_key = codes "subject" in
      let pred_key = codes "predicate" in
      let obj_key = codes "object" in
      try_catch
        (do
          say (lit "Inserting data ..." ∷ [])
          on_db (b.put db_s subj_key (with_nul (codes "I")))
          on_db (b.put db_s subj_key (with_nul (codes "Kirill")))
          on_db (b.put db_s subj_key (with_nul (codes "Katya")))
          on_db (b.put db_p pred_key (with_nul (codes "am")))
          on_db (b.put db_p pred_key (with_nul (codes "has")))
          on_db (b.put db_p pred_key (with_nul (codes "sister of")))
          on_db (b.put db_o obj_key (with_nul (codes "Kirill.")))
          on_db (b.put db_o obj_key (with_nul (codes "a sister.")))
          on_db (b.put db_o obj_key (with_nul (codes "Kirill")))
          pure (pos 0))
        report

  unfoldable pub read_rows : ℕ → Exec (State b.World F) (Unit {0})
  read_rows zero = diverge
  read_rows (suc fuel) = do
    row ← on_db (next_row b)
    elim row [ none ↦ pure tt | some r ↦ push_row r >> read_rows fuel ]

  pub print_db_data : ℕ → Exec (State b.World F) ℤ
  print_db_data fuel =
      try_catch
        (do
          say (lit "Output data ..." ∷ [])
          on_db (b.cursor db_s)
          on_db (b.cursor db_p)
          on_db (b.cursor db_o)
          read_rows fuel
          on_db (b.close_cursor db_s)
          on_db (b.close_cursor db_p)
          on_db (b.close_cursor db_o)
          pure (pos 0))
        report
