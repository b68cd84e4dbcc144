-- ===== src/TripleDb/Database.antt =====
-- The class MyDb (MyDb.cpp): a database whose errors are reported and swallowed.
pub mod Total
pub mod Quiet
use m3sec.Common.{Bool, true, false, List, [], ◌∷◌, ◌++◌, Bytes, codes, ◌≢◌}
use m3sec.Common.Exec.{Exn, Exec, running, pure, gets, modify, on, try_catch, ◌>>=◌, ◌>>◌}
use m3sec.Console.{Chunk, text, lit, what, endl}

-- The calls of Berkeley DB on one database; each may throw. `set_dupsort` is `set_flags(DB_DUPSORT)`
-- and `open_db` is `open` with DB_CREATE.
pub record Db : Type 1 where
  pub World : Type 0
  pub set_dupsort : Exec World (Unit {0})
  pub open_db : Bytes → Exec World (Unit {0})
  pub close : Exec World (Unit {0})
  pub put : Bytes → Bytes → Exec World (Unit {0})

-- `set_flags`, `open` and `close` return or throw.
pub record DbResponds (b : Db) : Type 0 where
  pub set_dupsort : (w : b.World) → (b.set_dupsort w).0 ≢ running
  pub open_db : (n : Bytes) (w : b.World) → (b.open_db n w).0 ≢ running
  pub close : (w : b.World) → (b.close w).0 ≢ running

-- A MyDb: the world of its `db_`, its file name, and what was printed.
pub record MyDb (W : Type 0) : Type 0 where
  pub db : W
  pub db_file_name : Bytes
  pub cout : List Chunk
  pub cerr : List Chunk

module _ {W : Type 0} where
  pub on_db : {A : Type 0} → Exec W A → Exec (MyDb W) A
  on_db = on (λ s. s.db) (λ s w. record s { db = w })

  -- The two catch clauses of both functions, which differ in one word.
  report_error : Bytes → Exn → Exec (MyDb W) (Unit {0})
  report_error doing e = modify λ s. record s {
    cerr =
        s.cerr
        ++ lit "Error "
          ∷ text doing
          ∷ lit " database: "
          ∷ text s.db_file_name
          ∷ lit "\n"
          ∷ what e
          ∷ endl
          ∷ [];
  }

module _ (b : Db) where
  -- if (isSecondary) db_.set_flags(DB_DUPSORT);
  set_secondary : Bool → Exec (MyDb b.World) (Unit {0})
  set_secondary true = on_db b.set_dupsort
  set_secondary false = pure tt

  -- MyDb::MyDb, the body, but for `set_error_stream`
  pub new_my_db : Bool → Exec (MyDb b.World) (Unit {0})
  new_my_db is_secondary =
      try_catch
        (do set_secondary is_secondary; name ← gets (λ s. s.db_file_name); on_db (b.open_db name))
        (report_error (codes "opening"))

  -- MyDb::close
  pub close_my_db : Exec (MyDb b.World) (Unit {0})
  close_my_db =
      try_catch
        (do
          on_db b.close
          modify λ s. record s {
            cout = s.cout ++ lit "Database " ∷ text s.db_file_name ∷ lit " is closed." ∷ endl ∷ [];
          })
        (report_error (codes "closing"))
