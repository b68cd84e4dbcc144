-- ===== src/BerkeleyTest.antt =====
-- berkeley/tests/berkeley_test/test.cpp: a run that opens the tables, fills or reads them, and
-- prints them. Its options, its opening and its puts are, statement by statement, those of testfs.
pub mod Printing
pub mod Runs
pub mod Usage
use m3sec.Common.{ℕ, zero, suc, ℤ, pos, List, [], ◌∷◌, none, some, codes}
use m3sec.Common.Exec.{Exec, pure, diverge, try_catch, ◌>>=◌, ◌>>◌}
use m3sec.Console.{lit}
use m3sec.Bdb.{Bdb, db_s, db_p, db_o, OpenFlags, rdonly}
use m3sec.Rows.{Fetched, next_row, line_of}
use m3sec.BdbVfs.{State, say, on_db, report}
use m3sec.Testfs.{Opt, Parsed, flags, returned, parse_options, open_tables, insert_data}

-- The body of the loop.
print_row : {W F : Type 0} → Fetched → Exec (State W F) (Unit {0})
print_row r = do
  say (line_of (codes "S: ") r.key_s r.data_s)
  say (line_of (codes "P: ") r.key_p r.data_p)
  say (line_of (codes "O: ") r.key_o r.data_o)

module _ (b : Bdb) {F : Type 0} where
  -- while (cur_s->get(…) == 0 && …)
  pub print_rows : ℕ → Exec (State b.World F) (Unit {0})
  print_rows zero = diverge
  print_rows (suc fuel) = do
    row ← on_db (next_row b)
    elim row [ none ↦ pure tt | some r ↦ print_row r >> print_rows fuel ]

  unfoldable print_tables : ℕ → Exec (State b.World F) (Unit {0})
  print_tables fuel = do
    say (lit "Output data ..." ∷ [])
    on_db (b.cursor db_s)
    on_db (b.cursor db_p)
    on_db (b.cursor db_o)
    print_rows fuel
    on_db (b.close_cursor db_s)
    on_db (b.close_cursor db_p)
    on_db (b.close_cursor db_o)

  unfoldable close_tables : Exec (State b.World F) (Unit {0})
  close_tables = do
    say (lit "Closing DB ..." ∷ [])
    on_db (b.close db_s)
    on_db (b.close db_p)
    on_db (b.close db_o)
    say (lit "Closed." ∷ [])

  -- What follows the loop over the options.
  after_options : ℕ → Parsed → Exec (State b.World F) ℤ
  after_options fuel (returned c) = pure c
  after_options fuel (flags fl) =
      try_catch
        (do open_tables b fl; insert_data b fl; print_tables fuel; close_tables; pure (pos 0))
        report

  -- main
  pub main_test : ℕ → List Opt → Exec (State b.World F) ℤ
  main_test fuel opts = do
    say (lit "Open DB" ∷ [])
    p ← parse_options rdonly opts
    after_options fuel p
