-- ===== src/AccessExample/Run.antt =====
-- berkeley/examples/AccessExample.cpp: `main`, and `AccessExample::run` as a whole.
pub mod Table
pub mod Ending
use m3sec.Common.{
  ℕ, zero, suc, Bool, true, false, List, [], ◌∷◌, ◌++◌, Option, none, some, ℤ, pos, Bytes, codes,
  c_string,
}
use m3sec.Common.Exec.{
  Exn, db_exception, std_exception, out_of_range, Exec, pure, raise, diverge, modify, on, try_catch,
  ◌>>=◌, ◌>>◌,
}
use m3sec.Console.{Chunk, text, lit, what}
use m3sec.Bdb.{Fetch, found, not_found, failed}
use m3sec.AccessExample.{Store, Access, print, input_loop}

-- The other calls on the database, each of which may throw, and `remove` of the C library. `set_up`
-- is the error stream, the prefix, the page size and the cache size.
pub record Calls (d : Store) : Type 0 where
  pub remove_file : Bytes → Exec d.World (Unit {0})
  pub set_up : Exec d.World (Unit {0})
  pub open_db : Bytes → Exec d.World (Unit {0})
  pub cursor : Exec d.World (Unit {0})
  pub get_next : Exec d.World Fetch
  pub close_cursor : Exec d.World (Unit {0})
  pub close_db : Exec d.World (Unit {0})

-- What getopt gives for an argument.
pub data Opt : Type 0 where
  opt_r opt_other : Opt

-- `rflag`, unless usage() is called.
pub parse_options : Bool → List Opt → Option Bool
parse_options rflag [] = some rflag
parse_options rflag (opt_r ∷ opts) = parse_options true opts
parse_options rflag (opt_other ∷ opts) = none

-- *argv == NULL ? DATABASE : argv[0], behind the options
unfoldable pub database_name : List Bytes → Bytes
database_name [] = codes "access.db"
database_name (name ∷ names) = name

module _ {W : Type 0} where
  pub on_db : {A : Type 0} → Exec W A → Exec (Access W) A
  on_db = on (λ s. s.db) (λ s w. record s { db = w })

  pub complain : List Chunk → Exec (Access W) (Unit {0})
  complain line = modify λ s. record s { cerr = s.cerr ++ line }

  -- usage, which gives EXIT_FAILURE
  pub usage : Exec (Access W) ℤ
  unfolding complain
  usage = complain (lit "usage: AccessExample [-r] [database]\n" ∷ []) >> pure (pos 1)

  -- catch (DbException &dbe) { cerr << …; } with what it goes on with.
  pub report : {A : Type 0} → A → Exn → Exec (Access W) A
  unfolding complain
  report a (db_exception n) =
      complain (lit "AccessExample: " ∷ what (db_exception n) ∷ lit "\n" ∷ []) >> pure a
  report a (std_exception m) = raise (std_exception m)
  report a out_of_range = raise out_of_range

-- The line of a record.
pub record_line : Bytes → Bytes → List Chunk
record_line key stored = text (c_string key) ∷ lit " : " ∷ text (c_string stored) ∷ lit "\n" ∷ []

module _ (d : Store) (c : Calls d) where
  -- while (dbcp->get(&key, &data, DB_NEXT) == 0)
  pub after_get : Exec (Access d.World) (Unit {0}) → Fetch → Exec (Access d.World) (Unit {0})
  unfolding record_line
  after_get rounds (found key stored) = print (record_line key stored) >> rounds
  after_get rounds not_found = pure tt
  after_get rounds (failed code) = pure tt

  pub print_records : ℕ → Exec (Access d.World) (Unit {0})
  print_records zero = diverge
  print_records (suc fuel) = on_db c.get_next >>= after_get (print_records fuel)

  -- The second try block of run.
  pub print_table : ℕ → Exec (Access d.World) (Unit {0})
  unfolding report
  print_table fuel =
      try_catch (do on_db c.cursor; print_records fuel; on_db c.close_cursor) (report tt)

  remove_existing : Bool → Bytes → Exec (Access d.World) (Unit {0})
  remove_existing true file_name = on_db (c.remove_file file_name)
  remove_existing false file_name = pure tt

  -- AccessExample::run; `lines` and `records` bound the two loops.
  pub run : ℕ → ℕ → Bool → Bytes → Exec (Access d.World) (Unit {0})
  unfolding remove_existing print_table
  run lines records remove_existing_database file_name = do
    remove_existing remove_existing_database file_name
    on_db c.set_up
    on_db (c.open_db file_name)
    input_loop d lines
    print (lit "\n" ∷ [])
    print_table records
    on_db c.close_db

  -- main behind the options
  pub after_options : ℕ → ℕ → List Bytes → Option Bool → Exec (Access d.World) ℤ
  unfolding run usage report
  after_options lines records argv none = usage
  after_options lines records argv (some rflag) =
      try_catch (do run lines records rflag (database_name argv); pure (pos 0)) (report (pos 1))

  pub main_access : ℕ → ℕ → List Opt → List Bytes → Exec (Access d.World) ℤ
  unfolding after_options parse_options
  main_access lines records opts argv = after_options lines records argv (parse_options false opts)
