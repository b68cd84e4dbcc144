-- ===== src/BdbRead.antt =====
-- berkeley/tests/bdb_read/src/bdb_read.cpp: all records of one database are printed.
pub mod Loop
use m3sec.Common.{
  Bool, true, false, if◌then◌else◌, ℕ, zero, suc, ℤ, pos, List, [], ◌∷◌, ◌++◌, Option, none, some,
  Bytes, codes, c_string,
}
use m3sec.Common.Exec.{
  Exn, db_exception, Exec, pure, raise, diverge, modify, gets, on, try_catch, ◌>>=◌, ◌>>◌,
}
use m3sec.Console.{Chunk, text, lit, endl}
use m3sec.Bdb.{Fetch, found, not_found, failed}

-- The calls on the environment, the database and its cursor; each may throw, but not `err` and
-- `errx`, which print a message of Berkeley DB's. `open_env` and `open_db` have the flags that the
-- program passes, `get_next` is `Dbc::get` with DB_NEXT.
pub record Reader : Type 1 where
  pub World : Type 0
  pub open_env : Bytes → Exec World (Unit {0})
  pub open_db : Bytes → Exec World (Unit {0})
  pub cursor : Exec World (Unit {0})
  pub get_next : Exec World Fetch
  pub close_cursor : Exec World (Unit {0})
  pub close_db : Exec World (Unit {0})
  pub close_env : Exec World (Unit {0})
  pub err : ℤ → Bytes → World → World
  pub errx : Bytes → Exn → World → World

-- `created` is whether `myDb` points at a database.
pub record Console (W : Type 0) : Type 0 where
  pub db : W
  pub created : Bool
  pub cout : List Chunk

-- What the two `Dbt`s point at: nothing before the first record.
abbrev pub Last : Type 0
Last = Option (Bytes × Bytes)

-- A `get` that finds no record leaves them.
pub last_of : Fetch → Last → Last
last_of (found k v) last = some (k, v)
last_of f last = last

-- The lines that one round prints.
unfoldable pub lines_of : Bytes → Bytes → List Chunk
lines_of k v =
    lit "..."
    ∷ endl
    ∷ lit "key: "
    ∷ text (c_string k)
    ∷ lit "data: "
    ∷ text (c_string v)
    ∷ endl
    ∷ []

module _ {W : Type 0} where
  pub on_reader : {A : Type 0} → Exec W A → Exec (Console W) A
  on_reader = on (λ s. s.db) (λ s w. record s { db = w })

  print : List Chunk → Exec (Console W) (Unit {0})
  print line = modify λ s. record s { cout = s.cout ++ line }

  -- One round. To print a null pointer is undefined: no outcome.
  pub print_record : Last → Exec (Console W) (Unit {0})
  print_record none = diverge
  print_record (some (k, v)) = print (lines_of k v)

module _ (r : Reader) where
  -- while (ret != DB_NOTFOUND): the arguments are `ret` and what the `Dbt`s point at.
  pub read_loop : ℕ → Fetch → Last → Exec (Console r.World) (Unit {0})
  read_loop zero ret last = diverge
  read_loop (suc fuel) not_found last = pure tt
  read_loop (suc fuel) ret last = do
    print_record last
    ret' ← on_reader r.get_next
    read_loop fuel ret' (last_of ret' last)

  -- The body of the try statement.
  unfoldable read_all : ℕ → Exec (Console r.World) (Unit {0})
  read_all fuel = do
    print (lit "X-po2s.db output:" ∷ endl ∷ [])
    on_reader (r.open_env (codes "/home/kirill"))
    modify (λ s. record s { created = true })
    on_reader (r.open_db (codes "X-po2s.db"))
    on_reader r.cursor
    ret ← on_reader r.get_next
    read_loop fuel ret (last_of ret none)
    on_reader r.close_cursor
    on_reader r.close_db
    on_reader r.close_env
    print (lit "Closing ..." ∷ endl ∷ [])

  unfoldable message : Exn → r.World → r.World
  message (db_exception n) = r.err n (codes "Database open failed X-po2s.db")
  message e = r.errx (codes "Error opening database: ") e

  -- The catch clauses: a message through `myDb`, and the exception again. If `myDb` was not assigned
  -- yet, this is undefined: no outcome.
  unfoldable complain : Exn → Exec (Console r.World) (Unit {0})
  complain e = do
    created ← gets (λ s. s.created)
    if created then (do modify (λ s. record s { db = message e s.db }); raise e) else diverge

  -- main
  unfoldable main_read : ℕ → Exec (Console r.World) ℤ
  main_read fuel = do try_catch (read_all fuel) complain; pure (pos 0)
