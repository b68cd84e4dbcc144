-- ===== src/Bdb.antt =====
-- Berkeley DB, which the repository does not contain, as the programs over the three tables of
-- triples call it: an interface, with the documented behaviour of the calls in `Laws`.
use m3sec.Common.{Bytes, ℤ, ◌≢◌}
use m3sec.Common.Exec.{Exec, running}

-- `db_s`, `db_p`, `db_o`; each program opens at most one cursor at a time on each, so a cursor is
-- named by its handle.
pub data Handle : Type 0 where
  db_s db_p db_o : Handle

-- The argument of `Db::set_flags`.
pub data DbFlags : Type 0 where
  dup dupsort : DbFlags

-- The combinations of DB_CREATE, DB_TRUNCATE and DB_RDONLY that the programs pass to `Db::open`.
pub data OpenFlags : Type 0 where
  create create_truncate rdonly : OpenFlags

-- `Dbc::get`: 0 with the memory that the key and the data point at, DB_NOTFOUND, or another code
-- that is not 0. Where memory ends is the library's business: the bytes behind a record are in it.
pub data Fetch : Type 0 where
  found : Bytes → Bytes → Fetch
  not_found : Fetch
  failed : ℤ → Fetch

-- Every call may throw. `get_next` is `Dbc::get` with DB_NEXT.
pub record Bdb : Type 1 where
  pub World : Type 0
  pub set_flags : Handle → DbFlags → Exec World (Unit {0})
  pub open_db : Handle → Bytes → OpenFlags → Exec World (Unit {0})
  pub close : Handle → Exec World (Unit {0})
  pub put : Handle → Bytes → Bytes → Exec World (Unit {0})
  pub cursor : Handle → Exec World (Unit {0})
  pub get_next : Handle → Exec World Fetch
  pub close_cursor : Handle → Exec World (Unit {0})

-- Every call returns or throws.
pub record Responds (b : Bdb) : Type 0 where
  pub set_flags : (h : Handle) (f : DbFlags) (w : b.World) → (b.set_flags h f w).0 ≢ running
  pub open_db :
      (h : Handle) (n : Bytes) (f : OpenFlags) (w : b.World) → (b.open_db h n f w).0 ≢ running
  pub close : (h : Handle) (w : b.World) → (b.close h w).0 ≢ running
  pub put : (h : Handle) (k v : Bytes) (w : b.World) → (b.put h k v w).0 ≢ running
