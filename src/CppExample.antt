-- ===== src/CppExample.antt =====
-- berkeley/examples/c++_example.cpp: two records are put under one key, and the key is looked up.
pub mod Results
use m3sec.Common.{
  List, [], ◌∷◌, ◌++◌, Option, none, some, ℤ, pos, minus_one, Bytes, codes, with_nul, c_string,
}
use m3sec.Common.Exec.{
  Exn, db_exception, std_exception, out_of_range, Exec, pure, modify, on, try_catch, ◌>>=◌, ◌>>◌,
}
use m3sec.Console.{Chunk, text, lit, what, endl}

-- The calls on the environment and the database, each of which may throw. `get` has the memory of
-- the caller: the bytes that the buffer holds afterwards, or `none` for DB_NOTFOUND.
pub record Cpp : Type 1 where
  pub World : Type 0
  pub open_env : Bytes → Exec World (Unit {0})
  pub new_db : Exec World (Unit {0})
  pub open_db : Bytes → Exec World (Unit {0})
  pub put : Bytes → Bytes → Exec World (Unit {0})
  pub get : Bytes → Exec World (Option Bytes)
  pub close_db : Exec World (Unit {0})
  pub new_plain_db : Exec World (Unit {0})
  pub remove_db : Bytes → Exec World (Unit {0})
  pub close_env : Exec World (Unit {0})

pub record Console (W : Type 0) : Type 0 where
  pub db : W
  pub cout : List Chunk
  pub cerr : List Chunk

abbrev pub home : Bytes
home = codes "/home/host/thesis/redland/berkeley/src"

module _ (b : Cpp) where
  pub on_db : {A : Type 0} → Exec b.World A → Exec (Console b.World) A
  on_db = on (λ s. s.db) (λ s w. record s { db = w })

  pub complain : List Chunk → Exec (Console b.World) (Unit {0})
  complain line = modify λ s. record s { cerr = s.cerr ++ line }

  pub found : Option Bytes → Exec (Console b.World) (Unit {0})
  unfolding complain
  found none = complain (lit "Not found" ∷ endl ∷ [])
  found (some buffer) =
      modify λ s. record s { cout = s.cout ++ lit "Found: " ∷ text (c_string buffer) ∷ endl ∷ [] }

  -- The key has no terminator, the values have one.
  pub body : Exec (Console b.World) ℤ
  unfolding found on_db
  body = do
    on_db (b.open_env home)
    on_db b.new_db
    on_db (b.open_db (codes "access.db"))
    on_db (b.put (codes "fruit") (with_nul (codes "apple")))
    on_db (b.put (codes "fruit") (with_nul (codes "orange")))
    got ← on_db (b.get (codes "fruit"))
    found got
    on_db b.close_db
    on_db b.new_plain_db
    on_db (b.remove_db (home ++ codes "/access.db"))
    on_db b.close_env
    pure (pos 0)

  pub failed : Exn → Exec (Console b.World) ℤ
  unfolding complain
  failed (db_exception n) =
      complain (lit "DbException: " ∷ what (db_exception n) ∷ endl ∷ []) >> pure minus_one
  failed (std_exception m) = complain (what (std_exception m) ∷ endl ∷ []) >> pure minus_one
  failed out_of_range = complain (what out_of_range ∷ endl ∷ []) >> pure minus_one

  -- main
  pub main_cpp : Exec (Console b.World) ℤ
  unfolding body failed
  main_cpp = try_catch body failed
