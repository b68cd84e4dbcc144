-- ===== src/CExample.antt =====
-- berkeley/examples/c_example.c: a record is put, read, deleted and looked for again, over the C
-- interface of Berkeley DB.
pub mod Results
use m3sec.Common.{
  ℕ, zero, suc, Bool, true, false, not, ◌&&◌, List, [], ◌∷◌, ◌++◌, ℤ, pos, is_int, Bytes, codes,
  with_nul, c_string, if◌then◌else◌,
}
use m3sec.Common.Exec.{Exec, pure, modify, on, ◌>>=◌, ◌>>◌}
use m3sec.Console.{Chunk, text, lit, endl}

-- The calls on one handle, which give a code; `get` also gives the memory that `data.data` points at
-- afterwards. `err` prints a message of the library's, and `strerror` is the text of a code.
pub record CDb : Type 1 where
  pub World : Type 0
  pub strerror : ℤ → Bytes
  pub create : Exec World ℤ
  pub open_db : Bytes → Exec World ℤ
  pub put : Bytes → Bytes → Exec World ℤ
  pub get : Bytes → Exec World (ℤ × Bytes)
  pub del : Bytes → Exec World ℤ
  pub close : Exec World ℤ
  pub err : ℤ → Bytes → Exec World (Unit {0})

pub record Console (W : Type 0) : Type 0 where
  pub db : W
  pub cout : List Chunk
  pub cerr : List Chunk

abbrev pub database_name : Bytes
database_name = codes "access.db"

abbrev pub fruit : Bytes
fruit = codes "fruit"

abbrev pub apple : Bytes
apple = codes "apple"

module _ (b : CDb) where
  pub on_db : {A : Type 0} → Exec b.World A → Exec (Console b.World) A
  on_db = on (λ s. s.db) (λ s w. record s { db = w })

  pub print : List Chunk → Exec (Console b.World) (Unit {0})
  print line = modify λ s. record s { cout = s.cout ++ line }

  -- dbp->err(dbp, ret, …); with the `ret` that is kept on the way to `err:`
  pub fail : Bytes → ℤ → Exec (Console b.World) ℤ
  unfolding on_db
  fail message ret = on_db (b.err ret message) >> pure ret

  pub retrieved : Bytes → List Chunk
  retrieved stored =
      lit "db: "
      ∷ text fruit
      ∷ lit ": key retrieved: data was "
      ∷ text (c_string stored)
      ∷ endl
      ∷ []

  -- The five steps, each with what follows it where it gave 0.
  second_get : ℤ × Bytes → Exec (Console b.World) ℤ
  unfolding print fail retrieved
  second_get (ret, stored) =
      if is_int ret 0 then (print (retrieved stored) >> pure ret) else fail (codes "DB->get") ret

  after_del : ℤ → Exec (Console b.World) ℤ
  unfolding print fail second_get on_db
  after_del ret =
      if is_int ret 0
      then (print (lit "db: " ∷ text fruit ∷ lit " key was deleted.\n" ∷ [])
          >> on_db (b.get (with_nul fruit))
          >>= second_get)
      else fail (codes "DB->del") ret

  first_get : ℤ × Bytes → Exec (Console b.World) ℤ
  unfolding print fail retrieved after_del on_db
  first_get (ret, stored) =
      if is_int ret 0
      then (print (retrieved stored) >> on_db (b.del (with_nul fruit)) >>= after_del)
      else fail (codes "DB->get") ret

  after_put : ℤ → Exec (Console b.World) ℤ
  unfolding print fail first_get on_db
  after_put ret =
      if is_int ret 0
      then (print (lit "db: " ∷ text fruit ∷ lit ": key stored.\n" ∷ [])
          >> on_db (b.get (with_nul fruit))
          >>= first_get)
      else fail (codes "DB->put") ret

  after_open : ℤ → Exec (Console b.World) ℤ
  unfolding fail after_put on_db
  after_open ret =
      if is_int ret 0
      then (on_db (b.put (with_nul fruit) (with_nul apple)) >>= after_put)
      else fail database_name ret

  -- From `err:` on.
  pub close_and_return : ℤ → Exec (Console b.World) ℤ
  unfolding on_db
  close_and_return ret = do
    t_ret ← on_db b.close
    pure (if not (is_int t_ret 0) && is_int ret 0 then t_ret else ret)

  after_create : ℤ → Exec (Console b.World) ℤ
  unfolding after_open close_and_return on_db
  after_create ret =
      if is_int ret 0
      then (on_db (b.open_db database_name) >>= after_open >>= close_and_return)
      else (modify (λ s. record s {
        cerr = s.cerr ++ lit "db_create:" ∷ text (b.strerror ret) ∷ endl ∷ [];
      })
          >> pure (pos 1))

  -- main; `exit (1)` gives 1.
  pub main_c : Exec (Console b.World) ℤ
  unfolding after_create on_db
  main_c = on_db b.create >>= after_create
