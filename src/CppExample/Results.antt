-- ===== src/CppExample/Results.antt =====
-- What the example prints and returns.
use m3sec.Common.{ℤ, minus_one, codes, ◌≡◌, ◌≢◌, refl}
use m3sec.Common.Exec.{
  Exn, Outcome, ok, throw, running, db_exception, std_exception, out_of_range, rescue, ◌>>=◌,
}
use m3sec.CppExample.{Cpp, Console, home, on_db, complain, body, failed, main_cpp}

module _ (b : Cpp) where
  rescued : (o : Outcome ℤ) (s : Console b.World) (e : Exn) → (rescue o (failed b) s).0 ≢ throw e
  unfolding failed complain ◌>>=◌
  rescued (ok v) s e h = cc
  rescued (throw (db_exception m)) s e h = cc
  rescued (throw (std_exception m)) s e h = cc
  rescued (throw out_of_range) s e h = cc
  rescued running s e h = cc

  -- No exception leaves main, whatever Berkeley DB throws.
  main_cpp-catches : (s : Console b.World) (e : Exn) → (main_cpp b s).0 ≢ throw e
  unfolding main_cpp ◌>>=◌
  main_cpp-catches s e h = rescued _ _ e h

  -- If the environment opens and the opening of the database throws, main prints the exception and
  -- returns -1, and closes neither the database nor the environment.
  main_cpp-leaves_open :
      (s : Console b.World) (n : ℤ) (w1 w2 w3 : b.World)
      → b.open_env home s.db ≡ (ok tt, w1)
      → b.new_db w1 ≡ (ok tt, w2)
      → b.open_db (codes "access.db") w2 ≡ (throw (db_exception n), w3)
      → ((main_cpp b s).0 ≡ ok minus_one) × ((main_cpp b s).1.db ≡ w3)
  unfolding main_cpp body failed complain on_db ◌>>=◌
  main_cpp-leaves_open s n w1 w2 w3 e1 e2 e3 = rw (e1, e2, e3) (refl, refl)
