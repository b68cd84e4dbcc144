-- ===== src/TripleDb/Database/Quiet.antt =====
-- MyDb over calls that return.
use m3sec.Common.{true, false, [], ◌∷◌, ◌++◌, ◌≡◌, refl}
use m3sec.Common.Exec.{Exec, ok, ◌>>=◌}
use m3sec.Console.{text, lit, endl}
use m3sec.TripleDb.Database.{Db, MyDb, on_db, set_secondary, new_my_db, close_my_db}

pub on_db_lem :
    {W A : Type 0} (m : Exec W A) (s : MyDb W) (a : A) (w : W)
    → m s.db ≡ (ok a, w)
    → on_db m s ≡ (ok a, record s { db = w })
unfolding on_db ◌>>=◌
on_db_lem m s a w e = rw e refl

module _ (b : Db) (s : MyDb b.World) where
  pub new_my_db-opens :
      (w : b.World)
      → b.open_db s.db_file_name s.db ≡ (ok tt, w)
      → new_my_db b false s ≡ (ok tt, record s { db = w })
  unfolding new_my_db set_secondary on_db ◌>>=◌
  new_my_db-opens w e = rw e refl

  pub new_my_db-opens_secondary :
      (w1 w2 : b.World)
      → b.set_dupsort s.db ≡ (ok tt, w1)
      → b.open_db s.db_file_name w1 ≡ (ok tt, w2)
      → new_my_db b true s ≡ (ok tt, record s { db = w2 })
  unfolding new_my_db set_secondary on_db ◌>>=◌
  new_my_db-opens_secondary w1 w2 e1 e2 = rw (e1, e2) refl

  pub close_my_db-closes :
      (w : b.World)
      → b.close s.db ≡ (ok tt, w)
      → close_my_db b s ≡ (
        ok tt,
        record s {
          db = w;
          cout = s.cout ++ lit "Database " ∷ text s.db_file_name ∷ lit " is closed." ∷ endl ∷ [];
        },
      )
  unfolding close_my_db on_db ◌>>=◌
  close_my_db-closes w e = rw e refl
