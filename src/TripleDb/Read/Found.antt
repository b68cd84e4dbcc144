-- ===== src/TripleDb/Read/Found.antt =====
-- What show_item does when there is no record of the name.
use m3sec.Common.{ℕ, [], ◌∷◌, ◌++◌, ℤ, pos, Bytes, ◌≡◌, refl, with_nul, codes, true}
use m3sec.Common.Exec.{ok, running, throw, db_exception, ◌>>=◌}
use m3sec.Console.{text, lit, endl}
use m3sec.Bdb.{not_found}
use m3sec.TripleDb.Read.{
  Reader, Console, itemname_sdb, show_item, open_cursor, close_cursorp, close_set, on_db, print,
  first_dup, complain, item_failed,
}

module _ (r : Reader) (show_double show_long : ℕ → Bytes) (databuf : Bytes) where
  -- If the cursor on the index opens and closes, and finds no record of the name, then show_item
  -- returns 0, has printed the name, to `cout` and in the complaint to `cerr`, and closed the cursor.
  pub show_item-not_found :
      (fuel : ℕ) (name : Bytes) (s : Console r.World) (w1 w2 w3 : r.World)
      → r.cursor itemname_sdb s.db ≡ (ok tt, w1)
      → r.get_set (with_nul name) w1 ≡ (ok not_found, w2)
      → r.close_cursor w2 ≡ (ok tt, w3)
      → show_item r show_double show_long databuf fuel name s ≡ (
        ok (pos 0),
        record s {
          db = w3;
          cursorp = true;
          cout = s.cout ++ lit "Looking for " ∷ text name ∷ endl ∷ [];
          cerr = s.cerr ++ lit "No records found for '" ∷ text name ∷ lit "'" ∷ endl ∷ [];
        },
      )
  unfolding show_item open_cursor close_cursorp close_set print first_dup complain on_db ◌>>=◌
  show_item-not_found fuel name s w1 w2 w3 e1 e2 e3 = rw (e1, e2, e3) refl

  -- If the cursor on the index does not open because of a DbException, and the report of it returns,
  -- then show_item goes on to close a cursor that was never set.
  show_item-no_cursor :
      (fuel : ℕ) (name : Bytes) (s : Console r.World) (code : ℤ) (w1 w2 : r.World)
      → r.cursor itemname_sdb s.db ≡ (throw (db_exception code), w1)
      → r.err itemname_sdb code (codes "Error in show_item") w1 ≡ (ok tt, w2)
      → (show_item r show_double show_long databuf fuel name s).0 ≡ running
  unfolding show_item open_cursor close_cursorp close_set item_failed on_db ◌>>=◌
  show_item-no_cursor fuel name s code w1 w2 e1 e2 = rw (e1, e2) refl
