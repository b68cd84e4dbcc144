-- ===== src/AccessExample/Run/Table.antt =====
-- The table is printed, and the database closed, also when the printing breaks off.
use m3sec.Common.{
  ℕ, zero, suc, ◌<◌, List, [], ◌∷◌, ◌++◌, ℤ, Bytes, ◌≡◌, refl, arith, length, append-nil,
  append_assoc,
}
use m3sec.Common.Exec.{ok, ◌>>=◌}
use m3sec.Console.{Chunk}
use m3sec.Bdb.{found, not_found, failed}
use m3sec.AccessExample.{Store, Access, print}
use m3sec.AccessExample.Run.{Calls, on_db, record_line, after_get, print_records, print_table}

module _ (d : Store) (c : Calls d) where
  -- The cursor gives the records in order, and then something else.
  pub data Yields : List (Bytes × Bytes) → d.World → d.World → Type 0 where
    at_end : {w w1 : d.World} → c.get_next w ≡ (ok not_found, w1) → Yields [] w w1
    at_code : {w w1 : d.World} (code : ℤ) → c.get_next w ≡ (ok (failed code), w1) → Yields [] w w1
    next :
        {key stored : Bytes} {rest : List (Bytes × Bytes)} {w : d.World} (w1 : d.World)
        {w2 : d.World}
        → c.get_next w ≡ (ok (found key stored), w1)
        → Yields rest w1 w2
        → Yields ((key, stored) ∷ rest) w w2

  abbrev pub all_lines : List (Bytes × Bytes) → List Chunk
  all_lines [] = []
  all_lines ((key, stored) ∷ rest) = record_line key stored ++ all_lines rest

  print_records-Yields :
      (rs : List (Bytes × Bytes)) (fuel : ℕ) (s : Access d.World) (w : d.World)
      → Yields rs s.db w
      → length rs < fuel
      → print_records d c fuel s ≡ (ok tt, record s { db = w; cout = s.cout ++ all_lines rs })
  unfolding print_records after_get on_db print ◌>>=◌
  print_records-Yields rs zero s w y lt = absurd (omega arith)
  print_records-Yields [] (suc fuel) s w (at_end e) lt = rw (e, append-nil s.cout) refl
  print_records-Yields [] (suc fuel) s w (at_code code e) lt = rw (e, append-nil s.cout) refl
  print_records-Yields ((key, stored) ∷ rest) (suc fuel) s w (next w1 e y) lt =
      rw
        (
          e,
          print_records-Yields rest fuel
              (record s { db = w1; cout = s.cout ++ record_line key stored }) w y (omega arith),
          append_assoc s.cout (record_line key stored) (all_lines rest),
        )
        refl

  -- If the cursor opens and closes, it gives some records in order and then any other code, and
  -- there is fuel for one round more than records, then the second try block of run prints each key
  -- with its text, in order, and nothing else.
  print_table-Yields :
      (rs : List (Bytes × Bytes)) (fuel : ℕ) (s : Access d.World) (w1 w2 w3 : d.World)
      → c.cursor s.db ≡ (ok tt, w1)
      → Yields rs w1 w2
      → length rs < fuel
      → c.close_cursor w2 ≡ (ok tt, w3)
      → print_table d c fuel s ≡ (ok tt, record s { db = w3; cout = s.cout ++ all_lines rs })
  unfolding print_table on_db ◌>>=◌
  print_table-Yields rs fuel s w1 w2 w3 e1 y lt e2 =
      rw (e1, print_records-Yields rs fuel (record s { db = w1 }) w2 y lt, e2) refl
