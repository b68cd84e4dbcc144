-- ===== src/Tests/BdbVfsRuns.antt =====
-- The theorems about bdb_vfs.cpp at concrete inputs.
use m3sec.Common.{ℕ, ℤ, pos, List, [], ◌∷◌, ◌++◌, codes, ◌≡◌, refl, arith, some}
use m3sec.Common.Exec.{ok, ◌>>◌}
use m3sec.BdbLaws.{Tables}
use m3sec.Rows.Reading.{settled}
use m3sec.BdbVfs.{State, create_db, insert_db_data, print_db_data, close_db}
use m3sec.BdbVfs.Aligned.{IsAligned}
use m3sec.BdbVfs.Reports.{Reported, tables_report}
use m3sec.BdbVfs.Contents.{created, loaded}
use m3sec.BdbVfs.Printed.{load_and_print}
use m3sec.BdbVfs.Vfs.{create_db_vfs}
use m3sec.BdbVfs.Menu.{menu}
use m3sec.BdbVfs.Menu.Sessions.{start, session-IsAligned, session_vfs_returns}
use m3sec.Tests.Memory.{memory, memory-Responds, memory-Lawful, listing, listing-Answers, unused}

abbrev keys : List ℤ
keys = pos 1 ∷ pos 2 ∷ pos 3 ∷ pos 9 ∷ pos 3 ∷ []

abbrev first : State Tables (List (List ℕ))
first = start unused []

abbrev opened_tables : Tables
opened_tables = loaded (created unused)

abbrev ready : State Tables (List (List ℕ))
ready = start opened_tables []

session-IsAligned_example : IsAligned (menu memory listing 9 [] keys first).1
session-IsAligned_example = session-IsAligned memory listing 9 [] keys unused []

session_vfs_returns_example :
    (c : ℤ) × ((create_db_vfs memory listing [] (menu memory listing 9 [] keys first).1).0 ≡ ok c)
    × (v' : List (List ℕ)) × ((listing.run [] v').0 ≡ ok c)
session_vfs_returns_example =
    session_vfs_returns memory listing 9 [] keys unused [] memory-Responds listing-Answers

tables_report_example :
    Reported first.cerr (create_db memory first)
    × Reported first.cerr (insert_db_data memory first)
    × Reported first.cerr (close_db memory first)
tables_report_example = tables_report memory memory-Responds first

load_and_print_example :
    let (o, s') = (create_db memory >> (insert_db_data memory >> print_db_data memory 4)) first in
    (o ≡ ok (pos 0))
    × (s'.subj_vector ≡ [] ++ codes "I" ∷ codes "Kirill" ∷ codes "Katya" ∷ [])
    × (s'.pred_vector ≡ [] ++ codes "am" ∷ codes "has" ∷ codes "sister of" ∷ [])
    × (s'.obj_vector ≡ [] ++ codes "Kirill." ∷ codes "a sister." ∷ codes "Kirill" ∷ [])
    × (some s'.db ≡ some (settled (loaded (created unused))))
load_and_print_example =
    load_and_print memory (List (List ℕ)) memory-Lawful 4 unused first refl (refl, refl, refl)
      (omega arith)
