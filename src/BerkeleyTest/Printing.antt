-- ===== src/BerkeleyTest/Printing.antt =====
-- The loop of berkeley_test prints what the loop of bdb_vfs prints.
use m3sec.Common.{ℕ, zero, suc, List, Option, none, some, Bytes, ◌≡◌, refl}
use m3sec.Common.Exec.{Outcome, ok, throw, running, pure, after, ◌>>=◌, ◌>>◌}
use m3sec.Bdb.{Bdb}
use m3sec.Rows.{Fetched, next_row}
use m3sec.BdbVfs.{State, on_db, say, push_row, read_rows}
use m3sec.BerkeleyTest.{print_row, print_rows}

-- The state with these vectors.
abbrev pub with_vectors :
    {W F : Type 0} → List Bytes → List Bytes → List Bytes → State W F → State W F
with_vectors ss ps os s = record s { subj_vector = ss; pred_vector = ps; obj_vector = os }

module _ (b : Bdb) {F : Type 0} (ss ps os : List Bytes) where
  -- A result with its state given these vectors.
  abbrev pub apart : Outcome (Unit {0}) × State b.World F → Outcome (Unit {0}) × State b.World F
  apart (o, s) = (o, with_vectors ss ps os s)

  after_row :
      (fuel : ℕ) (s : State b.World F) (o : Outcome (Option Fetched))
      → ((s' : State b.World F)
          → print_rows b fuel (with_vectors ss ps os s') ≡ apart (read_rows b fuel s'))
      → after o
          (λ row. elim row [ none ↦ pure tt | some r ↦ print_row r >> print_rows b fuel ])
          (with_vectors ss ps os s)
        ≡ apart (
            after o
              (λ row. elim row [ none ↦ pure tt | some r ↦ push_row r >> read_rows b fuel ])
              s)
  unfolding print_row push_row say ◌>>=◌
  after_row fuel s (ok none) ih = refl
  after_row fuel s (ok (some r)) ih = ih (push_row r s).1
  after_row fuel s (throw e) ih = refl
  after_row fuel s running ih = refl

  -- With the same fuel, and from states that differ in the three vectors alone, the loop of
  -- berkeley_test ends as the loop of bdb_vfs does, with the same prints and the same world of
  -- Berkeley DB, and it leaves the vectors as they were.
  pub print_rows_lem :
      (fuel : ℕ) (s : State b.World F)
      → print_rows b fuel (with_vectors ss ps os s) ≡ apart (read_rows b fuel s)
  unfolding print_rows read_rows on_db ◌>>=◌
  print_rows_lem zero s = refl
  print_rows_lem (suc fuel) s =
      after_row fuel (record s { db = (next_row b s.db).1 }) (next_row b s.db).0
        (print_rows_lem fuel)
