-- ===== src/BdbVfs/Aligned.antt =====
-- The three vectors of bdb_vfs.cpp are always equally long, whatever the libraries do.
use m3sec.Common.{ℕ, zero, suc, Option, none, some, ◌≡◌, arith, List, length, length-append}
use m3sec.Common.Exec.{Exn, db_exception, Exec, pure, ◌>>=◌, ◌>>◌}
use m3sec.Common.Exec.Keeps.{Keeps, keeps_rules, Keeps-bind, Keeps-diverge}
use m3sec.Console.{Chunk}
use m3sec.Bdb.{Bdb}
use m3sec.Rows.{Fetched}
use m3sec.BdbVfs.{
  State, say, complain, on_db, on_fuse, report, push_row, create_db, close_db, insert_db_data,
  read_rows, print_db_data,
}

pub record IsAligned {W F : Type 0} (s : State W F) : Type 0 where
  pub preds : length s.pred_vector ≡ length s.subj_vector
  pub objs : length s.obj_vector ≡ length s.subj_vector

module _ {W F : Type 0} where
  pub say-IsAligned : (l : List Chunk) → Keeps (IsAligned {W = W} {F = F}) (say l)
  unfolding say ◌>>=◌
  say-IsAligned l = record { at = λ s h. record { preds = h.preds; objs = h.objs } }

  pub complain-IsAligned : (l : List Chunk) → Keeps (IsAligned {W = W} {F = F}) (complain l)
  unfolding complain ◌>>=◌
  complain-IsAligned l = record { at = λ s h. record { preds = h.preds; objs = h.objs } }

  pub on_db-IsAligned : {A : Type 0} (m : Exec W A) → Keeps (IsAligned {W = W} {F = F}) (on_db m)
  unfolding on_db ◌>>=◌
  on_db-IsAligned m = record { at = λ s h. record { preds = h.preds; objs = h.objs } }

  pub on_fuse-IsAligned :
      {A : Type 0} (m : Exec F A) → Keeps (IsAligned {W = W} {F = F}) (on_fuse m)
  unfolding on_fuse ◌>>=◌
  on_fuse-IsAligned m = record { at = λ s h. record { preds = h.preds; objs = h.objs } }

  pub ruleset aligned_rules =
      (keeps_rules, say-IsAligned, complain-IsAligned, on_db-IsAligned, on_fuse-IsAligned)

  report-IsAligned : (e : Exn) → Keeps (IsAligned {W = W} {F = F}) (report e)
  unfolding report
  report-IsAligned (db_exception n) = search aligned_rules
  report-IsAligned _ = search aligned_rules

  push_row-IsAligned : (r : Fetched) → Keeps (IsAligned {W = W} {F = F}) (push_row r)
  unfolding push_row say ◌>>=◌
  push_row-IsAligned r = record {
    at = λ s h. record {
      preds = omega (arith, h.preds, length-append {0}, length-append {0});
      objs = omega (arith, h.objs, length-append {0}, length-append {0});
    };
  }

module _ (b : Bdb) (F : Type 0) where
  pub create_db-IsAligned : Keeps (IsAligned {F = F}) (create_db b)
  unfolding create_db
  create_db-IsAligned = search (aligned_rules, report-IsAligned) depth 12

  pub close_db-IsAligned : Keeps (IsAligned {F = F}) (close_db b)
  unfolding close_db
  close_db-IsAligned = search (aligned_rules, report-IsAligned) depth 12

  pub insert_db_data-IsAligned : Keeps (IsAligned {F = F}) (insert_db_data b)
  unfolding insert_db_data
  insert_db_data-IsAligned = search (aligned_rules, report-IsAligned) depth 14

  read_step-IsAligned :
      (o : Option Fetched) (m : Exec (State b.World F) (Unit {0}))
      → Keeps (IsAligned {F = F}) m
      → Keeps
          (IsAligned {W = b.World} {F = F})
          (elim o [ none ↦ pure tt | some r ↦ push_row r >> m ])
  read_step-IsAligned none m h = search aligned_rules
  read_step-IsAligned (some r) m h = search (aligned_rules, push_row-IsAligned)

  read_rows-IsAligned : (fuel : ℕ) → Keeps (IsAligned {F = F}) (read_rows b fuel)
  unfolding read_rows
  read_rows-IsAligned zero = Keeps-diverge
  read_rows-IsAligned (suc fuel) =
      Keeps-bind _ _ (on_db-IsAligned _) λ o. read_step-IsAligned o _ (read_rows-IsAligned fuel)

  pub print_db_data-IsAligned : (fuel : ℕ) → Keeps (IsAligned {F = F}) (print_db_data b fuel)
  unfolding print_db_data
  print_db_data-IsAligned fuel =
      search (aligned_rules, report-IsAligned, read_rows-IsAligned) depth 14
