-- ===== src/BerkeleyTest/Runs.antt =====
-- berkeley_test with the option -c over a lawful Berkeley DB.
use m3sec.Common.{ℕ, ◌<◌, pos, List, [], ◌∷◌, some, Bytes, ◌≡◌, refl, sym, ap, ◌∙◌, arith, length}
use mathlib.Core.Path.{subst}
use m3sec.Common.Exec.{ok}
use m3sec.Common.Exec.Ensures.{
  Ensures, Ensures-bind, Ensures-return, Ensures-assume, Ensures-try_catch,
}
use m3sec.Bdb.{Bdb, db_s, db_p, db_o, create_truncate}
use m3sec.BdbLaws.{Tables, update, rewind, shut, Lawful}
use m3sec.Rows.Reading.{settled, AllOpened, View}
use m3sec.Rows.Calls.{cursor-View, close-View}
use m3sec.BdbVfs.{State}
use m3sec.BdbVfs.Loaded.{Holding, Settled, say-Holding, read_rows_lem}
use m3sec.BdbVfs.Contents.{created, loaded, AllFresh, run_db}
use m3sec.BdbVfs.Printed.{joined, AllTerminated}
use m3sec.Testfs.{opt_c, flags}
use m3sec.Testfs.Created.{open_tables-Ensures, insert_data-Ensures, options-Ensures}
use m3sec.Testfs.Output.{all_shut, close_cursors}
use m3sec.BerkeleyTest.{print_rows, print_tables, close_tables, after_options, main_test}
use m3sec.BerkeleyTest.Printing.{print_rows_lem}

module _ (b : Bdb) (F : Type 0) (laws : Lawful b) (ss ps os : List Bytes) where
  open laws use {view}

  abbrev Keeping : Tables → State b.World F → Type 0
  Keeping t = Holding b F laws (View b laws t) ss ps os

  print_rows-Ensures :
      (fuel : ℕ) (t : Tables)
      → AllOpened t
      → AllTerminated t
      → length (joined t) < fuel
      → let t3 = update db_o rewind (update db_p rewind (update db_s rewind t)) in
        Ensures
          (Keeping t3)
          (print_rows b fuel)
          (λ _. Holding b F laws (Settled b F laws t) ss ps os)
  print_rows-Ensures fuel t op (ns, np, no') lt = record {
    at = λ s h.
        let t3 = update db_o rewind (update db_p rewind (update db_s rewind t)) in
        let (u, e, q) =
          (read_rows_lem b F laws fuel t3 t.s.rows t.p.rows t.o.rows ss ps os op refl refl refl ns
              np no' lt).at
            s h in
        let p = print_rows_lem b s.subj_vector s.pred_vector s.obj_vector fuel s in
        (
          u,
          ap (λ x. x.0) p ∙ e,
          subst (λ x. Holding b F laws (Settled b F laws t) ss ps os x.1) (sym p) (q.0, h.1),
        );
  }

  print_tables-Ensures :
      (fuel : ℕ) (t : Tables)
      → AllOpened t
      → AllTerminated t
      → length (joined t) < fuel
      → Ensures (Keeping t) (print_tables b fuel) (λ _. Keeping (settled t))
  unfolding print_tables
  print_tables-Ensures fuel t (fs, fp, fo) nul lt =
      let t1 = update db_s rewind t in
      let t2 = update db_p rewind t1 in
      let t3 = update db_o rewind t2 in
      Ensures-bind _ _ (say-Holding b F laws _ _) λ _.
        Ensures-bind _ _ (run_db b F laws t t1 _ (cursor-View b laws db_s t fs)) λ _.
          Ensures-bind _ _ (run_db b F laws t1 t2 _ (cursor-View b laws db_p t1 fp)) λ _.
            Ensures-bind _ _ (run_db b F laws t2 t3 _ (cursor-View b laws db_o t2 fo)) λ _.
              Ensures-bind _ _ (print_rows-Ensures fuel t (fs, fp, fo) nul lt)
                λ _. close_cursors b F laws ss ps os t

  close_tables-Ensures :
      (t : Tables)
      → AllOpened t
      → Ensures (Keeping (settled t)) (close_tables b) (λ _. Keeping (all_shut (settled t)))
  unfolding close_tables
  close_tables-Ensures t (fs, fp, fo) =
      let t0 = settled t in
      let t1 = update db_s shut t0 in
      let t2 = update db_p shut t1 in
      Ensures-bind _ _ (say-Holding b F laws _ _) λ _.
        Ensures-bind _ _ (run_db b F laws t0 t1 _ (close-View b laws db_s t0 fs refl)) λ _.
          Ensures-bind _ _ (run_db b F laws t1 t2 _ (close-View b laws db_p t1 fp refl)) λ _.
            Ensures-bind _ _
              (run_db b F laws t2 (all_shut t0) _ (close-View b laws db_o t2 fo refl))
              λ _. say-Holding b F laws _ _

  after_options-Ensures :
      (fuel : ℕ) (t : Tables)
      → AllFresh b F laws t
      → 3 < fuel
      → Ensures
          (Keeping t)
          (after_options b fuel (flags create_truncate))
          (λ c s. (c ≡ pos 0) × Keeping (all_shut (loaded (created t))) s)
  unfolding after_options
  after_options-Ensures fuel t fresh' lt =
      let nuls : Unit {0} × (Unit {0} × (Unit {0} × Unit {0})) = (tt, (tt, (tt, tt))) in
      let t1 = loaded (created t) in
      Ensures-try_catch _ _ (
        Ensures-bind _ _ (open_tables-Ensures b F laws t fresh') λ _.
          Ensures-bind _ _
            (insert_data-Ensures b F laws (created t) (refl, refl, tt) (refl, refl, tt)
              (refl, refl, tt))
            λ _.
              Ensures-bind _ _
                (print_tables-Ensures fuel t1 (refl, refl, refl) (nuls, nuls, nuls) (omega arith))
                λ _.
                  Ensures-bind _ _ (close_tables-Ensures t1 (refl, refl, refl))
                    λ _. Ensures-return (pos 0) λ s h. (refl, h))

  main_test-Ensures :
      (fuel : ℕ) (t : Tables)
      → AllFresh b F laws t
      → 3 < fuel
      → Ensures
          (Keeping t)
          (main_test b fuel (opt_c ∷ []))
          (λ c s. (c ≡ pos 0) × Keeping (all_shut (loaded (created t))) s)
  unfolding main_test
  main_test-Ensures fuel t fresh' lt = Ensures-bind _ _ (say-Holding b F laws _ _) λ _.
      Ensures-bind _ _ (options-Ensures b F laws ss ps os t)
        λ p. Ensures-assume _ λ e. rw e (after_options-Ensures fuel t fresh' lt)

-- With the option -c, over a lawful Berkeley DB whose three tables were never opened, berkeley_test
-- with fuel for four rounds of its loop returns 0, and has left the nine records in the tables, with
-- their handles closed.
pub main_test_lem :
    (b : Bdb) (F : Type 0) (laws : Lawful b) (fuel : ℕ) (t : Tables) (s : State b.World F)
    → laws.view s.db ≡ some t
    → AllFresh b F laws t
    → 3 < fuel
    → ((main_test b fuel (opt_c ∷ []) s).0 ≡ ok (pos 0))
      × (laws.view (main_test b fuel (opt_c ∷ []) s).1.db ≡ some (all_shut (loaded (created t))))
main_test_lem b F laws fuel t s v fresh' lt =
    let (c, e, (z, (v', same))) =
      (main_test-Ensures b F laws _ _ _ fuel t fresh' lt).at s (v, (refl, refl, refl)) in
    (e ∙ ap ok z, v')
