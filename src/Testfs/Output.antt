-- ===== src/Testfs/Output.antt =====
-- The reading of the tables by testfs, and their closing, over a lawful Berkeley DB.
use m3sec.Common.{ℕ, ◌<◌, List, [], Bytes, ◌≡◌, refl, length}
use m3sec.Common.Exec.{◌>>◌}
use m3sec.Common.Exec.Ensures.{Ensures, Ensures-bind, Ensures-mono, Ensures-assume, Ensures-exists}
use m3sec.Bdb.{Bdb, db_s, db_p, db_o}
use m3sec.BdbLaws.{Tables, update, rewind, set_ahead, shut, Lawful}
use m3sec.Rows.Reading.{settled, AllOpened, View}
use m3sec.Rows.Calls.{cursor-View, close_cursor-View, close-View}
use m3sec.BdbVfs.{on_db}
use m3sec.BdbVfs.Loaded.{
  Holding, Settled, subjects, predicates, objects, say-Holding, read_rows_lem,
}
use m3sec.BdbVfs.Contents.{run_db}
use m3sec.BdbVfs.Printed.{joined, AllTerminated}
use m3sec.Testfs.{output_data, close_tables}
use m3sec.Testfs.Created.{print_all-Quiet, cleared, walk-Ensures}

-- The tables after their handles are closed.
abbrev pub all_shut : Tables → Tables
all_shut t = update db_o shut (update db_p shut (update db_s shut t))

module _ (b : Bdb) (F : Type 0) (laws : Lawful b) where
  module _ (ss ps os : List Bytes) where
    close_cursors_at :
        (t t' : Tables)
        → settled t' ≡ settled t
        → AllOpened t'
        → Ensures
            (Holding b F laws (View b laws t') ss ps os)
            (on_db (b.close_cursor db_s)
              >> (on_db (b.close_cursor db_p) >> on_db (b.close_cursor db_o)))
            (λ _. Holding b F laws (View b laws (settled t)) ss ps os)
    close_cursors_at t t' e (fs, fp, fo) =
        let t1 = update db_s (set_ahead []) t' in
        let t2 = update db_p (set_ahead []) t1 in
        Ensures-bind _ _ (run_db b F laws t' t1 _ (close_cursor-View b laws db_s t' fs)) λ _.
          Ensures-bind _ _ (run_db b F laws t1 t2 _ (close_cursor-View b laws db_p t1 fp)) λ _.
            Ensures-mono _ (λ s h. h) (λ _ s h. rw (← e) h)
              (run_db b F laws t2 (settled t') _ (close_cursor-View b laws db_o t2 fo))

    pub close_cursors :
        (t : Tables)
        → Ensures
            (Holding b F laws (Settled b F laws t) ss ps os)
            (on_db (b.close_cursor db_s)
              >> (on_db (b.close_cursor db_p) >> on_db (b.close_cursor db_o)))
            (λ _. Holding b F laws (View b laws (settled t)) ss ps os)
    close_cursors t =
        Ensures-mono
          {P = λ s.
            (t' : Tables) × (((settled t' ≡ settled t) × AllOpened t')
              × Holding b F laws (View b laws t') ss ps os s)}
          _ (λ s ((t', e, op, v), k). (t', ((e, op), (v, k)))) (λ _ s h. h)
          (Ensures-exists _ λ t'. Ensures-assume _ λ (e, op). close_cursors_at t t' e op)

    pub close_tables-Ensures :
        (t : Tables)
        → AllOpened t
        → Ensures
            (Holding b F laws (View b laws (settled t)) ss ps os)
            (close_tables b)
            (λ _. Holding b F laws (View b laws (all_shut (settled t))) ss ps os)
    unfolding close_tables
    close_tables-Ensures t (fs, fp, fo) =
        let t0 = settled t in
        let t1 = update db_s shut t0 in
        let t2 = update db_p shut t1 in
        Ensures-bind _ _ (say-Holding b F laws _ _) λ _.
          Ensures-bind _ _ (run_db b F laws t0 t1 _ (close-View b laws db_s t0 fs refl)) λ _.
            Ensures-bind _ _ (run_db b F laws t1 t2 _ (close-View b laws db_p t1 fp refl)) λ _.
              Ensures-bind _ _
                (run_db b F laws t2 (all_shut t0) _ (close-View b laws db_o t2 fo refl))
                λ _. say-Holding b F laws _ _

  -- The vectors are those of this reading, whatever they held before.
  pub output_data-Ensures :
      (ss ps os : List Bytes) (fuel : ℕ) (t : Tables)
      → AllOpened t
      → AllTerminated t
      → length (joined t) < fuel
      → Ensures (Holding b F laws (View b laws t) ss ps os) (output_data b fuel) (λ _.
        Holding b F laws
          (View b laws (settled t))
          (subjects (joined t))
          (predicates (joined t))
          (objects (joined t)))
  unfolding output_data
  output_data-Ensures ss ps os fuel t (fs, fp, fo) (ns, np, no') lt =
      let t1 = update db_s rewind t in
      let t2 = update db_p rewind t1 in
      let t3 = update db_o rewind t2 in
      Ensures-bind _ _ (say-Holding b F laws _ _) λ _.
        Ensures-bind _ _ (run_db b F laws t t1 _ (cursor-View b laws db_s t fs)) λ _.
          Ensures-bind _ _ (run_db b F laws t1 t2 _ (cursor-View b laws db_p t1 fp)) λ _.
            Ensures-bind _ _ (run_db b F laws t2 t3 _ (cursor-View b laws db_o t2 fo)) λ _.
              Ensures-bind _ _ (cleared b F laws _ ss ps os) λ _.
                Ensures-bind _ _
                  (walk-Ensures b F laws _ _ fuel _ (
                    read_rows_lem b F laws fuel t3 t.s.rows t.p.rows t.o.rows [] [] [] (fs, fp, fo)
                      refl refl refl ns np no' lt))
                  λ m.
                    Ensures-bind _ _ (print_all-Quiet b F laws _ _ _ _ m) λ _. close_cursors _ _ _ t
