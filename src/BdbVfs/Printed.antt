-- ===== src/BdbVfs/Printed.antt =====
-- bdb_vfs.cpp over a lawful Berkeley DB: the vectors after `printDbData`, and after the three first
-- entries of the menu.
use m3sec.Common.{
  ℕ, ◌<◌, pos, List, [], ◌∷◌, ◌++◌, some, Bytes, codes, ◌≡◌, refl, ap, ◌∙◌, length, arith, c_string,
}
use m3sec.Common.Exec.{ok, pure, ◌>>◌}
use m3sec.Common.Exec.Ensures.{
  Ensures, Ensures-bind, Ensures-return, Ensures-mono, Ensures-assume, Ensures-exists,
  Ensures-try_catch,
}
use m3sec.Bdb.{Bdb, db_s, db_p, db_o}
use m3sec.BdbLaws.{Row, Tables, update, rewind, set_ahead, Lawful}
use m3sec.Rows.Reading.{settled, AllOpened, zip3, View}
use m3sec.Rows.Calls.{cursor-View, close_cursor-View}
use m3sec.BdbVfs.{State, on_db, create_db, insert_db_data, print_db_data}
use m3sec.BdbVfs.Loaded.{
  subjects, predicates, objects, Terminated, Holding, Settled, say-Holding, read_rows_lem,
}
use m3sec.BdbVfs.Contents.{
  created, loaded, AllFresh, run_db, create_db-Ensures, insert_db_data-Ensures,
}

-- The records of the three tables side by side.
abbrev pub joined : Tables → List (Row × Row × Row)
joined t = zip3 t.s.rows t.p.rows t.o.rows

abbrev pub AllTerminated : Tables → Type 0
AllTerminated t = Terminated t.s.rows × Terminated t.p.rows × Terminated t.o.rows

module _ (b : Bdb) (F : Type 0) (laws : Lawful b) where
  open laws use {view}

  -- The end of the function, from tables whose cursors stand somewhere.
  close_cursors_at :
      {ss ps os : List Bytes} (t t' : Tables)
      → settled t' ≡ settled t
      → AllOpened t'
      → Ensures
          (Holding b F laws (View b laws t') ss ps os)
          (on_db (b.close_cursor db_s)
            >> (on_db (b.close_cursor db_p) >> (on_db (b.close_cursor db_o) >> pure (pos 0))))
          (λ c s. (c ≡ pos 0) × Holding b F laws (View b laws (settled t)) ss ps os s)
  close_cursors_at t t' e (fs, fp, fo) =
      let t1 = update db_s (set_ahead []) t' in
      let t2 = update db_p (set_ahead []) t1 in
      Ensures-bind _ _ (run_db b F laws t' t1 _ (close_cursor-View b laws db_s t' fs)) λ _.
        Ensures-bind _ _ (run_db b F laws t1 t2 _ (close_cursor-View b laws db_p t1 fp)) λ _.
          Ensures-bind _ _ (run_db b F laws t2 (settled t') _ (close_cursor-View b laws db_o t2 fo))
            λ _. Ensures-return (pos 0) λ s h. (refl, rw (← e) h)

  close_cursors :
      {ss ps os : List Bytes} (t : Tables)
      → Ensures
          (Holding b F laws (Settled b F laws t) ss ps os)
          (on_db (b.close_cursor db_s)
            >> (on_db (b.close_cursor db_p) >> (on_db (b.close_cursor db_o) >> pure (pos 0))))
          (λ c s. (c ≡ pos 0) × Holding b F laws (View b laws (settled t)) ss ps os s)
  close_cursors {ss} {ps} {os} t =
      Ensures-mono
        {P = λ s.
          (t' : Tables) × (((settled t' ≡ settled t) × AllOpened t')
            × Holding b F laws (View b laws t') ss ps os s)}
        _ (λ s ((t', e, op, v), k). (t', ((e, op), (v, k)))) (λ c s h. h)
        (Ensures-exists _ λ t'. Ensures-assume _ λ (e, op). close_cursors_at t t' e op)

  print_db_data-Ensures :
      {ss ps os : List Bytes} (fuel : ℕ) (t : Tables)
      → AllOpened t
      → AllTerminated t
      → length (joined t) < fuel
      → Ensures (Holding b F laws (View b laws t) ss ps os) (print_db_data b fuel) (λ c s.
        (c ≡ pos 0)
        × Holding b F laws
            (View b laws (settled t))
            (ss ++ subjects (joined t))
            (ps ++ predicates (joined t))
            (os ++ objects (joined t))
            s)
  unfolding print_db_data
  print_db_data-Ensures fuel t (fs, fp, fo) (ns, np, no') lt =
      let t1 = update db_s rewind t in
      let t2 = update db_p rewind t1 in
      let t3 = update db_o rewind t2 in
      Ensures-try_catch _ _ (
        Ensures-bind _ _ (say-Holding b F laws _ _) λ _.
          Ensures-bind _ _ (run_db b F laws t t1 _ (cursor-View b laws db_s t fs)) λ _.
            Ensures-bind _ _ (run_db b F laws t1 t2 _ (cursor-View b laws db_p t1 fp)) λ _.
              Ensures-bind _ _ (run_db b F laws t2 t3 _ (cursor-View b laws db_o t2 fo)) λ _.
                Ensures-bind _ _
                  (read_rows_lem b F laws fuel t3 t.s.rows t.p.rows t.o.rows _ _ _ (fs, fp, fo) refl
                    refl refl ns np no' lt)
                  λ _. close_cursors t)

  -- Over a lawful Berkeley DB with the three tables open and every stored value terminated,
  -- `printDbData` returns 0 when its fuel exceeds the number of records that the shortest table
  -- has. It pushes the C strings of that many records of each table, in order, behind what the three
  -- vectors hold, and leaves the tables as they were, with the cursors closed.
  print_db_data_lem :
      (fuel : ℕ) (t : Tables) (s : State b.World F)
      → view s.db ≡ some t
      → AllOpened t
      → AllTerminated t
      → length (joined t) < fuel
      → ((print_db_data b fuel s).0 ≡ ok (pos 0))
        × ((print_db_data b fuel s).1.subj_vector ≡ s.subj_vector ++ subjects (joined t))
        × ((print_db_data b fuel s).1.pred_vector ≡ s.pred_vector ++ predicates (joined t))
        × ((print_db_data b fuel s).1.obj_vector ≡ s.obj_vector ++ objects (joined t))
        × (view (print_db_data b fuel s).1.db ≡ some (settled t))
  print_db_data_lem fuel t s v op nul lt =
      let (c, e, (z, (v', (es, ep, eo)))) =
        (print_db_data-Ensures fuel t op nul lt).at s (v, (refl, refl, refl)) in
      (e ∙ ap ok z, es, ep, eo, v')

  load_and_print-Ensures :
      {ss ps os : List Bytes} (fuel : ℕ) (t : Tables)
      → AllFresh b F laws t
      → 3 < fuel
      → Ensures
          (Holding b F laws (View b laws t) ss ps os)
          (create_db b >> (insert_db_data b >> print_db_data b fuel))
          (λ c s.
            (c ≡ pos 0)
            × Holding b F laws
                (View b laws (settled (loaded (created t))))
                (ss ++ codes "I" ∷ codes "Kirill" ∷ codes "Katya" ∷ [])
                (ps ++ codes "am" ∷ codes "has" ∷ codes "sister of" ∷ [])
                (os ++ codes "Kirill." ∷ codes "a sister." ∷ codes "Kirill" ∷ [])
                s)
  unfolding c_string
  load_and_print-Ensures fuel t fresh' lt =
      let nuls : Unit {0} × (Unit {0} × (Unit {0} × Unit {0})) = (tt, (tt, (tt, tt))) in
      Ensures-bind _ _ (create_db-Ensures b F laws t fresh') λ _. Ensures-assume _ λ _.
        Ensures-bind _ _
          (insert_db_data-Ensures b F laws (created t) (refl, refl, tt) (refl, refl, tt)
            (refl, refl, tt))
          λ _. Ensures-assume _ λ _.
            print_db_data-Ensures fuel (loaded (created t)) (refl, refl, refl) (nuls, nuls, nuls)
              (omega arith)

  -- The entries 1, 2 and 3 of the menu, in this order and with fuel for four rounds, over a lawful
  -- Berkeley DB whose handles were never used: the last call returns 0, the vectors have gained the
  -- three subjects, predicates and objects in the order of the program text, and the tables hold
  -- just the nine records.
  pub load_and_print :
      (fuel : ℕ) (t : Tables) (s : State b.World F)
      → view s.db ≡ some t
      → AllFresh b F laws t
      → 3 < fuel
      → let (o, s') = (create_db b >> (insert_db_data b >> print_db_data b fuel)) s in
        (o ≡ ok (pos 0))
        × (s'.subj_vector ≡ s.subj_vector ++ codes "I" ∷ codes "Kirill" ∷ codes "Katya" ∷ [])
        × (s'.pred_vector ≡ s.pred_vector ++ codes "am" ∷ codes "has" ∷ codes "sister of" ∷ [])
        × (s'.obj_vector
            ≡ s.obj_vector ++ codes "Kirill." ∷ codes "a sister." ∷ codes "Kirill" ∷ [])
        × (view s'.db ≡ some (settled (loaded (created t))))
  load_and_print fuel t s v fresh' lt =
      let (c, e, (z, (v', (es, ep, eo)))) =
        (load_and_print-Ensures fuel t fresh' lt).at s (v, (refl, refl, refl)) in
      (e ∙ ap ok z, es, ep, eo, v')
