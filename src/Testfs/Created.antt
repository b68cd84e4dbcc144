-- ===== src/Testfs/Created.antt =====
-- The parts of the try statement of testfs over a lawful Berkeley DB.
use m3sec.Common.{ℕ, List, [], ◌∷◌, Bytes, codes, ◌≡◌, refl, sym, ◌∙◌, with_nul}
use mathlib.Core.Path.{subst}
use m3sec.Common.Exec.{Exec, Outcome, ok, throw, running, modify, gets, ◌>>=◌}
use m3sec.Common.Exec.Ensures.{Ensures, Ensures-bind, Ensures-return}
use m3sec.Console.{Chunk}
use m3sec.Bdb.{Bdb, db_s, db_p, db_o, create_truncate, rdonly}
use m3sec.BdbLaws.{Tables, update, set_dups, truncate, append_row, Lawful}
use m3sec.Rows.Reading.{View}
use m3sec.Rows.Calls.{set_flags-View, open_db-View}
use m3sec.BdbVfs.{State, read_rows}
use m3sec.BdbVfs.Loaded.{Holding, say-Holding}
use m3sec.BdbVfs.Contents.{
  created, loaded, subject, predicate, object, subject_rows, predicate_rows, AllFresh, Holds,
  run_db, put_row, Holds-append_row, put_three,
}
use m3sec.Testfs.{
  opt_c, flags, parse_options, Maps, print, print_items, print_entries, print_all, open_tables,
  put_rows, insert_data, walk,
}
use m3sec.Testfs.Walk.{Walked, walk_lem}

module _ (b : Bdb) (F : Type 0) (laws : Lawful b) where
  pub open_tables-Ensures :
      {ss ps os : List Bytes} (t : Tables)
      → AllFresh b F laws t
      → Ensures
          (Holding b F laws (View b laws t) ss ps os)
          (open_tables b create_truncate)
          (λ _. Holding b F laws (View b laws (created t)) ss ps os)
  unfolding open_tables
  open_tables-Ensures t (fs, fp, fo) =
      let t1 = update db_s set_dups t in
      let t2 = update db_p set_dups t1 in
      let t3 = update db_o set_dups t2 in
      let t4 = update db_s truncate t3 in
      let t5 = update db_p truncate t4 in
      Ensures-bind _ _ (run_db b F laws t t1 _ (set_flags-View b laws db_s t fs)) λ _.
        Ensures-bind _ _ (run_db b F laws t1 t2 _ (set_flags-View b laws db_p t1 fp)) λ _.
          Ensures-bind _ _ (run_db b F laws t2 t3 _ (set_flags-View b laws db_o t2 fo)) λ _.
            Ensures-bind _ _ (run_db b F laws t3 t4 _ (open_db-View b laws db_s _ t3 fs)) λ _.
              Ensures-bind _ _ (run_db b F laws t4 t5 _ (open_db-View b laws db_p _ t4 fp))
                λ _. run_db b F laws t5 (created t) _ (open_db-View b laws db_o _ t5 fo)

  pub insert_data-Ensures :
      {ss ps os : List Bytes} (t : Tables)
      → Holds subject t.s
      → Holds predicate t.p
      → Holds object t.o
      → Ensures
          (Holding b F laws (View b laws t) ss ps os)
          (insert_data b create_truncate)
          (λ _. Holding b F laws (View b laws (loaded t)) ss ps os)
  unfolding insert_data put_rows
  insert_data-Ensures t hs hp ho = Ensures-bind _ _ (say-Holding b F laws _ _) λ _.
      put_three b F laws db_s subject _ _ _ t _ hs (
        put_three b F laws db_p predicate _ _ _ (subject_rows t) _ hp (
          let t2 = predicate_rows (subject_rows t) in
          let t3 = update db_o (append_row (object, with_nul (codes "Kirill."))) t2 in
          let h1 = Holds-append_row b F laws db_o object _ t2 ho in
          let h2 = Holds-append_row b F laws db_o object _ t3 h1 in
          Ensures-bind _ _ (put_row b F laws db_o object _ t2 ho) λ _.
            Ensures-bind _ _ (put_row b F laws db_o object _ t3 h1)
              λ _. put_row b F laws db_o object _ _ h2))

  pub options-Ensures :
      (ss ps os : List Bytes) (t : Tables)
      → Ensures
          (Holding b F laws (View b laws t) ss ps os)
          (parse_options rdonly (opt_c ∷ []))
          (λ p s. (p ≡ flags create_truncate) × Holding b F laws (View b laws t) ss ps os s)
  unfolding parse_options
  options-Ensures ss ps os t =
      Ensures-bind _ _ (say-Holding b F laws _ _)
        λ _. Ensures-return (flags create_truncate) λ s h. (refl, h)

  module _ (X : b.World → Type 0) (ss ps os : List Bytes) where
    -- What is printed changes nothing else.
    abbrev Quiet : {A : Type 0} → Exec (State b.World F) A → Type 0
    Quiet m = Ensures (Holding b F laws X ss ps os) m (λ _. Holding b F laws X ss ps os)

    print-Quiet : (line : List Chunk) → Quiet (print line)
    unfolding print ◌>>=◌
    print-Quiet line = record { at = λ s h. (tt, refl, h) }

    gets-Quiet : {A : Type 0} (g : State b.World F → A) → Quiet (gets g)
    unfolding ◌>>=◌
    gets-Quiet g = record { at = λ s h. (g s, refl, h) }

    print_items-Quiet : (vs : List Bytes) → Quiet (print_items vs)
    unfolding print_items
    print_items-Quiet [] = print-Quiet _
    print_items-Quiet (v ∷ vs) = Ensures-bind _ _ (print-Quiet _) λ _. print_items-Quiet vs

    print_entries-Quiet : (m : List (Bytes × Bytes)) → Quiet (print_entries m)
    unfolding print_entries
    print_entries-Quiet [] = Ensures-return tt λ s h. h
    print_entries-Quiet (e ∷ m) =
        Ensures-bind _ _ (say-Holding b F laws X _) λ _. print_entries-Quiet m

    pub print_all-Quiet : (m : Maps) → Quiet (print_all m)
    unfolding print_all
    print_all-Quiet m = Ensures-bind _ _ (gets-Quiet _) λ subjs.
        Ensures-bind _ _ (gets-Quiet _) λ preds. Ensures-bind _ _ (gets-Quiet _) λ objs.
          Ensures-bind _ _ (print-Quiet _) λ _. Ensures-bind _ _ (print_items-Quiet subjs) λ _.
            Ensures-bind _ _ (print-Quiet _) λ _. Ensures-bind _ _ (print_items-Quiet preds) λ _.
              Ensures-bind _ _ (print-Quiet _) λ _. Ensures-bind _ _ (print_items-Quiet objs) λ _.
                Ensures-bind _ _ (print-Quiet _) λ _.
                  Ensures-bind _ _ (print_entries-Quiet m.multi_subjs) λ _.
                    Ensures-bind _ _ (print-Quiet _) λ _.
                      Ensures-bind _ _ (print_entries-Quiet m.multi_preds)
                        λ _. Ensures-bind _ _ (print-Quiet _) λ _. print_entries-Quiet m.multi_objs

    pub cleared :
        Ensures
          (Holding b F laws X ss ps os)
          (modify (λ s. record s { subj_vector = []; pred_vector = []; obj_vector = [] }))
          (λ _. Holding b F laws X [] [] [])
    unfolding ◌>>=◌
    cleared = record { at = λ s h. (tt, refl, (h.0, (refl, refl, refl))) }

  Walked-ok :
      (Q : State b.World F → Type 0) (m : Maps) (s : State b.World F)
      (x : Outcome Maps × State b.World F) (y : Outcome (Unit {0}) × State b.World F) (u : Unit {0})
      → Walked m s x y
      → y.0 ≡ ok u
      → Q y.1
      → (m' : Maps) × (x.0 ≡ ok m') × Q x.1
  Walked-ok Q m s (ok m', s') (o, r) u h e q = (m', refl, subst Q (sym h.0) q)
  Walked-ok Q m s (throw z, s') (o, r) u h e q = let t = sym h.1 ∙ e in cc (t)
  Walked-ok Q m s (running, s') (o, r) u h e q = let t = sym h.1 ∙ e in cc (t)

  -- The loop of testfs ends as that of bdb_vfs.
  pub walk-Ensures :
      (P Q : State b.World F → Type 0) (fuel : ℕ) (m : Maps)
      → Ensures P (read_rows b fuel) (λ _. Q)
      → Ensures P (walk b fuel m) (λ _. Q)
  walk-Ensures P Q fuel m h = record {
    at = λ s p.
        let (u, e, q) = h.at s p in
        Walked-ok Q m s (walk b fuel m s) (read_rows b fuel s) u (walk_lem b fuel m s) e q;
  }
