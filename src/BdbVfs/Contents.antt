-- ===== src/BdbVfs/Contents.antt =====
-- bdb_vfs.cpp over a lawful Berkeley DB: what the functions make of the tables, and the vectors
-- after the tables are created, loaded and read.
use m3sec.Common.{pos, true, List, [], ◌∷◌, Bytes, codes, with_nul, ◌≡◌, refl, All, All-append}
use m3sec.Common.Exec.{Exec, ◌>>◌}
use m3sec.Common.Exec.Ensures.{Ensures, Ensures-bind, Ensures-return, Ensures-try_catch}
use m3sec.Bdb.{Bdb, Handle, db_s, db_p, db_o}
use m3sec.BdbLaws.{
  Row, fresh, opened, Table, Tables, table, update, set_dups, truncate, append_row, Lawful,
}
use m3sec.Rows.Reading.{View}
use m3sec.Rows.Calls.{set_flags-View, open_db-View, put-View}
use m3sec.BdbVfs.{State, on_db, create_db, insert_db_data}
use m3sec.BdbVfs.Loaded.{Holding, say-Holding, on_db-Holding}

-- The three tables as `createDb` leaves them.
abbrev pub created : Tables → Tables
created t = record {
  s = truncate (set_dups t.s);
  p = truncate (set_dups t.p);
  o = truncate (set_dups t.o);
}

-- A row of `insertDbData`: the key without its terminator, the value with it.
abbrev stored : Bytes → Bytes → Row
stored k v = (k, with_nul v)

abbrev pub subject : Bytes
subject = codes "subject"

abbrev pub predicate : Bytes
predicate = codes "predicate"

abbrev pub object : Bytes
object = codes "object"

-- Three rows behind those of one table.
abbrev pub three : Row → Row → Row → Handle → Tables → Tables
three x y z h t = update h (append_row z) (update h (append_row y) (update h (append_row x) t))

abbrev pub subject_rows : Tables → Tables
subject_rows =
    three (stored subject (codes "I")) (stored subject (codes "Kirill"))
      (stored subject (codes "Katya")) db_s

abbrev pub predicate_rows : Tables → Tables
predicate_rows =
    three (stored predicate (codes "am")) (stored predicate (codes "has"))
      (stored predicate (codes "sister of")) db_p

abbrev pub object_rows : Tables → Tables
object_rows =
    three (stored object (codes "Kirill.")) (stored object (codes "a sister."))
      (stored object (codes "Kirill")) db_o

-- The three tables as `insertDbData` leaves them.
abbrev pub loaded : Tables → Tables
loaded t = object_rows (predicate_rows (subject_rows t))

-- The table is open with DB_DUP, and its keys are all `k`.
abbrev pub Holds : Bytes → Table → Type 0
Holds k t = (t.phase ≡ opened) × (t.dups ≡ true) × All (λ r. r.0 ≡ k) t.rows

module _ (b : Bdb) (F : Type 0) (laws : Lawful b) where
  open laws use {view}

  abbrev pub AllFresh : Tables → Type 0
  AllFresh t = (t.s.phase ≡ fresh) × (t.p.phase ≡ fresh) × (t.o.phase ≡ fresh)

  -- A call of Berkeley DB that turns the tables `t` into `t'`.
  pub run_db :
      {A : Type 0} {ss ps os : List Bytes} (t t' : Tables) (m : Exec b.World A)
      → Ensures (View b laws t) m (λ _. View b laws t')
      → Ensures
          (Holding b F laws (View b laws t) ss ps os)
          (on_db m)
          (λ _. Holding b F laws (View b laws t') ss ps os)
  run_db t t' m h = on_db-Holding b F laws m h

  pub create_db-Ensures :
      {ss ps os : List Bytes} (t : Tables)
      → AllFresh t
      → Ensures
          (Holding b F laws (View b laws t) ss ps os)
          (create_db b)
          (λ c s. (c ≡ pos 0) × Holding b F laws (View b laws (created t)) ss ps os s)
  unfolding create_db
  create_db-Ensures t (fs, fp, fo) =
      let t1 = update db_s set_dups t in
      let t2 = update db_p set_dups t1 in
      let t3 = update db_o set_dups t2 in
      let t4 = update db_s truncate t3 in
      let t5 = update db_p truncate t4 in
      Ensures-try_catch _ _ (
        Ensures-bind _ _ (say-Holding b F laws _ _) λ _.
          Ensures-bind _ _ (run_db t t1 _ (set_flags-View b laws db_s t fs)) λ _.
            Ensures-bind _ _ (run_db t1 t2 _ (set_flags-View b laws db_p t1 fp)) λ _.
              Ensures-bind _ _ (run_db t2 t3 _ (set_flags-View b laws db_o t2 fo)) λ _.
                Ensures-bind _ _ (run_db t3 t4 _ (open_db-View b laws db_s _ t3 fs)) λ _.
                  Ensures-bind _ _ (run_db t4 t5 _ (open_db-View b laws db_p _ t4 fp)) λ _.
                    Ensures-bind _ _ (run_db t5 (created t) _ (open_db-View b laws db_o _ t5 fo))
                      λ _. Ensures-return (pos 0) λ s h. (refl, h))

  pub put_row :
      {ss ps os : List Bytes} (h : Handle) (k v : Bytes) (t : Tables)
      → Holds k (table t h)
      → Ensures
          (Holding b F laws (View b laws t) ss ps os)
          (on_db (b.put h k v))
          (λ _. Holding b F laws (View b laws (update h (append_row (k, v)) t)) ss ps os)
  put_row h k v t (op, d, a) = run_db t _ _ (put-View b laws h k v t op d a)

  table-update :
      (h : Handle) (f : Table → Table) (t : Tables) → table (update h f t) h ≡ f (table t h)
  table-update db_s f t = refl
  table-update db_p f t = refl
  table-update db_o f t = refl

  pub Holds-append_row :
      (h : Handle) (k v : Bytes) (t : Tables)
      → Holds k (table t h)
      → Holds k (table (update h (append_row (k, v)) t) h)
  Holds-append_row h k v t (op, d, a) =
      rw (table-update h (append_row (k, v)) t)
        (op, d, All-append _ (table t h).rows ((k, v) ∷ []) a (refl, tt))

  pub put_three :
      {A : Type 0} {ss ps os : List Bytes} {Q : A → State b.World F → Type 0} (h : Handle)
      (k x y z : Bytes) (t : Tables) (rest : Exec (State b.World F) A)
      → Holds k (table t h)
      → Ensures (Holding b F laws (View b laws (three (k, x) (k, y) (k, z) h t)) ss ps os) rest Q
      → Ensures
          (Holding b F laws (View b laws t) ss ps os)
          (on_db (b.put h k x) >> (on_db (b.put h k y) >> (on_db (b.put h k z) >> rest)))
          Q
  put_three h k x y z t rest op next =
      let op1 = Holds-append_row h k x t op in
      let op2 = Holds-append_row h k y _ op1 in
      Ensures-bind _ _ (put_row h k x t op) λ _.
        Ensures-bind _ _ (put_row h k y _ op1) λ _. Ensures-bind _ _ (put_row h k z _ op2) λ _. next

  pub insert_db_data-Ensures :
      {ss ps os : List Bytes} (t : Tables)
      → Holds subject t.s
      → Holds predicate t.p
      → Holds object t.o
      → Ensures
          (Holding b F laws (View b laws t) ss ps os)
          (insert_db_data b)
          (λ c s. (c ≡ pos 0) × Holding b F laws (View b laws (loaded t)) ss ps os s)
  unfolding insert_db_data
  insert_db_data-Ensures t hs hp ho = Ensures-try_catch _ _ (
      Ensures-bind _ _ (say-Holding b F laws _ _) λ _. put_three db_s subject _ _ _ t _ hs (
        put_three db_p predicate _ _ _ (subject_rows t) _ hp (
          put_three db_o object _ _ _ (predicate_rows (subject_rows t)) _ ho
            (Ensures-return (pos 0) λ s h. (refl, h)))))
