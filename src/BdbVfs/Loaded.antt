-- ===== src/BdbVfs/Loaded.antt =====
-- bdb_vfs.cpp over a lawful Berkeley DB: what `createDb`, `insertDbData` and `printDbData` make of
-- the tables and of the vectors.
use mathlib.Core.Path.{subst}
use mathlib.Core.Option.{some-injective}
use m3sec.Common.{
  ℕ, zero, suc, ◌<◌, List, [], ◌∷◌, ◌++◌, map, append-nil, append_assoc, Option, none, some, Bytes,
  ◌≡◌, refl, sym, ◌∙◌, arith, length, c_string, HasNul, All,
}
use m3sec.Common.Exec.{Exec, pure, ◌>>=◌, ◌>>◌}
use m3sec.Common.Exec.Ensures.{Ensures, Ensures-bind, Ensures-assume, Ensures-return, Ensures-mono}
use m3sec.Console.{Chunk}
use m3sec.Bdb.{Bdb}
use m3sec.BdbLaws.{Row, Tables, Lawful}
use m3sec.Rows.{Fetched}
use m3sec.Rows.Reading.{
  settled, AllOpened, zip3, View, ReadRow, Read, advance, Stopped, next_row_full, next_row_short,
}
use m3sec.BdbVfs.{State, say, on_db, push_row, read_rows}

-- The C strings of the data of the rows that are read together.
abbrev pub subjects : List (Row × Row × Row) → List Bytes
subjects = map (λ z. c_string z.0.1)

abbrev pub predicates : List (Row × Row × Row) → List Bytes
predicates = map (λ z. c_string z.1.1)

abbrev pub objects : List (Row × Row × Row) → List Bytes
objects = map (λ z. c_string z.2.1)

abbrev pub Terminated : List Row → Type 0
Terminated = All (λ r. HasNul r.1)

module _ (b : Bdb) (F : Type 0) (laws : Lawful b) where
  open laws use {view}

  abbrev S' : Type 0
  S' = State b.World F

  -- The three vectors, and what is known of the database.
  abbrev pub Holding : (b.World → Type 0) → List Bytes → List Bytes → List Bytes → S' → Type 0
  Holding X ss ps os s =
      X s.db × ((s.subj_vector ≡ ss) × (s.pred_vector ≡ ps) × (s.obj_vector ≡ os))

  module _ {ss ps os : List Bytes} where
    pub say-Holding :
        (X : b.World → Type 0) (l : List Chunk)
        → Ensures (Holding X ss ps os) (say l) (λ _. Holding X ss ps os)
    unfolding say ◌>>=◌
    say-Holding X l = record { at = λ s h. (tt, refl, h) }

    pub on_db-Holding :
        {A : Type 0} {X : b.World → Type 0} {Y : A → b.World → Type 0} (m : Exec b.World A)
        → Ensures X m Y
        → Ensures (Holding X ss ps os) (on_db m) (λ a. Holding (Y a) ss ps os)
    unfolding on_db ◌>>=◌
    on_db-Holding m h = record { at = λ s k. let (a, e, y) = h.at s.db k.0 in (a, e, (y, k.1)) }

    push_row-Holding :
        (X : b.World → Type 0) (r : Fetched)
        → Ensures (Holding X ss ps os) (push_row r) (λ _.
          Holding X
            (ss ++ c_string r.data_s ∷ [])
            (ps ++ c_string r.data_p ∷ [])
            (os ++ c_string r.data_o ∷ []))
    unfolding push_row say ◌>>=◌
    push_row-Holding X r = record { at = λ s h. (tt, refl, (h.0, (rw h.1.0, rw h.1.1, rw h.1.2))) }

  -- The tables are as in `t` but for the cursors.
  abbrev pub Settled : Tables → b.World → Type 0
  Settled t w = (t' : Tables) × (settled t' ≡ settled t) × AllOpened t' × View b laws t' w

  module _ (rest : Exec S' (Unit {0})) where
    -- What the loop does with the row that it read.
    abbrev step : Option Fetched → Exec S' (Unit {0})
    step x = elim x [ none ↦ pure tt | some r ↦ push_row r >> rest ]

    step_none :
        (t : Tables) {ss ps os : List Bytes} (x : Option Fetched)
        → Ensures
            (Holding (Stopped b laws t x) ss ps os)
            (step x)
            (λ _. Holding (Settled t) ss ps os)
    step_none t none = Ensures-return tt λ s h. (h.0.1, h.1)
    step_none t (some r) = record { at = λ s h. cc (h.0.0) }

    step_some :
        (t : Tables) (a p o : Row) (ss ps os : List Bytes) {Q : S' → Type 0} (x : Option Fetched)
        → Ensures
            (Holding
              (View b laws t)
              (ss ++ c_string a.1 ∷ [])
              (ps ++ c_string p.1 ∷ [])
              (os ++ c_string o.1 ∷ []))
            rest
            (λ _. Q)
        → Ensures (Holding (Read b laws t a p o x) ss ps os) (step x) (λ _. Q)
    step_some t a p o ss ps os none h = record { at = λ s k. let (r, e, c) = k.0.0 in cc (e) }
    step_some t a p o ss ps os (some r) h =
        Ensures-mono _
          (λ s k.
            let (r', e, c) = k.0.0 in
            (subst (ReadRow b laws a p o) (sym (some-injective r r' e)) c, (k.0.1, k.1)))
          (λ _ s q. q)
          (Ensures-assume {P = Holding (View b laws t) ss ps os} _
            λ c. Ensures-bind _ _ (push_row-Holding (View b laws t) r) λ _. rw (c.0, c.1, c.2) h)

  read_rows_short :
      (fuel : ℕ) (t : Tables) (as' bs cs : List Row) (ss ps os : List Bytes)
      → AllOpened t
      → t.s.ahead ≡ as'
      → t.p.ahead ≡ bs
      → t.o.ahead ≡ cs
      → Terminated as'
      → Terminated bs
      → zip3 as' bs cs ≡ []
      → Ensures
          (Holding (View b laws t) ss ps os)
          (read_rows b (suc fuel))
          (λ _. Holding (Settled t) ss ps os)
  unfolding read_rows
  read_rows_short fuel t as' bs cs ss ps os op es ep eo ns np z =
      Ensures-bind _ _ (on_db-Holding _ (next_row_short b laws t as' bs cs op es ep eo ns np z))
        λ x. step_none (read_rows b fuel) t x

  -- The rows that are read, side by side, are pushed behind what the vectors hold.
  abbrev pub Pushed :
      Tables → List (Row × Row × Row) → List Bytes → List Bytes → List Bytes → S' → Type 0
  Pushed t z ss ps os =
      Holding (Settled t) (ss ++ subjects z) (ps ++ predicates z) (os ++ objects z)

  pub read_rows_lem :
      (fuel : ℕ) (t : Tables) (as' bs cs : List Row) (ss ps os : List Bytes)
      → AllOpened t
      → t.s.ahead ≡ as'
      → t.p.ahead ≡ bs
      → t.o.ahead ≡ cs
      → Terminated as'
      → Terminated bs
      → Terminated cs
      → length (zip3 as' bs cs) < fuel
      → Ensures
          (Holding (View b laws t) ss ps os)
          (read_rows b fuel)
          (λ _. Pushed t (zip3 as' bs cs) ss ps os)
  unfolding read_rows
  read_rows_lem zero t as' bs cs ss ps os op es ep eo ns np no' lt = absurd (omega arith)
  read_rows_lem (suc n) t (a ∷ as') (p ∷ bs) (o ∷ cs) ss ps os op es ep eo ns np no' lt =
      Ensures-bind _ _
        (on_db-Holding _ (next_row_full b laws t a p o as' bs cs op es ep eo ns.0 np.0 no'.0))
        λ x. step_some (read_rows b n) (advance b laws as' bs cs t) a p o ss ps os x (
          Ensures-mono _ (λ s h. h)
            (λ _ s h. (
              h.0,
              (
                h.1.0 ∙ append_assoc ss _ _,
                h.1.1 ∙ append_assoc ps _ _,
                h.1.2 ∙ append_assoc os _ _,
              ),
            ))
            (read_rows_lem n (advance b laws as' bs cs t) as' bs cs _ _ _ op refl refl refl ns.1
              np.1 no'.1 (omega arith)))
  read_rows_lem (suc n) t [] bs cs ss ps os op es ep eo ns np no' lt =
      rw (append-nil ss, append-nil ps, append-nil os)
        (read_rows_short n t [] bs cs ss ps os op es ep eo ns np refl)
  read_rows_lem (suc n) t (a ∷ as') [] cs ss ps os op es ep eo ns np no' lt =
      rw (append-nil ss, append-nil ps, append-nil os)
        (read_rows_short n t (a ∷ as') [] cs ss ps os op es ep eo ns np refl)
  read_rows_lem (suc n) t (a ∷ as') (p ∷ bs) [] ss ps os op es ep eo ns np no' lt =
      rw (append-nil ss, append-nil ps, append-nil os)
        (read_rows_short n t (a ∷ as') (p ∷ bs) [] ss ps os op es ep eo ns np refl)
