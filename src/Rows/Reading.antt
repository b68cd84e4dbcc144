-- ===== src/Rows/Reading.antt =====
-- One round of the loop test over a lawful Berkeley DB.
use mathlib.Core.Path.{subst}
use m3sec.Common.{
  List, [], ◌∷◌, ◌++◌, Option, none, some, Bytes, ◌≡◌, refl, sym, c_string, HasNul, All,
  c_string-append_of_HasNul,
}
use m3sec.Common.Exec.{Exec, ◌>>=◌}
use m3sec.Common.Exec.Ensures.{Ensures, Ensures-bind, Ensures-assume, Ensures-return}
use m3sec.Bdb.{Bdb, Handle, db_s, db_p, db_o, found, not_found}
use m3sec.BdbLaws.{Row, opened, Tables, table, update, set_ahead, Lawful}
use m3sec.Rows.{Fetched, and_then, next_row}

-- The tables without the positions of the cursors.
abbrev pub settled : Tables → Tables
settled t = record { s = set_ahead [] t.s; p = set_ahead [] t.p; o = set_ahead [] t.o }

abbrev pub AllOpened : Tables → Type 0
AllOpened t = (t.s.phase ≡ opened) × (t.p.phase ≡ opened) × (t.o.phase ≡ opened)

-- The rows of three tables side by side, as far as the shortest goes.
abbrev pub zip3 : List Row → List Row → List Row → List (Row × Row × Row)
zip3 (a ∷ as') (b ∷ bs) (c ∷ cs) = (a, b, c) ∷ zip3 as' bs cs
zip3 _ _ _ = []

module _ (b : Bdb) (laws : Lawful b) where
  open laws use {view, behind_key, behind_data}

  abbrev pub View : Tables → b.World → Type 0
  View t w = view w ≡ some t

  module _ {A : Type 0} {Q : Option A → b.World → Type 0} (h : Handle) (t : Tables)
      (op : (table t h).phase ≡ opened) (more : Bytes → Bytes → Exec b.World (Option A)) where
    -- The cursor of `h` is at its end.
    at_end :
        (table t h).ahead ≡ []
        → ((w : b.World) → View t w → Q none w)
        → Ensures (View t) (b.get_next h >>= λ r. and_then r more) Q
    unfolding and_then
    at_end e stop =
        Ensures-bind {R = λ r w. (r ≡ not_found) × View t w} _ _
          (record {
            at = λ w v.
                let (ok', v') = laws.get_end_law h w t v op e in (not_found, ok', (refl, v'));
          })
          λ r. Ensures-assume _ λ e'.
            subst (λ x. Ensures (View t) (and_then x more) Q) (sym e') (Ensures-return none stop)

    -- The cursor of `h` is at `row`; the data that it points at reads as the stored C string.
    at_row :
        (row : Row) (rest : List Row)
        → (table t h).ahead ≡ row ∷ rest
        → HasNul row.1
        → ((k d : Bytes)
            → c_string d ≡ c_string row.1
            → Ensures (View (update h (set_ahead rest) t)) (more k d) Q)
        → Ensures (View t) (b.get_next h >>= λ r. and_then r more) Q
    unfolding and_then
    at_row (k, d) rest e nul go =
        Ensures-bind
          {R = λ r w.
            ((x : Bytes) × (y : Bytes) × (r ≡ found x y) × (c_string y ≡ c_string d))
            × View (update h (set_ahead rest) t) w}
          _ _
          (record {
            at = λ w v.
                let (ok', v') = laws.get_next_law h w t k d rest v op e in
                (
                  found (k ++ behind_key w h) (d ++ behind_data w h),
                  ok',
                  (
                    (
                      k ++ behind_key w h,
                      d ++ behind_data w h,
                      refl,
                      c_string-append_of_HasNul d (behind_data w h) nul,
                    ),
                    v',
                  ),
                );
          })
          λ r. Ensures-assume _ λ (x, y, e', c).
            subst (λ z. Ensures (View (update h (set_ahead rest) t)) (and_then z more) Q) (sym e')
              (go x y c)

  -- The tables after a round in which every cursor had a record.
  abbrev pub advance : List Row → List Row → List Row → Tables → Tables
  advance as' ps os t = record { s = set_ahead as' t.s; p = set_ahead ps t.p; o = set_ahead os t.o }

  -- The row that was read has the texts that are stored.
  abbrev pub ReadRow : Row → Row → Row → Fetched → Type 0
  ReadRow a p o r =
      (c_string r.data_s ≡ c_string a.1)
      × (c_string r.data_p ≡ c_string p.1)
      × (c_string r.data_o ≡ c_string o.1)

  abbrev pub Read : Tables → Row → Row → Row → Option Fetched → b.World → Type 0
  Read t a p o x w = ((r : Fetched) × (x ≡ some r) × ReadRow a p o r) × View t w

  pub next_row_full :
      (t : Tables) (a p o : Row) (as' ps os : List Row)
      → AllOpened t
      → t.s.ahead ≡ a ∷ as'
      → t.p.ahead ≡ p ∷ ps
      → t.o.ahead ≡ o ∷ os
      → HasNul a.1
      → HasNul p.1
      → HasNul o.1
      → Ensures (View t) (next_row b) (Read (advance as' ps os t) a p o)
  unfolding next_row
  next_row_full t a p o as' ps os (xs, xp, xo) es ep eo ns np no' =
      let Q = Read (advance as' ps os t) a p o in
      at_row {Q = Q} db_s t xs _ a as' es ns λ ks ds cs.
        at_row {Q = Q} db_p (update db_s (set_ahead as') t) xp _ p ps ep np λ kp dp cp.
          at_row {Q = Q} db_o (update db_p (set_ahead ps) (update db_s (set_ahead as') t)) xo _ o os
            eo no' λ ko do' co. Ensures-return _ λ w v. ((_, refl, (cs, cp, co)), v)

  -- A round in which a cursor was at its end.
  abbrev pub Stopped : Tables → Option Fetched → b.World → Type 0
  Stopped t x w = (x ≡ none) × ((t' : Tables) × (settled t' ≡ settled t) × AllOpened t' × View t' w)

  stopped :
      (t t' : Tables) (w : b.World)
      → settled t' ≡ settled t
      → AllOpened t'
      → View t' w
      → Stopped t none w
  stopped t t' w e op v = (refl, (t', e, op, v))

  -- A table has no record left.
  pub next_row_short :
      (t : Tables) (as' ps os : List Row)
      → AllOpened t
      → t.s.ahead ≡ as'
      → t.p.ahead ≡ ps
      → t.o.ahead ≡ os
      → All (λ r. HasNul r.1) as'
      → All (λ r. HasNul r.1) ps
      → zip3 as' ps os ≡ []
      → Ensures (View t) (next_row b) (Stopped t)
  unfolding next_row
  next_row_short t [] ps os (xs, xp, xo) es ep eo ns np z =
      at_end db_s t xs _ es λ w v. stopped t t w refl (xs, xp, xo) v
  next_row_short t (a ∷ as') [] os (xs, xp, xo) es ep eo ns np z =
      let t' = update db_s (set_ahead as') t in
      at_row {Q = Stopped t} db_s t xs _ a as' es ns.0
        λ ks ds cs. at_end db_p t' xp _ ep λ w v. stopped t t' w refl (xs, xp, xo) v
  next_row_short t (a ∷ as') (p ∷ ps) [] (xs, xp, xo) es ep eo ns np z =
      let t' = update db_s (set_ahead as') t in
      let t'' = update db_p (set_ahead ps) t' in
      at_row {Q = Stopped t} db_s t xs _ a as' es ns.0 λ ks ds cs.
        at_row {Q = Stopped t} db_p t' xp _ p ps ep np.0
          λ kp dp cp. at_end db_o t'' xo _ eo λ w v. stopped t t'' w refl (xs, xp, xo) v
  next_row_short t (a ∷ as') (p ∷ ps) (o ∷ os) op es ep eo ns np z = cc
