-- ===== src/Testfs/Walk.antt =====
-- The loop of testfs does to the state what the loop of bdb_vfs does, and fills the maps.
use m3sec.Common.{
  ℕ, zero, suc, ◌+◌, List, [], ◌∷◌, ◌++◌, Option, none, some, Bytes, ◌≡◌, refl, ap, arith, length,
  length-append, Bool-cases, inl, inr,
}
use m3sec.Common.Exec.{Outcome, ok, throw, running, pure, after, ◌>>=◌, ◌>>◌}
use m3sec.Bdb.{Bdb}
use m3sec.Rows.{Fetched, next_row}
use m3sec.BdbVfs.{State, on_db, say, push_row, read_rows}
use m3sec.Testfs.{Maps, bytes_ltb, insert, entry, walk_row, walk}

length-insert :
    (e : Bytes × Bytes) (m : List (Bytes × Bytes)) → length (insert e m) ≡ suc (length m)
unfolding insert
length-insert e [] = refl
length-insert e (e' ∷ m) = elim (Bool-cases (bytes_ltb e.0 e'.0)) [
  | inl t ↦ rw t
  | inr t ↦ rw t (ap suc (length-insert e m))
]

abbrev forget : {A : Type 0} → Outcome A → Outcome (Unit {0})
forget (ok a) = ok tt
forget (throw e) = throw e
forget running = running

-- A map grew as its vector did.
abbrev Grew : {A B : Type 0} → List A → List A → List B → List B → Type 0
Grew m m' v v' = length m' + length v ≡ length m + length v'

module _ {W F : Type 0} where
  -- The ends of a loop that fills the maps, from `m` and `s`, and of one that does not: the same
  -- state and the same outcome, and if that is a value, every map grew as its vector did.
  abbrev pub Walked :
      Maps → State W F → Outcome Maps × State W F → Outcome (Unit {0}) × State W F → Type 0
  Walked m s (ok m', s') (o, r) =
      (s' ≡ r)
      × (o ≡ ok tt)
      × Grew m.multi_subjs m'.multi_subjs s.subj_vector s'.subj_vector
      × Grew m.multi_preds m'.multi_preds s.pred_vector s'.pred_vector
      × Grew m.multi_objs m'.multi_objs s.obj_vector s'.obj_vector
  Walked m s (throw e, s') (o, r) = (s' ≡ r) × (o ≡ throw e)
  Walked m s (running, s') (o, r) = (s' ≡ r) × (o ≡ running)

  -- More was in the maps and the vectors at the start, by equal numbers.
  Walked-start :
      (m m1 : Maps) (s s1 : State W F) (x : Outcome Maps × State W F)
      (y : Outcome (Unit {0}) × State W F)
      → Grew m.multi_subjs m1.multi_subjs s.subj_vector s1.subj_vector
      → Grew m.multi_preds m1.multi_preds s.pred_vector s1.pred_vector
      → Grew m.multi_objs m1.multi_objs s.obj_vector s1.obj_vector
      → Walked m1 s1 x y
      → Walked m s x y
  Walked-start m m1 s s1 (ok m', s') (o, r) gs gp go (e, u, hs, hp, ho) =
      (e, u, omega arith, omega arith, omega arith)
  Walked-start m m1 s s1 (throw z, s') (o, r) gs gp go h = h
  Walked-start m m1 s s1 (running, s') (o, r) gs gp go h = h

-- The maps with one row more.
abbrev filled : Fetched → Maps → Maps
filled r m = record {
  multi_subjs = insert (entry r.key_s r.data_s) m.multi_subjs;
  multi_preds = insert (entry r.key_p r.data_p) m.multi_preds;
  multi_objs = insert (entry r.key_o r.data_o) m.multi_objs;
}

Grew-insert :
    (e : Bytes × Bytes) (m : List (Bytes × Bytes)) (v : List Bytes) (x : Bytes)
    → Grew m (insert e m) v (v ++ x ∷ [])
Grew-insert e m v x = omega (arith, length-insert e m, length-append v (x ∷ []))

module _ (b : Bdb) {F : Type 0} where
  after_row :
      (fuel : ℕ) (m : Maps) (s : State b.World F) (w : b.World) (o : Outcome (Option Fetched))
      → ((m' : Maps) (s' : State b.World F)
          → Walked m' s' (walk b fuel m' s') (read_rows b fuel s'))
      → let s1 : State b.World F = record s { db = w } in
        Walked m s
          (after o (λ row. elim row [ none ↦ pure m | some r ↦ walk_row r m >>= walk b fuel ]) s1)
          (after o
            (λ row. elim row [ none ↦ pure tt | some r ↦ push_row r >> read_rows b fuel ])
            s1)
  unfolding walk_row push_row say ◌>>=◌
  after_row fuel m s w (ok none) ih = (refl, refl, omega arith, omega arith, omega arith)
  after_row fuel m s w (ok (some r)) ih =
      Walked-start m (filled r m) s (push_row r (record s { db = w })).1 _ _
        (Grew-insert _ m.multi_subjs s.subj_vector _) (Grew-insert _ m.multi_preds s.pred_vector _)
        (Grew-insert _ m.multi_objs s.obj_vector _)
        (ih (filled r m) (push_row r (record s { db = w })).1)
  after_row fuel m s w (throw e) ih = (refl, refl)
  after_row fuel m s w running ih = (refl, refl)

  -- The loop of testfs, from any maps and any state, leaves the state and ends in the way in which
  -- the loop of bdb_vfs does with the same fuel; if it returns, each map has grown by as many
  -- entries as the vector of its table.
  pub walk_lem :
      (fuel : ℕ) (m : Maps) (s : State b.World F)
      → Walked m s (walk b fuel m s) (read_rows b fuel s)
  unfolding walk read_rows on_db ◌>>=◌
  walk_lem zero m s = (refl, refl)
  walk_lem (suc fuel) m s =
      after_row fuel m s (next_row b s.db).1 (next_row b s.db).0 (walk_lem fuel)
