-- ===== src/TripleDb/Programs/Objects.antt =====
-- The three objects over databases none of whose calls fails: what is printed and stored.
use m3sec.Common.{
  Bool, true, false, Option, none, List, [], ◌∷◌, ◌++◌, Bytes, ◌≡◌, refl, ap, ◌∙◌, append_assoc,
}
use m3sec.Common.Exec.{ok, ◌>>=◌}
use m3sec.Console.{Chunk, text, lit, endl}
use m3sec.TripleDb.Database.Quiet.{new_my_db-opens, new_my_db-opens_secondary, close_my_db-closes}
use m3sec.TripleDb.Read.{Database, inventory_db, vendor_db, itemname_sdb}
use m3sec.TripleDb.Programs.{
  Tables, one_of, db_name, Program, on_object, object, construct, destruct,
}
use m3sec.TripleDb.Programs.Scope as Scope
use m3sec.BdbLaws.{fresh, opened, closed}
use m3sec.TripleDb.Programs.Store.{Records}
use m3sec.TripleDb.Programs.Laws.{
  Stored, View, handle, set_handle, set_phase, detach, MayClose, at_rest, all_shut, IsStore,
}

-- What `close` prints of an object.
abbrev pub closed_line : Bytes → Database → List Chunk
closed_line home d = lit "Database " ∷ text (home ++ db_name d) ∷ lit " is closed." ∷ endl ∷ []

-- The index is closed first.
abbrev pub closed_lines : Bytes → List Chunk
closed_lines home =
    closed_line home itemname_sdb ++ (closed_line home vendor_db ++ closed_line home inventory_db)

-- The objects while they live, the index being associated or not.
abbrev pub in_use : Bool → Option Database → Records → Stored → View
in_use associated cursor ahead c = record {
  inventory_handle = record { phase = opened; dups = false };
  vendor_handle = record { phase = opened; dups = false };
  index_handle = record { phase = opened; dups = true };
  associated = associated;
  cursor = cursor;
  ahead = ahead;
  stored = c;
}

-- What a constructor makes of the objects.
abbrev constructed : Database → View → View
constructed inventory_db v = set_phase opened inventory_db v
constructed vendor_db v = set_phase opened vendor_db v
constructed itemname_sdb v = set_handle itemname_sdb (record { phase = opened; dups = true }) v

module _ (t : Tables) (home : Bytes) (laws : IsStore t home) where
  construct_lem :
      (d : Database) (s : Program t.reader.World) (v : View)
      → laws.view s.db ≡ v
      → (handle v d).phase ≡ fresh
      → (w : t.reader.World) × (construct t home d s ≡ (ok tt, record s { db = w }))
        × (laws.view w ≡ constructed d v)
  unfolding construct on_object ◌>>=◌
  construct_lem inventory_db s v h p =
      let (w, e, k) = laws.open_db inventory_db s.db v h p in
      (w, rw (new_my_db-opens (one_of t inventory_db) (object home inventory_db s) w e) refl, k)
  construct_lem vendor_db s v h p =
      let (w, e, k) = laws.open_db vendor_db s.db v h p in
      (w, rw (new_my_db-opens (one_of t vendor_db) (object home vendor_db s) w e) refl, k)
  construct_lem itemname_sdb s v h p =
      let (w1, e1, k1) = laws.set_dupsort itemname_sdb s.db v h p in
      let (w2, e2, k2) = laws.open_db itemname_sdb w1 _ k1 refl in
      (
        w2,
        rw
            (new_my_db-opens_secondary (one_of t itemname_sdb) (object home itemname_sdb s) w1 w2 e1
              e2)
            refl,
        k2,
      )

  destruct_lem :
      (d : Database) (s : Program t.reader.World) (v : View)
      → laws.view s.db ≡ v
      → (handle v d).phase ≡ opened
      → v.cursor ≡ none
      → MayClose d v
      → (w : t.reader.World) × (destruct t home d s
          ≡ (ok tt, record s { db = w; cout = s.cout ++ closed_line home d }))
        × (laws.view w ≡ detach d (set_phase closed d v))
  unfolding destruct on_object ◌>>=◌
  destruct_lem d s v h p q m =
      let (w, e, k) = laws.close d s.db v h p q m in
      (w, rw (close_my_db-closes (one_of t d) (object home d s) w e) refl, k)

  -- The state in which the three objects live, and that after their scope.
  pub opened_lem :
      (s : Program t.reader.World) (c : Stored)
      → laws.view s.db ≡ at_rest c
      → (w : t.reader.World) × (Scope.opened t laws.responds home s ≡ record s { db = w })
        × (laws.view w ≡ in_use false none [] c)
  opened_lem s c h =
      let (w1, e1, k1) = construct_lem inventory_db s (at_rest c) h refl in
      let (w2, e2, k2) = construct_lem vendor_db (record s { db = w1 }) _ k1 refl in
      let (w3, e3, k3) = construct_lem itemname_sdb (record s { db = w2 }) _ k2 refl in
      (
        w3,
        ap (λ r. (construct t home itemname_sdb (construct t home vendor_db r.1).1).1) e1
            ∙ ap (λ r. (construct t home itemname_sdb r.1).1) e2
            ∙ ap (λ r. r.1) e3,
        k3,
      )

  pub closed_lem :
      (s : Program t.reader.World) (associated : Bool) (c : Stored)
      → laws.view s.db ≡ in_use associated none [] c
      → (w : t.reader.World) × (Scope.closed t laws.responds home s
          ≡ record s { db = w; cout = s.cout ++ closed_lines home })
        × (laws.view w ≡ all_shut c)
  closed_lem s associated c h =
      let (w1, e1, k1) = destruct_lem itemname_sdb s (in_use associated none [] c) h refl refl tt in
      let s1 = record s { db = w1; cout = s.cout ++ closed_line home itemname_sdb } in
      let (w2, e2, k2) = destruct_lem vendor_db s1 _ k1 refl refl tt in
      let s2 = record s1 { db = w2; cout = s1.cout ++ closed_line home vendor_db } in
      let (w3, e3, k3) = destruct_lem inventory_db s2 _ k2 refl refl refl in
      (
        w3,
        ap (λ r. (destruct t home inventory_db (destruct t home vendor_db r.1).1).1) e1
            ∙ ap (λ r. (destruct t home inventory_db r.1).1) e2
            ∙ ap (λ r. r.1) e3
            ∙ ap (λ c'. record s { db = w3; cout = c' })
                (append_assoc (s.cout ++ closed_line home itemname_sdb) (closed_line home vendor_db)
                    (closed_line home inventory_db)
                  ∙ append_assoc s.cout (closed_line home itemname_sdb) _),
        k3,
      )
