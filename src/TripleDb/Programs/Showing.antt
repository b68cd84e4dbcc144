-- ===== src/TripleDb/Programs/Showing.antt =====
-- The reading program over databases none of whose calls fails: what is printed of what is in them.
use m3sec.Common.{
  ℕ, ◌<◌, List, [], ◌∷◌, ◌++◌, map, none, some, true, false, pos, Bytes, codes, ◌≡◌, refl, ap, ◌∙◌,
  All, with_nul, length, append_assoc,
}
use m3sec.Common.Exec.{ok, try_catch, ◌>>=◌}
use m3sec.TripleDb.Inventory.{InventoryData}
use m3sec.TripleDb.Inventory.Marshal.{image}
use m3sec.TripleDb.Inventory.RoundTrip.{IsItem}
use m3sec.TripleDb.Vendor.Layout.{Vendor, members, layout, Terminated}
use m3sec.TripleDb.Options.{Opt, parsed, parse_read}
use m3sec.TripleDb.Read.Shown.{Yields, at_end, item, all_lines, show_all_records_lem}
use m3sec.TripleDb.Programs.{
  Tables, Program, on_console, on_world, read_body, after_read_options, main_read,
}
use m3sec.TripleDb.Read.{inventory_db}
use m3sec.TripleDb.Programs.Scope.{with_objects-ending}
use m3sec.TripleDb.Programs.Store.{find, record_key}
use m3sec.TripleDb.Programs.Laws.{Stored, IsStore, at_rest, all_shut}
use m3sec.TripleDb.Programs.Objects.{closed_lines, in_use, opened_lem, closed_lem}
use m3sec.TripleDb.Programs.Loading.{vendor_record, ready}

-- An item with its vendor.
abbrev pub Entry : Type 0
Entry = InventoryData × Vendor

abbrev pub item_record : Entry → Bytes × Bytes
item_record e = (with_nul e.0.sku, image e.0)

-- The item can be read back, and its vendor is found.
abbrev pub Listed : Stored → Entry → Type 0
Listed c e =
    IsItem e.0
    × Terminated (members e.1)
    × (find record_key (with_nul e.0.vendor) c.vendors ≡ some (vendor_record e.1))

module _ (t : Tables) (home : Bytes) (laws : IsStore t home) where
  Yields_lem :
      (es : List Entry) (c : Stored) (w : t.reader.World)
      → All (Listed c) es
      → laws.view w ≡ in_use true (some inventory_db) (map item_record es) c
      → (w' : t.reader.World) × Yields t.reader es w w'
        × (laws.view w' ≡ in_use true (some inventory_db) [] c)
  Yields_lem [] c w h k =
      let (w1, e1, k1) = laws.at_end w (in_use true (some inventory_db) [] c) k refl refl in
      (w1, at_end e1, k1)
  Yields_lem ((d, v) ∷ es) c w ((isi, ter, found_vendor), h) k =
      let (beyond, (w1, e1, k1)) =
        laws.get_next (with_nul d.sku) (image d) (map item_record es) w _ k refl refl in
      let (w2, e2, k2) =
        laws.get_vendor (with_nul d.vendor) (with_nul v.name) (layout (members v)) w1 _ k1 refl
          found_vendor in
      let (w3, y, k3) = Yields_lem es c w2 h k2 in
      (w3, item (with_nul d.sku) beyond isi ter e1 e2 y, k3)

  module _ (show_double show_long : ℕ → Bytes) (databuf : Bytes) (fuel : ℕ) where
    read_body_lem :
        (es : List Entry) (s : Program t.reader.World) (c : Stored)
        → laws.view s.db ≡ in_use false none [] c
        → c.inventory ≡ map item_record es
        → All (Listed c) es
        → length es < fuel
        → (w : t.reader.World) × (read_body t show_double show_long databuf fuel [] s ≡ (
          ok (pos 0),
          record s { db = w; cout = s.cout ++ all_lines t.reader show_double show_long databuf es },
        ))
          × (laws.view w ≡ ready c)
    unfolding read_body on_world on_console ◌>>=◌
    read_body_lem es s c v h listed lt =
        let (w1, e1, k1) = laws.associate s.db (in_use false none [] c) v refl refl refl in
        let (w2, e2, k2) = laws.cursor w1 (ready c) k1 refl refl in
        let (w3, y, k3) =
          Yields_lem es c w2 listed (k2 ∙ ap (λ rs. in_use true (some inventory_db) rs c) h) in
        let (w4, e4, k4) = laws.close_cursor inventory_db w3 _ k3 refl in
        (
          w4,
          rw
              (
                e1,
                show_all_records_lem t.reader show_double show_long databuf es fuel
                    (record { db = w1; cursorp = false; cout = s.cout; cerr = s.cerr }) w2 w3 w4 e2
                    y e4 lt,
              )
              refl,
          k4,
        )

    -- If Berkeley DB does what is documented, no object is open at first, no item name is given,
    -- the records of the inventory database are those of some items, each of which can be read back
    -- and has its vendor in the vendor database, and there is fuel for one round more than items,
    -- then main returns 0, prints the members of each item and of its vendor, in order, and that the
    -- databases are closed, and leaves the records as they are.
    pub main_read_lem :
        (opts : List Opt) (es : List Entry) (s : Program t.reader.World) (c : Stored)
        → parse_read (codes "./") [] opts ≡ parsed home []
        → laws.view s.db ≡ at_rest c
        → c.inventory ≡ map item_record es
        → All (Listed c) es
        → length es < fuel
        → (w : t.reader.World) × (main_read t show_double show_long databuf fuel opts s ≡ (
          ok (pos 0),
          record s {
            db = w;
            cout =
                s.cout
                ++ (all_lines t.reader show_double show_long databuf es ++ closed_lines home);
          },
        ))
          × (laws.view w ≡ all_shut c)
    unfolding main_read after_read_options try_catch
    main_read_lem opts es s c chosen v h listed lt =
        let (w1, e1, k1) = opened_lem t home laws s c v in
        let (w2, e2, k2) = read_body_lem es (record s { db = w1 }) c k1 h listed lt in
        let lines = all_lines t.reader show_double show_long databuf es in
        let (w3, e3, k3) =
          closed_lem t home laws (record s { db = w2; cout = s.cout ++ lines }) true c k2 in
        (
          w3,
          rw
              (
                chosen,
                with_objects-ending t laws.responds home
                    (read_body t show_double show_long databuf fuel []) s,
                e1,
                e2,
                e3,
                append_assoc s.cout lines (closed_lines home),
              )
              refl,
          k3,
        )
