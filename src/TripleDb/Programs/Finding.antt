-- ===== src/TripleDb/Programs/Finding.antt =====
-- The reading program with the name of an item, over databases none of whose calls fails.
use m3sec.Common.{
  some, none, ℕ, ℤ, ◌<◌, List, [], ◌∷◌, ◌++◌, map, pos, true, false, arith, Bytes, codes, ◌≡◌, refl,
  ap, ◌∙◌, All, NulFree, with_nul, length, append_assoc, append-nil,
}
use m3sec.Common.Exec.{Outcome, ok, try_catch, ◌>>=◌}
use m3sec.Console.{Chunk, text, lit, endl}
use m3sec.Bdb.{found}
use m3sec.TripleDb.Inventory.Marshal.{image}
use m3sec.TripleDb.Inventory.RoundTrip.{IsItem}
use m3sec.TripleDb.Vendor.Layout.{members, layout}
use m3sec.TripleDb.Options.{Opt, parsed, parse_read}
use m3sec.TripleDb.Read.{Console, show_item, itemname_sdb}
use m3sec.TripleDb.Read.Shown.{all_lines}
use m3sec.TripleDb.Read.Found.{show_item-not_found}
use m3sec.TripleDb.Read.Duplicates.{Follows, no_more, record_of, show_item-Follows}
use m3sec.TripleDb.Programs.{
  Tables, Program, on_console, on_world, read_body, after_read_options, main_read,
}
use m3sec.TripleDb.Programs.Scope.{with_objects-ending}
use m3sec.TripleDb.Programs.Laws.{Stored, View, IsStore, at_rest, all_shut, indexed}
use m3sec.TripleDb.Programs.Objects.{closed_lines, in_use, opened_lem, closed_lem}
use m3sec.TripleDb.Programs.Loading.{ready}
use m3sec.TripleDb.Programs.Showing.{Entry, item_record, Listed}
use m3sec.TripleDb.Programs.Index.{named, indexed-records, named-All, length-named}

-- What is written to cerr where no item has the name.
abbrev pub complaint : Bytes → List Entry → List Chunk
complaint name [] = lit "No records found for '" ∷ text name ∷ lit "'" ∷ endl ∷ []
complaint name (e ∷ es) = []

All-items : (c : Stored) (es : List Entry) → All (Listed c) es → All (λ e. IsItem e.0) es
All-items c [] h = tt
All-items c (e ∷ es) (he, h) = (he.0, All-items c es h)

-- The cursor is one of the index.
abbrev searching : List (Bytes × Bytes) → Stored → View
searching = in_use true (some itemname_sdb)

module _ (t : Tables) (home : Bytes) (laws : IsStore t home) where
  Follows_lem :
      (e : Entry) (es : List Entry) (c : Stored) (key beyond : Bytes) (w : t.reader.World)
      → Listed c e
      → All (Listed c) es
      → laws.view w ≡ searching (map item_record es) c
      → (w' : t.reader.World) × Follows t.reader (e ∷ es) (found key (image e.0 ++ beyond)) w w'
        × (laws.view w' ≡ searching [] c)
  Follows_lem (d, v) [] c key beyond w (isi, ter, vendor) h k =
      let (w1, e1, k1) =
        laws.get_vendor (with_nul d.vendor) (with_nul v.name) (layout (members v)) w _ k refl
          vendor in
      let (w2, e2, k2) = laws.no_dup w1 _ k1 refl refl refl in
      (w2, record_of key beyond refl isi ter e1 e2 no_more, k2)
  Follows_lem (d, v) (e ∷ es) c key beyond w (isi, ter, vendor) (he, h) k =
      let (w1, e1, k1) =
        laws.get_vendor (with_nul d.vendor) (with_nul v.name) (layout (members v)) w _ k refl
          vendor in
      let (key', beyond', (w2, e2, k2)) =
        laws.get_dup (with_nul e.0.sku) (image e.0) (map item_record es) w1 _ k1 refl refl refl in
      let (w3, follows, k3) = Follows_lem e es c key' beyond' w2 he h k2 in
      (w3, record_of key beyond refl isi ter e1 e2 follows, k3)

  module _ (show_double show_long : ℕ → Bytes) (databuf : Bytes) (fuel : ℕ) where
    -- What is printed of the items of a name.
    abbrev pub found_lines : Bytes → List Entry → List Chunk
    found_lines name us =
        lit "Looking for " ∷ text name ∷ endl ∷ all_lines t.reader show_double show_long databuf us

    shown :
        (s : Console t.reader.World) (w : t.reader.World) (us : List Entry) (name : Bytes)
        → ◌≡◌ {A = Outcome ℤ × Console t.reader.World}
            (
              ok (pos 0),
              record s {
                db = w;
                cursorp = true;
                cout =
                    s.cout
                    ++ lit "Looking for " ∷ text name ∷ endl ∷ []
                    ++ all_lines t.reader show_double show_long databuf us;
              },
            )
            (
              ok (pos 0),
              record s {
                db = w;
                cursorp = true;
                cout = s.cout ++ found_lines name us;
                cerr = s.cerr ++ [];
              },
            )
    shown s w us name =
        rw
          (
            append-nil s.cerr,
            append_assoc s.cout (lit "Looking for " ∷ text name ∷ endl ∷ [])
                (all_lines t.reader show_double show_long databuf us),
          )
          refl

    -- show_item, with the items of the name.
    show_item_lem :
        (name : Bytes) (us : List Entry) (s : Console t.reader.World) (c : Stored)
        → laws.view s.db ≡ ready c
        → c.index ≡ c.inventory
        → indexed (with_nul name) c.index ≡ map item_record us
        → All (Listed c) us
        → length us < fuel
        → (w : t.reader.World) × (show_item t.reader show_double show_long databuf fuel name s ≡ (
          ok (pos 0),
          record s {
            db = w;
            cursorp = true;
            cout = s.cout ++ found_lines name us;
            cerr = s.cerr ++ complaint name us;
          },
        ))
          × (laws.view w ≡ ready c)
    show_item_lem name [] s c v same h listed lt =
        let (w1, e1, k1) = laws.index_cursor s.db (ready c) v refl refl refl in
        let (w2, e2, k2) = laws.no_record (with_nul name) w1 _ k1 refl refl h in
        let (w3, e3, k3) = laws.close_cursor itemname_sdb w2 _ k2 refl in
        (
          w3,
          show_item-not_found t.reader show_double show_long databuf fuel name s w1 w2 w3 e1 e2 e3,
          k3,
        )
    show_item_lem name (e ∷ es) s c v same h (he, listed) lt =
        let (w1, e1, k1) = laws.index_cursor s.db (ready c) v refl refl refl in
        let (beyond, (w2, e2, k2)) =
          laws.get_set (with_nul name) (with_nul e.0.sku) (image e.0) (map item_record es) w1 _ k1
            refl refl same h in
        let (w3, follows, k3) = Follows_lem e es c (with_nul name) beyond w2 he listed k2 in
        let (w4, e4, k4) = laws.close_cursor itemname_sdb w3 _ k3 refl in
        (
          w4,
          show_item-Follows t.reader show_double show_long databuf e es fuel name
                (found (with_nul name) (image e.0 ++ beyond)) s w1 w2 w3 w4 e1 e2 follows e4
                (omega arith)
              ∙ shown s w4 (e ∷ es) name,
          k4,
        )

    read_body-named :
        (x : ℕ) (name : Bytes) (es : List Entry) (s : Program t.reader.World) (c : Stored)
        → laws.view s.db ≡ in_use false none [] c
        → c.index ≡ c.inventory
        → NulFree (x ∷ name)
        → c.inventory ≡ map item_record es
        → All (Listed c) es
        → length es < fuel
        → (w : t.reader.World) × (read_body t show_double show_long databuf fuel (x ∷ name) s ≡ (
          ok (pos 0),
          record s {
            db = w;
            cout = s.cout ++ found_lines (x ∷ name) (named (x ∷ name) es);
            cerr = s.cerr ++ complaint (x ∷ name) (named (x ∷ name) es);
          },
        ))
          × (laws.view w ≡ ready c)
    unfolding read_body on_world on_console ◌>>=◌
    read_body-named x name es s c v same free h listed lt =
        let (w1, e1, k1) = laws.associate s.db (in_use false none [] c) v refl refl refl in
        let at_index =
          ap (indexed (with_nul (x ∷ name))) (same ∙ h)
          ∙ indexed-records (x ∷ name) es free (All-items c es listed) in
        let (w2, e2, k2) =
          show_item_lem (x ∷ name) (named (x ∷ name) es)
            (record { db = w1; cursorp = false; cout = s.cout; cerr = s.cerr }) c k1 same at_index
            (named-All (Listed c) (x ∷ name) es listed)
            (omega (arith, length-named (x ∷ name) es)) in
        (w2, rw (e1, e2) refl, k2)

    -- If Berkeley DB does what is documented, no object is open at first, the text of option -i is
    -- not empty, the records of the inventory database are those of some items, each of which can be
    -- read back and has its vendor in the vendor database, the index leads to these records, and
    -- there is fuel for one round more than items, then main returns 0, prints the name, the members
    -- of each item of that name and of its vendor, in order, and that the databases are closed,
    -- writes to cerr only if there is none, and leaves the records as they are.
    pub main_read-named :
        (opts : List Opt) (x : ℕ) (name : Bytes) (es : List Entry) (s : Program t.reader.World)
        (c : Stored)
        → parse_read (codes "./") [] opts ≡ parsed home (x ∷ name)
        → laws.view s.db ≡ at_rest c
        → c.index ≡ c.inventory
        → NulFree (x ∷ name)
        → c.inventory ≡ map item_record es
        → All (Listed c) es
        → length es < fuel
        → (w : t.reader.World) × (main_read t show_double show_long databuf fuel opts s ≡ (
          ok (pos 0),
          record s {
            db = w;
            cout = s.cout ++ (found_lines (x ∷ name) (named (x ∷ name) es) ++ closed_lines home);
            cerr = s.cerr ++ complaint (x ∷ name) (named (x ∷ name) es);
          },
        ))
          × (laws.view w ≡ all_shut c)
    unfolding main_read after_read_options try_catch
    main_read-named opts x name es s c chosen v same free h listed lt =
        let (w1, e1, k1) = opened_lem t home laws s c v in
        let (w2, e2, k2) =
          read_body-named x name es (record s { db = w1 }) c k1 same free h listed lt in
        let lines = found_lines (x ∷ name) (named (x ∷ name) es) in
        let (w3, e3, k3) =
          closed_lem t home laws
            (record s {
              db = w2;
              cout = s.cout ++ lines;
              cerr = s.cerr ++ complaint (x ∷ name) (named (x ∷ name) es);
            })
            true c k2 in
        (
          w3,
          rw
              (
                chosen,
                with_objects-ending t laws.responds home
                    (read_body t show_double show_long databuf fuel (x ∷ name)) s,
                e1,
                e2,
                e3,
                append_assoc s.cout lines (closed_lines home),
              )
              refl,
          k3,
        )
