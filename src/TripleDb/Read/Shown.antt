-- ===== src/TripleDb/Read/Shown.antt =====
-- What show_all_records prints of a database that was loaded.
use m3sec.Common.{
  ℕ, zero, suc, ◌<◌, List, [], ◌∷◌, ◌++◌, pos, Bytes, ◌≡◌, refl, ap, arith, length, with_nul,
  c_string_of_NulFree, append-nil, append_assoc, true,
}
use m3sec.Common.Exec.{ok, ◌>>=◌}
use m3sec.Console.{Chunk}
use m3sec.Bdb.{found, not_found}
use m3sec.TripleDb.Inventory.{InventoryData}
use m3sec.TripleDb.Inventory.Marshal.{image}
use m3sec.TripleDb.Inventory.RoundTrip.{IsItem, from_buffer-image}
use m3sec.TripleDb.Vendor.Layout.{
  Vendor, members, layout, Terminated, lines_for, vendor_lines-layout,
}
use m3sec.TripleDb.Read.{
  Reader, Console, inventory_db, item_lines, show_vendor, show_data, show_found, next_record,
  each_next, show_all_records, open_cursor, close_cursorp, close_set, on_db, print, print_defined,
}

module _ (r : Reader) where
  -- The cursor gives the records of the items in order, whatever follows them in memory, and then no
  -- more, and the vendor of each is found under the item's `vendor`.
  pub data Yields : List (InventoryData × Vendor) → r.World → r.World → Type 0 where
    at_end : {w w1 : r.World} → r.get_next w ≡ (ok not_found, w1) → Yields [] w w1
    item :
        {d : InventoryData} {v : Vendor} {rest : List (InventoryData × Vendor)} (key beyond : Bytes)
        {w w1 w2 w3 : r.World}
        → IsItem d
        → Terminated (members v)
        → r.get_next w ≡ (ok (found key (image d ++ beyond)), w1)
        → r.get_vendor (with_nul d.vendor) w1 ≡ (ok (layout (members v)), w2)
        → Yields rest w2 w3
        → Yields ((d, v) ∷ rest) w w3

  module _ (show_double show_long : ℕ → Bytes) (databuf : Bytes) where
    -- The lines of an item and of its vendor, for each.
    abbrev pub all_lines : List (InventoryData × Vendor) → List Chunk
    all_lines [] = []
    all_lines ((d, v) ∷ rest) =
        (item_lines show_double show_long d ++ lines_for v) ++ all_lines rest

    pub show_data-image :
        (d : InventoryData) (v : Vendor) (beyond : Bytes) (s : Console r.World) (w : r.World)
        → IsItem d
        → Terminated (members v)
        → r.get_vendor (with_nul d.vendor) s.db ≡ (ok (layout (members v)), w)
        → show_data r show_double show_long databuf (image d ++ beyond) s ≡ (
          ok tt,
          record s { db = w; cout = s.cout ++ (item_lines show_double show_long d ++ lines_for v) },
        )
    unfolding show_data show_found show_vendor print_defined print on_db item_lines ◌>>=◌
    show_data-image d v beyond s w isi terminated e =
        rw
          (
            from_buffer-image d isi beyond databuf,
            c_string_of_NulFree d.vendor isi.vendor,
            e,
            vendor_lines-layout v terminated,
          )
          (ap (λ c. (ok tt, record s { db = w; cout = c }))
            (append_assoc s.cout (item_lines show_double show_long d) (lines_for v)))

    each_next-Yields :
        (es : List (InventoryData × Vendor)) (fuel : ℕ) (s : Console r.World) (w : r.World)
        → Yields es s.db w
        → length es < fuel
        → each_next r show_double show_long databuf fuel s
          ≡ (ok tt, record s { db = w; cout = s.cout ++ all_lines es })
    unfolding each_next next_record on_db ◌>>=◌
    each_next-Yields es zero s w y lt = absurd (omega arith)
    each_next-Yields [] (suc fuel) s w (at_end e) lt = rw (e, append-nil s.cout) refl
    each_next-Yields ((d, v) ∷ rest) (suc fuel) s w
          (item key beyond {w1 = w1} {w2 = w2} isi ter e1 e2 y) lt =
        rw
          (
            e1,
            show_data-image d v beyond (record s { db = w1 }) w2 isi ter e2,
            each_next-Yields rest fuel
                (record s {
                  db = w2;
                  cout = s.cout ++ (item_lines show_double show_long d ++ lines_for v);
                })
                w y (omega arith),
            append_assoc s.cout (item_lines show_double show_long d ++ lines_for v)
                (all_lines rest),
          )
          refl

    -- If the cursor on the inventory database opens and closes, it gives the stored records of some
    -- items in order, which have 64-bit numbers and texts with no NUL, the vendor of each is
    -- stored, with texts that have no NUL and leave room for one, and there is fuel for one round
    -- more than items, then show_all_records returns 0, has printed the members of each item and of
    -- its vendor, in order and nothing else, and has closed the cursor.
    pub show_all_records_lem :
        (es : List (InventoryData × Vendor)) (fuel : ℕ) (s : Console r.World) (w1 w2 w3 : r.World)
        → r.cursor inventory_db s.db ≡ (ok tt, w1)
        → Yields es w1 w2
        → r.close_cursor w2 ≡ (ok tt, w3)
        → length es < fuel
        → show_all_records r show_double show_long databuf fuel s
          ≡ (ok (pos 0), record s { db = w3; cursorp = true; cout = s.cout ++ all_lines es })
    unfolding show_all_records open_cursor close_cursorp close_set on_db ◌>>=◌
    show_all_records_lem es fuel s w1 w2 w3 e1 y e2 lt =
        rw (e1, each_next-Yields es fuel (record s { db = w1; cursorp = true }) w2 y lt, e2) refl
