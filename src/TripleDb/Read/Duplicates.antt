-- ===== src/TripleDb/Read/Duplicates.antt =====
-- What show_item prints where records of the name are found.
use m3sec.Common.{
  ℕ, ℤ, zero, suc, ◌<◌, List, [], ◌∷◌, ◌++◌, pos, Bytes, ◌≡◌, refl, arith, length, with_nul,
  append_assoc, append-nil, true,
}
use m3sec.Common.Exec.{ok, ◌>>=◌}
use m3sec.Console.{text, lit, endl}
use m3sec.Bdb.{Fetch, found, not_found, failed}
use m3sec.TripleDb.Inventory.{InventoryData}
use m3sec.TripleDb.Inventory.Marshal.{image}
use m3sec.TripleDb.Inventory.RoundTrip.{IsItem}
use m3sec.TripleDb.Vendor.Layout.{Vendor, members, layout, Terminated, lines_for}
use m3sec.TripleDb.Read.{
  Reader, Console, itemname_sdb, item_lines, next_dup, each_dup, first_dup, show_item, open_cursor,
  close_cursorp, close_set, on_db, print,
}
use m3sec.TripleDb.Read.Shown.{all_lines, show_data-image}

module _ (r : Reader) where
  -- After the fetch of the first record the cursor gives the others of the same key, in order, and
  -- then no more or a code that is not 0; the vendor of each is found.
  pub data Follows : List (InventoryData × Vendor) → Fetch → r.World → r.World → Type 0 where
    no_more : {w : r.World} → Follows [] not_found w w
    stopped : {w : r.World} (code : ℤ) → Follows [] (failed code) w w
    record_of :
        {d : InventoryData} {v : Vendor} {rest : List (InventoryData × Vendor)} (key beyond : Bytes)
        {stored : Bytes} {f : Fetch} {w w1 w2 w3 : r.World}
        → stored ≡ image d ++ beyond
        → IsItem d
        → Terminated (members v)
        → r.get_vendor (with_nul d.vendor) w ≡ (ok (layout (members v)), w1)
        → r.get_dup w1 ≡ (ok f, w2)
        → Follows rest f w2 w3
        → Follows ((d, v) ∷ rest) (found key stored) w w3

  module _ (show_double show_long : ℕ → Bytes) (databuf : Bytes) where
    abbrev shown : Console r.World → r.World → List (InventoryData × Vendor) → Console r.World
    shown s w es = record s {
      db = w;
      cout = s.cout ++ all_lines r show_double show_long databuf es;
    }

    -- The rounds from a record that was fetched on.
    next_dup-Follows :
        (es : List (InventoryData × Vendor)) (fuel : ℕ) (f : Fetch) (s : Console r.World)
        (w : r.World)
        → Follows es f s.db w
        → length es < suc fuel
        → next_dup r show_double show_long databuf
            (each_dup r show_double show_long databuf fuel)
            f
            s
          ≡ (ok tt, shown s w es)
    unfolding each_dup next_dup on_db ◌>>=◌
    next_dup-Follows [] fuel not_found s w no_more lt = rw (append-nil s.cout) refl
    next_dup-Follows [] fuel (failed code) s w (stopped _) lt = rw (append-nil s.cout) refl
    next_dup-Follows [] fuel (found key stored) s w y lt = elim y [ ]
    next_dup-Follows (e ∷ es) zero f s w y lt = absurd (omega arith)
    next_dup-Follows ((d, v) ∷ es) (suc fuel) not_found s w y lt = elim y [ ]
    next_dup-Follows ((d, v) ∷ es) (suc fuel) (failed code) s w y lt = elim y [ ]
    next_dup-Follows ((d, v) ∷ es) (suc fuel) (found key stored) s w
          (record_of _ beyond {f = f} {w1 = w1} {w2 = w2} e isi ter e1 e2 y) lt =
        rw
          (
            e,
            show_data-image r show_double show_long databuf d v beyond s w1 isi ter e1,
            e2,
            next_dup-Follows es fuel f
                (record s {
                  db = w2;
                  cout = s.cout ++ (item_lines show_double show_long d ++ lines_for v);
                })
                w y (omega arith),
            append_assoc s.cout (item_lines show_double show_long d ++ lines_for v)
                (all_lines r show_double show_long databuf es),
          )
          refl

    -- If the cursor on the index opens and closes, the first fetch finds the stored record of an item
    -- of the name, the cursor then gives those of the others, in order, and no more, all with 64-bit
    -- numbers, texts with no NUL and a vendor that is stored, and there is fuel for one round more
    -- than the others, then show_item returns 0, has printed the name and the members of each item
    -- and of its vendor, in order and nothing else, and has closed the cursor.
    pub show_item-Follows :
        (e : InventoryData × Vendor) (es : List (InventoryData × Vendor)) (fuel : ℕ) (name : Bytes)
        (f : Fetch) (s : Console r.World) (w1 w2 w3 w4 : r.World)
        → r.cursor itemname_sdb s.db ≡ (ok tt, w1)
        → r.get_set (with_nul name) w1 ≡ (ok f, w2)
        → Follows (e ∷ es) f w2 w3
        → r.close_cursor w3 ≡ (ok tt, w4)
        → length es < fuel
        → show_item r show_double show_long databuf fuel name s ≡ (
          ok (pos 0),
          record s {
            db = w4;
            cursorp = true;
            cout =
                s.cout
                ++ lit "Looking for " ∷ text name ∷ endl ∷ []
                ++ all_lines r show_double show_long databuf (e ∷ es);
          },
        )
    unfolding show_item open_cursor close_cursorp close_set first_dup next_dup print on_db ◌>>=◌
    show_item-Follows e es fuel name (found key stored) s w1 w2 w3 w4 e1 e2 y e3 lt =
        rw
          (
            e1,
            e2,
            next_dup-Follows (e ∷ es) fuel (found key stored)
                (record s {
                  db = w2;
                  cursorp = true;
                  cout = s.cout ++ lit "Looking for " ∷ text name ∷ endl ∷ [];
                })
                w3 y (omega arith),
            e3,
          )
          refl
    show_item-Follows e es fuel name not_found s w1 w2 w3 w4 e1 e2 y e3 lt = elim y [ ]
    show_item-Follows e es fuel name (failed code) s w1 w2 w3 w4 e1 e2 y e3 lt = elim y [ ]
