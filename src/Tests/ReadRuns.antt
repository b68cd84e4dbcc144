-- ===== src/Tests/ReadRuns.antt =====
-- The theorems about the readers of databases at concrete inputs.
use m3sec.Common.{
  ℕ, true, false, List, [], ◌∷◌, ◌++◌, Option, none, some, ℤ, pos, negsuc, Bytes, codes, with_nul,
  c_string, ◌≡◌, refl, arith,
}
use m3sec.Common.Exec.{Exec, ok}
use m3sec.Bdb.{Fetch, found, not_found}
use m3sec.TripleDb.Inventory.{InventoryData}
use m3sec.TripleDb.Inventory.Marshal.{image}
use m3sec.TripleDb.Inventory.RoundTrip.{IsItem}
use m3sec.TripleDb.Database.{Db, on_db}
use m3sec.TripleDb.Vendor.{load_vendor_db}
use m3sec.TripleDb.Vendor.Layout.{Vendor, members, layout, Terminated}
use m3sec.TripleDb.Vendor.Puts.{text_file, put_all, load_vendor_db_lem}
use m3sec.TripleDb.Read.{Reader, Console, show_all_records, show_item}
use m3sec.TripleDb.Read.Shown
use m3sec.TripleDb.Read.Shown.{show_all_records_lem, all_lines}
use m3sec.TripleDb.Read.Duplicates
use m3sec.TripleDb.Read.Duplicates.{show_item-Follows}
use m3sec.Console.{text, lit, endl}
use m3sec.CExample
use m3sec.CExample.{CDb, main_c, apple}
use m3sec.AccessExample.{Store, Access}
use m3sec.AccessExample.Run.{Calls}
use m3sec.Tests.Checks.{All-of_avoids}

abbrev pear : InventoryData
pear = record {
  category = codes "fruit";
  name = codes "Pear";
  vendor = codes "Vine";
  sku = codes "P1";
  price = 4602678819172646912;
  quantity = 7;
  buf_len = 0;
  databuf = [];
}

pear-IsItem : IsItem pear
pear-IsItem = record {
  price = omega arith;
  quantity = omega arith;
  name = All-of_avoids 0 pear.name refl;
  sku = All-of_avoids 0 pear.sku refl;
  category = All-of_avoids 0 pear.category refl;
  vendor = All-of_avoids 0 pear.vendor refl;
}

abbrev pub vine : Vendor
vine = record {
  name = codes "Vine";
  street = codes "1 Hill";
  city = codes "Centerville";
  state = codes "WI";
  zipcode = codes "54302";
  phone_number = codes "433 555 6708";
  sales_rep = codes "Bob";
  sales_rep_phone = codes "433 555 6708";
}

pub vine-Terminated : Terminated (members vine)
vine-Terminated = (
  (All-of_avoids 0 vine.name refl, omega arith),
  (
    (All-of_avoids 0 vine.street refl, omega arith),
    (
      (All-of_avoids 0 vine.city refl, omega arith),
      (
        (All-of_avoids 0 vine.state refl, omega arith),
        (
          (All-of_avoids 0 vine.zipcode refl, omega arith),
          (
            (All-of_avoids 0 vine.phone_number refl, omega arith),
            (
              (All-of_avoids 0 vine.sales_rep refl, omega arith),
              ((All-of_avoids 0 vine.sales_rep_phone refl, omega arith), tt),
            ),
          ),
        ),
      ),
    ),
  ),
)

-- Rows that are given one by one.
abbrev give_row : List (Bytes × Bytes) → Exec (List (Bytes × Bytes)) Fetch
give_row [] w = (ok not_found, w)
give_row ((k, v) ∷ rest) w = (ok (found k v), rest)

abbrev done : Exec (List (Bytes × Bytes)) (Unit {0})
done w = (ok tt, w)

-- The world is what the cursor has still to give; the vendor is always the same.
abbrev inventory : Reader
inventory = record {
  World = List (Bytes × Bytes);
  cursor = λ d. done;
  get_set = λ key w. give_row w w;
  get_dup = λ w. give_row w w;
  get_next = λ w. give_row w w;
  close_cursor = done;
  get_vendor = λ key w. (ok (layout (members vine)), w);
  err = λ d code message. done;
  errx = λ d message e. done;
}

abbrev stored_pear : List (Bytes × Bytes)
stored_pear = (with_nul pear.sku, image pear ++ codes "??") ∷ []

abbrev screen : Console (List (Bytes × Bytes))
screen = record { db = stored_pear; cursorp = false; cout = []; cerr = [] }

show_all_records_lem_example :
    show_all_records inventory (λ n. codes "0.5") (λ n. codes "7") [] 2 screen ≡ (
      ok (pos 0),
      record screen {
        db = [];
        cursorp = true;
        cout = [] ++ all_lines inventory (λ n. codes "0.5") (λ n. codes "7") [] ((pear, vine) ∷ []);
      },
    )
show_all_records_lem_example =
    show_all_records_lem inventory (λ n. codes "0.5") (λ n. codes "7") [] ((pear, vine) ∷ []) 2
      screen stored_pear [] [] refl
      (Shown.item (with_nul pear.sku) (codes "??") pear-IsItem vine-Terminated refl refl
        (Shown.at_end refl))
      refl (omega arith)

show_item-Follows_example :
    show_item inventory
      (λ n. codes "0.5")
      (λ n. codes "7")
      []
      2
      (codes "Pear")
      (record screen { db = stored_pear ++ stored_pear })
    ≡ (
      ok (pos 0),
      record screen {
        db = [];
        cursorp = true;
        cout =
            []
            ++ lit "Looking for " ∷ text (codes "Pear") ∷ endl ∷ []
            ++ all_lines inventory
                (λ n. codes "0.5")
                (λ n. codes "7")
                []
                ((pear, vine) ∷ (pear, vine) ∷ []);
      },
    )
show_item-Follows_example =
    show_item-Follows inventory (λ n. codes "0.5") (λ n. codes "7") [] (pear, vine)
      ((pear, vine) ∷ []) 2 (codes "Pear") (found (with_nul pear.sku) (image pear ++ codes "??"))
      (record screen { db = stored_pear ++ stored_pear }) (stored_pear ++ stored_pear) stored_pear
      [] [] refl refl
      (Duplicates.record_of (with_nul pear.sku) (codes "??") refl pear-IsItem vine-Terminated refl
        refl
        (Duplicates.record_of (with_nul pear.sku) (codes "??") refl pear-IsItem vine-Terminated refl
          refl Duplicates.no_more))
      refl (omega arith)

abbrev putting : Db
putting = record {
  World = List (Bytes × Bytes);
  set_dupsort = done;
  open_db = λ n. done;
  close = done;
  put = λ k v w. (ok tt, w ++ (k, v) ∷ []);
}

-- A scan that knows one line.
abbrev pub scan_vine : Bytes → Bytes → List ℕ → Bytes → Option Bytes
scan_vine [] format members_at memory = some memory
scan_vine (c ∷ line) format members_at memory = some (layout (members vine))

load_vendor_db_lem_example :
    load_vendor_db scan_vine putting
      (codes "./vendors.txt")
      (some (text_file (codes "Vine#1 Hill" ∷ [])))
    ≡ put_all scan_vine (λ k v. on_db (putting.put k v)) (vine ∷ [])
unfolding c_string
load_vendor_db_lem_example =
    load_vendor_db_lem scan_vine putting (codes "./vendors.txt") ((codes "Vine#1 Hill", vine) ∷ [])
      (All-of_avoids 10 (codes "Vine#1 Hill") refl, tt) ((refl, vine-Terminated), tt) refl

-- A handle whose world is the record of the key, if there is one.
abbrev fetch : Option Bytes → Exec (Option Bytes) (ℤ × Bytes)
fetch none w = (ok (negsuc 30987, with_nul apple), w)
fetch (some v) w = (ok (pos 0, v), w)

abbrev handle : CDb
handle = record {
  World = Option Bytes;
  strerror = λ code. codes "error";
  create = λ w. (ok (pos 0), w);
  open_db = λ name w. (ok (pos 0), w);
  put = λ k v w. (ok (pos 0), some v);
  get = λ k w. fetch w w;
  del = λ k w. (ok (pos 0), none);
  close = λ w. (ok (pos 0), w);
  err = λ code message w. (ok tt, w);
}

abbrev empty_console : CExample.Console (Option Bytes)
empty_console = record { db = none; cout = []; cerr = [] }

abbrev lines_store : Store
lines_store = record { World = List (Bytes × Bytes); put = λ k v w. (ok false, w ++ (k, v) ∷ []) }

abbrev lines_calls : Calls lines_store
lines_calls = record {
  remove_file = λ name. done;
  set_up = done;
  open_db = λ name. done;
  cursor = done;
  get_next = λ w. give_row w w;
  close_cursor = done;
  close_db = done;
}

abbrev typed : Access (List (Bytes × Bytes))
typed = record {
  db = (codes "ab", codes "ba") ∷ [];
  cout = [];
  cerr = [];
  input = [];
  fail = false;
}
