-- ===== src/Tests/ShopRuns.antt =====
-- The two programs of triple_db on databases in memory.
use m3sec.Common.{
  ℕ, List, [], ◌∷◌, ◌++◌, Option, none, some, pos, minus_one, Bytes, codes, length, c_string,
  eq_bytes, true, All, ◌≡◌, refl, ap, arith, if◌then◌else◌,
}
use m3sec.Common.Exec.{Exec, ok, raise, db_exception, std_exception}
use m3sec.Bdb.{Fetch, found, not_found}
use m3sec.TripleDb.Inventory.Marshal.{length-image}
use m3sec.TripleDb.Inventory.RoundTrip.{IsItem}
use m3sec.TripleDb.Database.{DbResponds}
use m3sec.TripleDb.Load.{pound}
use m3sec.TripleDb.Load.Fields.{Line, IsLine, text_of, with_line}
use m3sec.TripleDb.Load.File.{file_of}
use m3sec.TripleDb.Load.Puts.{blank}
use m3sec.TripleDb.Vendor.Layout.{Vendor}
use m3sec.TripleDb.Vendor.Puts.{text_file}
use m3sec.TripleDb.Options.{Opt, opt_h, opt_other_path, parse_load, parse_read, last_char}
use m3sec.TripleDb.Read.{Database, inventory_db, vendor_db, itemname_sdb}
use m3sec.TripleDb.Read.Shown.{all_lines}
use m3sec.TripleDb.Programs.{Tables, Program, one_of, with_objects, main_load}
use m3sec.TripleDb.Programs.Scope.{ending, opened, closed, with_objects-ending}
use m3sec.TripleDb.Programs.Store.{Records, insert, find, compare_keys, record_key}
use m3sec.TripleDb.Programs.Laws.{
  View, IsStore, indexed, add_item, add_vendor, set_handle, set_phase, detach, at_rest, all_shut,
}
use m3sec.BdbLaws.{Phase, fresh}
use m3sec.TripleDb.Programs.Objects.{closed_lines}
use m3sec.TripleDb.Programs.Loading.{IsInput}
use m3sec.TripleDb.Programs.Failures.{missing_lines, failure_lines, main_load-no_inventory}
use m3sec.TripleDb.Programs.Index.{named}
use m3sec.TripleDb.Programs.Finding.{found_lines, complaint}
use m3sec.TripleDb.Programs.Composed.{Known, Shows, item_table, load_then_show, load_then_find}
use m3sec.Tests.Checks.{All-of_avoids, avoids}
use m3sec.Tests.ReadRuns.{vine, vine-Terminated, scan_vine}

abbrev gives : View → Exec View (Unit {0})
gives v w = (ok tt, v)

abbrev put_record : Database → Bytes × Bytes → View → View
put_record inventory_db r v = record v { stored = add_item r v.stored }
put_record vendor_db r v = record v { stored = add_vendor r v.stored }
put_record itemname_sdb r v = v

abbrev start_cursor : Database → View → View
start_cursor inventory_db v = record v { cursor = some inventory_db; ahead = v.stored.inventory }
start_cursor vendor_db v = record v { cursor = some vendor_db; ahead = v.stored.vendors }
start_cursor itemname_sdb v = record v { cursor = some itemname_sdb; ahead = [] }

abbrev next_of : Records → View → Exec View Fetch
next_of [] w s = (ok not_found, w)
next_of ((k, v) ∷ rest) w s = (ok (found k (v ++ codes "??")), record w { ahead = rest })

-- The same under the key of the index.
abbrev under_key : Bytes → Records → View → Exec View Fetch
under_key k [] w s = (ok not_found, w)
under_key k ((k', v) ∷ rest) w s = (ok (found k (v ++ codes "??")), record w { ahead = rest })

abbrev value_of : Option (Bytes × Bytes) → Bytes
value_of none = []
value_of (some r) = r.1

abbrev in_memory : Tables
in_memory = record {
  reader = record {
    World = View;
    cursor = λ d w. (ok tt, start_cursor d w);
    get_set = λ k w. under_key k (indexed k w.stored.index) w w;
    get_dup = λ w. next_of w.ahead w w;
    get_next = λ w. next_of w.ahead w w;
    close_cursor = λ w. (ok tt, record w { cursor = none; ahead = [] });
    get_vendor = λ k w. (ok (value_of (find record_key k w.stored.vendors)), w);
    err = λ d code message w. (ok tt, w);
    errx = λ d message e w. (ok tt, w);
  };
  set_dupsort = λ d w. (ok tt, set_handle d (record { phase = fresh; dups = true }) w);
  open_db = λ d name w. (ok tt, set_phase Phase.opened d w);
  close = λ d w. (ok tt, detach d (set_phase Phase.closed d w));
  put = λ d k v w. (ok tt, put_record d (k, v) w);
  associate = λ w. (ok tt, record w { associated = true });
}

in_memory-responds : (d : Database) → DbResponds (one_of in_memory d)
in_memory-responds d = record {
  set_dupsort = λ w e. cc (e);
  open_db = λ n w e. cc (e);
  close = λ w e. cc (e);
}

in_memory-IsStore : (home : Bytes) → IsStore in_memory home
in_memory-IsStore home = record {
  view = λ w. w;
  responds = in_memory-responds;
  restart = λ w. at_rest w.stored;
  restart_law = λ c w e. ap (λ v. at_rest v.stored) e;
  set_dupsort = λ d w v e p. (_, refl, rw e refl);
  open_db = λ d w v e p. (_, refl, rw e refl);
  close = λ d w v e p q m. (_, refl, rw e refl);
  associate = λ w v e p q r. (_, refl, rw e refl);
  put_inventory = λ k x key w v e p q r g. (_, refl, rw e refl);
  put_vendor = λ k x w v e p. (_, refl, rw e refl);
  cursor = λ w v e p q. (_, refl, rw e refl);
  at_end = λ w v e p a. (v, rw (e, a) refl, refl);
  get_next = λ k x rest w v e p a. (codes "??", (record v { ahead = rest }, rw (e, a) refl, refl));
  index_cursor = λ w v e p q r. (_, refl, rw e refl);
  get_set = λ k sku x rest w v e p q same a.
      (codes "??", (record v { ahead = rest }, rw (e, a) refl, refl));
  no_record = λ k w v e p q a. (v, rw (e, a) refl, refl);
  get_dup = λ sku x rest w v e p q a.
      (sku, codes "??", (record v { ahead = rest }, rw (e, a) refl, refl));
  no_dup = λ w v e p q a. (v, rw (e, a) refl, refl);
  close_cursor = λ d w v e p. (_, refl, rw e refl);
  get_vendor = λ k k' x w v e p a. (v, rw (e, a) refl, refl);
}

module _ (name sku : Bytes) where
  -- A line for the vendor Vine.
  abbrev fruit : Line
  fruit = record {
    name = name;
    sku = sku;
    price = codes "0.5";
    quantity = codes "7";
    category = codes "fruit";
    vendor = codes "Vine";
  }

abbrev pear : Line
pear = fruit (codes "Pear") (codes "P1")

abbrev apple : Line
apple = fruit (codes "Apple") (codes "A1")

fruit-IsLine :
    (name sku : Bytes)
    → avoids pound name ≡ true
    → avoids pound sku ≡ true
    → IsLine (fruit name sku)
fruit-IsLine name sku h k = record {
  name = All-of_avoids pound name h;
  sku = All-of_avoids pound sku k;
  price = All-of_avoids pound (codes "0.5") refl;
  quantity = All-of_avoids pound (codes "7") refl;
  category = All-of_avoids pound (codes "fruit") refl;
  vendor = All-of_avoids pound (codes "Vine") refl;
}

fruit-IsItem :
    (name sku : Bytes)
    → avoids 0 name ≡ true
    → avoids 0 sku ≡ true
    → IsItem (with_line length length (fruit name sku) blank)
unfolding c_string
fruit-IsItem name sku h k = record {
  price = omega arith;
  quantity = omega arith;
  name = All-of_avoids 0 name h;
  sku = All-of_avoids 0 sku k;
  category = All-of_avoids 0 (codes "fruit") refl;
  vendor = All-of_avoids 0 (codes "Vine") refl;
}

-- The pear stands first in the file, the apple in the database.
abbrev lines : List (Line × Vendor)
lines = (pear, vine) ∷ (apple, vine) ∷ []

abbrev vendors : List (Bytes × Vendor)
vendors = (codes "Vine#1 Hill", vine) ∷ []

abbrev files : Bytes → Option Bytes
files name =
    if eq_bytes name (codes "in/inventory.txt")
    then some (file_of (pear ∷ apple ∷ []))
    else if eq_bytes name (codes "in/vendors.txt")
    then some (text_file (codes "Vine#1 Hill" ∷ []))
    else none

files-IsInput : IsInput length length scan_vine files (codes "in/") (pear ∷ apple ∷ []) vendors
unfolding eq_bytes c_string
files-IsInput = record {
  inventory = refl;
  vendors = refl;
  lines_free = (All-of_avoids 10 (text_of pear) refl, (All-of_avoids 10 (text_of apple) refl, tt));
  fits = (
    (
      fruit-IsLine (codes "Pear") (codes "P1") refl refl,
      omega (arith, length-image (with_line length length pear blank)),
    ),
    (
      (
        fruit-IsLine (codes "Apple") (codes "A1") refl refl,
        omega (arith, length-image (with_line length length apple blank)),
      ),
      tt,
    ),
  );
  storable = (
    fruit-IsItem (codes "Pear") (codes "P1") refl refl,
    (fruit-IsItem (codes "Apple") (codes "A1") refl refl, tt),
  );
  vendors_free = (All-of_avoids 10 (codes "Vine#1 Hill") refl, tt);
  scans = ((refl, vine-Terminated), tt);
  scans_empty = refl;
}

lines-Known : All (Known length length vendors) lines
unfolding find insert compare_keys
lines-Known = (refl, (refl, tt))

abbrev started : Program View
started = record {
  db = at_rest (record { inventory = []; vendors = []; index = [] });
  cout = [];
  cerr = [];
}

abbrev show_number : ℕ → Bytes
show_number n = n ∷ []

-- The options of the two programs.
abbrev load_opts : List Opt
load_opts = opt_h (codes "/db/") ∷ opt_other_path (codes "in/") ∷ []

abbrev read_opts : List Opt
read_opts = opt_h (codes "/db/") ∷ []

abbrev find_opts : List Opt
find_opts = opt_h (codes "/db/") ∷ opt_other_path (codes "Pear") ∷ []

load_then_show_example :
    Shows length length scan_vine in_memory
      (λ w. at_rest w.stored)
      files
      blank
      load_opts
      started
      show_number
      show_number
      []
      3
      read_opts
      started
      ([]
        ++ (all_lines in_memory.reader show_number show_number [] (item_table length length lines)
            ++ closed_lines (codes "/db/")))
      []
unfolding parse_load parse_read last_char in_memory-IsStore
load_then_show_example =
    load_then_show length length scan_vine in_memory (codes "/db/")
      (in_memory-IsStore (codes "/db/")) files blank load_opts (codes "in/") lines vendors started
      refl files-IsInput lines-Known refl show_number show_number [] 3 (omega arith) read_opts
      started refl

load_then_find_example :
    let pears = named (codes "Pear") (item_table length length lines) in
    Shows length length scan_vine in_memory
      (λ w. at_rest w.stored)
      files
      blank
      load_opts
      started
      show_number
      show_number
      []
      3
      find_opts
      started
      ([]
        ++ (found_lines in_memory
              (codes "/db/")
              (in_memory-IsStore (codes "/db/"))
              show_number
              show_number
              []
              3
              (codes "Pear")
              pears
            ++ closed_lines (codes "/db/")))
      ([] ++ complaint (codes "Pear") pears)
unfolding parse_load parse_read last_char in_memory-IsStore
load_then_find_example =
    load_then_find length length scan_vine in_memory (codes "/db/")
      (in_memory-IsStore (codes "/db/")) files blank load_opts (codes "in/") lines vendors started
      refl files-IsInput lines-Known refl show_number show_number [] 3 (omega arith) find_opts 80
      (codes "ear") started refl (All-of_avoids 0 (codes "Pear") refl)

with_objects-ending_example :
    with_objects in_memory (codes "/db/") (raise {A = ℕ} (db_exception (pos 2))) started
    ≡ ending
        (closed in_memory in_memory-responds (codes "/db/"))
        (raise (db_exception (pos 2)) (opened in_memory in_memory-responds (codes "/db/") started))
with_objects-ending_example =
    with_objects-ending in_memory in_memory-responds (codes "/db/") (raise (db_exception (pos 2)))
      started

main_load-no_inventory_example :
    (w : View) × (main_load in_memory length length scan_vine blank
        (λ name. none)
        (opt_h (codes "/db/") ∷ [])
        started
      ≡ (
        ok minus_one,
        record started {
          db = w;
          cout = [] ++ closed_lines (codes "/db/");
          cerr =
              []
              ++ missing_lines (codes "./inventory.txt")
              ++ failure_lines (std_exception (codes "std::exception"));
        },
      ))
    × (w ≡ all_shut (record { inventory = []; vendors = []; index = [] }))
unfolding parse_load last_char in_memory-IsStore
main_load-no_inventory_example =
    main_load-no_inventory length length scan_vine (λ name. none) in_memory blank (codes "/db/")
      (codes "./") (opt_h (codes "/db/") ∷ []) refl (in_memory-IsStore (codes "/db/")) started
      (record { inventory = []; vendors = []; index = [] }) refl refl

-- The apple is shown first.
order :
    item_table length length lines
    ≡ (with_line length length apple blank, vine) ∷ (with_line length length pear blank, vine) ∷ []
unfolding insert compare_keys
order = refl

-- The apple is not among the pears.
pears :
    named (codes "Pear") (item_table length length lines)
    ≡ (with_line length length pear blank, vine) ∷ []
unfolding insert compare_keys named eq_bytes
pears = refl
