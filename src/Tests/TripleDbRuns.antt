-- ===== src/Tests/TripleDbRuns.antt =====
-- The theorems about triple_db at concrete inputs.
use m3sec.Common.{
  ℕ, suc, ◌-◌, pos, true, [], ◌∷◌, ◌++◌, none, some, codes, ◌≡◌, refl, arith, length, replicate,
}
use m3sec.Common.Options.{◌>>=◌}
use m3sec.Common.Exec.{ok, throw, db_exception}
use m3sec.TripleDb.Inventory.{InventoryData, get_buffer, stored, from_buffer}
use m3sec.TripleDb.Inventory.Marshal.{
  image, packed, length-image, get_buffer_lem, get_buffer-overruns,
}
use m3sec.TripleDb.Inventory.RoundTrip.{IsItem, store_and_load}
use m3sec.TripleDb.Database.{Db, DbResponds, MyDb, on_db, new_my_db, close_my_db}
use m3sec.TripleDb.Database.Total.{Swallowed, my_db_swallows}
use m3sec.TripleDb.Load.{pound, load_inventory_db}
use m3sec.TripleDb.Load.Fields.{Line, IsLine, text_of, with_line}
use m3sec.TripleDb.Load.Puts.{Fits, put_all}
use m3sec.TripleDb.Load.File.{file_of, load_inventory_db_lem}
use m3sec.Tests.Checks.{All-of_avoids}

abbrev apple : InventoryData
apple = record {
  category = codes "fruit";
  name = codes "Apple";
  vendor = codes "Off the Vine";
  sku = codes "A1";
  price = 4602678819172646912;
  quantity = 500;
  buf_len = 0;
  databuf = [];
}

apple-IsItem : IsItem apple
apple-IsItem = record {
  price = omega arith;
  quantity = omega arith;
  name = All-of_avoids 0 apple.name refl;
  sku = All-of_avoids 0 apple.sku refl;
  category = All-of_avoids 0 apple.category refl;
  vendor = All-of_avoids 0 apple.vendor refl;
}

store_and_load_example :
    (get_buffer apple >>= λ d'. from_buffer [] (stored d' ++ codes "??"))
    ≡ some (record apple { buf_len = length (image apple); databuf = [] })
store_and_load_example =
    store_and_load apple apple-IsItem (codes "??") [] (omega (arith, length-image apple))

get_buffer_lem_example :
    get_buffer apple ≡ some (packed apple (image apple) (500 - length (image apple)))
get_buffer_lem_example = get_buffer_lem apple (omega (arith, length-image apple))

abbrev too_long : InventoryData
too_long = record apple { name = replicate 481 97 }

get_buffer-overruns_example : get_buffer too_long ≡ none
get_buffer-overruns_example = get_buffer-overruns too_long (omega (arith, length-image too_long))

-- The world counts the calls; `open` fails.
abbrev failing : Db
failing = record {
  World = ℕ;
  set_dupsort = λ w. (ok tt, suc w);
  open_db = λ n w. (throw (db_exception (pos 2)), suc w);
  close = λ w. (ok tt, suc w);
  put = λ k v w. (ok tt, suc w);
}

failing-DbResponds : DbResponds failing
failing-DbResponds = record {
  set_dupsort = λ w e. cc (e);
  open_db = λ n w e. cc (e);
  close = λ w e. cc (e);
}

abbrev inventory : MyDb ℕ
inventory = record { db = 0; db_file_name = codes "./inventorydb.db"; cout = []; cerr = [] }

my_db_swallows_example :
    Swallowed (codes "opening") [] inventory.db_file_name (new_my_db failing true inventory)
    × Swallowed (codes "closing") [] inventory.db_file_name (close_my_db failing inventory)
my_db_swallows_example = my_db_swallows failing failing-DbResponds true inventory

abbrev line : Line
line = record {
  name = codes "Apple";
  sku = codes "A1";
  price = codes "0.5";
  quantity = codes "7";
  category = codes "fruit";
  vendor = codes "Vine";
}

line-IsLine : IsLine line
line-IsLine = record {
  name = All-of_avoids pound line.name refl;
  sku = All-of_avoids pound line.sku refl;
  price = All-of_avoids pound line.price refl;
  quantity = All-of_avoids pound line.quantity refl;
  category = All-of_avoids pound line.category refl;
  vendor = All-of_avoids pound line.vendor refl;
}

line-Fits : Fits length length line
line-Fits = (line-IsLine, omega (arith, length-image (with_line length length line apple)))

load_inventory_db_lem_example :
    load_inventory_db length length failing
      (codes "./inventory.txt")
      (some (file_of (line ∷ [])))
      apple
    ≡ put_all length length (λ k v. on_db (failing.put k v)) (line ∷ [])
load_inventory_db_lem_example =
    load_inventory_db_lem length length failing (codes "./inventory.txt") (line ∷ []) apple
      (All-of_avoids 10 (text_of line) refl, tt) (line-Fits, tt)
