-- ===== src/TripleDb/Read.antt =====
-- excxx_example_database_read.cpp: the items of the inventory database are shown, each with its
-- vendor's record. `throw e` throws a copy, whose type is not told from that of `e`. What `<<` makes
-- of a `double` and of a `long` is a parameter. A step that is undefined in C++ has no outcome.
pub mod Shown
pub mod Found
pub mod Duplicates
use m3sec.Common.{
  ℕ, zero, suc, ◌+◌, Bool, true, false, List, [], ◌∷◌, ◌++◌, Option, none, some, ℤ, pos, Bytes,
  codes, with_nul, c_string, drop,
}
use m3sec.Common.Exec.{
  Exn, db_exception, std_exception, out_of_range, Exec, pure, raise, diverge, gets, modify, on,
  try_catch, ◌>>=◌, ◌>>◌,
}
use m3sec.Console.{Chunk, text, lit, endl}
use m3sec.Bdb.{Fetch, found, not_found, failed}
use m3sec.TripleDb.Inventory.{InventoryData, from_buffer}
use m3sec.TripleDb.Vendor.{vendor_lines}

-- The databases that the functions are given.
pub data Database : Type 0 where
  inventory_db vendor_db itemname_sdb : Database

-- The calls of Berkeley DB, each of which may throw; `err` and `errx` write a message of its own. A
-- function has one cursor at most. `get_set` has DB_SET, `get_dup` DB_NEXT_DUP and `get_next`
-- DB_NEXT. `get_vendor` is `Db::get` into a VENDOR: the bytes that the structure holds afterwards,
-- whether there was a record or not.
pub record Reader : Type 1 where
  pub World : Type 0
  pub cursor : Database → Exec World (Unit {0})
  pub get_set : Bytes → Exec World Fetch
  pub get_dup : Exec World Fetch
  pub get_next : Exec World Fetch
  pub close_cursor : Exec World (Unit {0})
  pub get_vendor : Bytes → Exec World Bytes
  pub err : Database → ℤ → Bytes → Exec World (Unit {0})
  pub errx : Database → Bytes → Exn → Exec World (Unit {0})

-- `cursorp` is whether the pointer of that name has been set.
pub record Console (W : Type 0) : Type 0 where
  pub db : W
  pub cursorp : Bool
  pub cout : List Chunk
  pub cerr : List Chunk

-- InventoryData::show
pub item_lines : (ℕ → Bytes) → (ℕ → Bytes) → InventoryData → List Chunk
item_lines show_double show_long d =
    lit "\nName:           "
    ∷ text d.name
    ∷ endl
    ∷ lit "    SKU:        "
    ∷ text d.sku
    ∷ endl
    ∷ lit "    Price:      "
    ∷ text (show_double d.price)
    ∷ endl
    ∷ lit "    Quantity:   "
    ∷ text (show_long d.quantity)
    ∷ endl
    ∷ lit "    Category:   "
    ∷ text d.category
    ∷ endl
    ∷ lit "    Vendor:     "
    ∷ text d.vendor
    ∷ endl
    ∷ []

module _ (r : Reader) where
  pub on_db : {A : Type 0} → Exec r.World A → Exec (Console r.World) A
  on_db = on (λ s. s.db) (λ s w. record s { db = w })

  pub print : List Chunk → Exec (Console r.World) (Unit {0})
  print line = modify λ s. record s { cout = s.cout ++ line }

  -- What is printed where it is defined.
  pub print_defined : Option (List Chunk) → Exec (Console r.World) (Unit {0})
  unfolding print
  print_defined none = diverge
  print_defined (some line) = print line

  -- catch (DbException &e) { …err(…); throw e; } catch (std::exception &e) { throw e; }
  vendor_failed : Exn → Exec (Console r.World) ℤ
  unfolding on_db
  vendor_failed (db_exception n) =
      on_db (r.err vendor_db n (codes "Error in show_vendor")) >> raise (db_exception n)
  vendor_failed (std_exception m) = raise (std_exception m)
  vendor_failed out_of_range = raise out_of_range

  pub show_vendor : Bytes → Exec (Console r.World) ℤ
  unfolding vendor_failed print_defined
  show_vendor vendor =
      try_catch
        (do
          my_vendor ← on_db (r.get_vendor (with_nul (c_string vendor)))
          print_defined (vendor_lines my_vendor)
          pure (pos 0))
        vendor_failed

  -- cursorp->close(), on a pointer that must have been set
  pub close_set : Bool → Exec (Console r.World) (Unit {0})
  unfolding on_db
  close_set true = on_db r.close_cursor
  close_set false = diverge

  pub close_cursorp : Exec (Console r.World) (Unit {0})
  unfolding close_set
  close_cursorp = gets (λ s. s.cursorp) >>= close_set

  -- Dbc *cursorp; and the call that sets it.
  pub open_cursor : Database → Exec (Console r.World) (Unit {0})
  unfolding on_db
  open_cursor d = do on_db (r.cursor d); modify λ s. record s { cursorp = true }

  -- The catch clauses of show_all_records.
  all_failed : Exn → Exec (Console r.World) ℤ
  unfolding on_db close_cursorp
  all_failed (db_exception n) =
      on_db (r.err inventory_db n (codes "Error in show_all_records"))
      >> close_cursorp
      >> raise (db_exception n)
  all_failed (std_exception m) = close_cursorp >> raise (std_exception m)
  all_failed out_of_range = close_cursorp >> raise out_of_range

  -- The catch clauses of show_item.
  item_failed : Exn → Exec (Console r.World) ℤ
  unfolding on_db close_cursorp
  item_failed (db_exception n) =
      on_db (r.err itemname_sdb n (codes "Error in show_item"))
      >> close_cursorp
      >> raise (db_exception n)
  item_failed (std_exception m) =
      on_db (r.errx itemname_sdb (codes "Error in show_item: %s") (std_exception m))
      >> close_cursorp
      >> raise (std_exception m)
  item_failed out_of_range =
      on_db (r.errx itemname_sdb (codes "Error in show_item: %s") out_of_range)
      >> close_cursorp
      >> raise out_of_range

  pub complain : Bytes → Exec (Console r.World) (Unit {0})
  complain item_name = modify λ s. record s {
    cerr = s.cerr ++ lit "No records found for '" ∷ text item_name ∷ lit "'" ∷ endl ∷ [];
  }

  -- `databuf` is what the buffer of an InventoryData happens to hold.
  module _ (show_double show_long : ℕ → Bytes) (databuf : Bytes) where
    -- The item, if its memory can be read, and its vendor.
    show_found : Option InventoryData → Exec (Console r.World) (Unit {0})
    unfolding show_vendor
    show_found none = diverge
    show_found (some d) =
        print (item_lines show_double show_long d) >> show_vendor d.vendor >> pure tt

    pub show_data : Bytes → Exec (Console r.World) (Unit {0})
    unfolding show_found
    show_data stored = show_found (from_buffer databuf stored)

    -- The body of the loop of show_all_records, with the rounds that follow.
    pub next_record : Exec (Console r.World) (Unit {0}) → Fetch → Exec (Console r.World) (Unit {0})
    unfolding show_data
    next_record rounds (found key stored) = show_data stored >> rounds
    next_record rounds not_found = pure tt
    next_record rounds (failed code) = pure tt

    -- The loop of show_item goes on with the next record of the same name.
    unfoldable next_dup :
        (Bytes → Exec (Console r.World) (Unit {0})) → Fetch → Exec (Console r.World) (Unit {0})
    next_dup rounds (found key stored) = rounds stored
    next_dup rounds not_found = pure tt
    next_dup rounds (failed code) = pure tt

    -- while ((ret = cursorp->get(&key, &stored, DB_NEXT)) == 0)
    pub each_next : ℕ → Exec (Console r.World) (Unit {0})
    each_next zero = diverge
    each_next (suc fuel) = do f ← on_db r.get_next; next_record (each_next fuel) f

    -- do … while (cursorp->get(&key, &stored, DB_NEXT_DUP) == 0), from the record that was found on
    unfoldable each_dup : ℕ → Bytes → Exec (Console r.World) (Unit {0})
    each_dup zero stored = diverge
    each_dup (suc fuel) stored = do
      show_data stored
      f ← on_db r.get_dup
      next_dup (each_dup fuel) f

    -- The first `get` of show_item.
    pub first_dup : ℕ → Bytes → Fetch → Exec (Console r.World) (Unit {0})
    first_dup fuel item_name (found key stored) = each_dup fuel stored
    first_dup fuel item_name not_found = complain item_name
    first_dup fuel item_name (failed code) = complain item_name

    unfoldable pub show_all_records : ℕ → Exec (Console r.World) ℤ
    unfolding all_failed open_cursor close_cursorp
    show_all_records fuel = do
      modify λ s. record s { cursorp = false }
      try_catch (do open_cursor inventory_db; each_next fuel; pure (pos 0)) all_failed
      close_cursorp
      pure (pos 0)

    unfoldable pub show_item : ℕ → Bytes → Exec (Console r.World) ℤ
    unfolding item_failed open_cursor close_cursorp
    show_item fuel item_name = do
      modify λ s. record s { cursorp = false }
      try_catch
          (do
            open_cursor itemname_sdb
            print (lit "Looking for " ∷ text item_name ∷ endl ∷ [])
            f ← on_db (r.get_set (with_nul item_name))
            first_dup fuel item_name f
            pure (pos 0))
          item_failed
      close_cursorp
      pure (pos 0)
