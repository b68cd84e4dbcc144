-- ===== src/TripleDb/Programs.antt =====
-- main of excxx_example_database_load.cpp and of excxx_example_database_read.cpp: the three MyDb
-- objects, whose destructors run when the scope is left, in whichever way, and what is done with
-- them. The files that can be opened are a function of their names.
pub mod Scope
pub mod Store
pub mod Laws
pub mod Objects
pub mod Loading
pub mod Showing
pub mod Index
pub mod Finding
pub mod Composed
pub mod Failures
use m3sec.Common.{
  List, [], ◌∷◌, ◌++◌, Option, ℕ, ℤ, pos, minus_one, Bool, true, false, Bytes, codes,
}
use m3sec.Common.Exec.{
  Exn, db_exception, std_exception, out_of_range, Outcome, ok, throw, running, Exec, pure, raise,
  diverge, modify, on, try_catch, ◌>>=◌, ◌>>◌,
}
use m3sec.Console.{Chunk, lit, what, endl}
use m3sec.TripleDb.Inventory.{InventoryData}
use m3sec.TripleDb.Database.{Db, MyDb, new_my_db, close_my_db}
use m3sec.TripleDb.Load.{load_inventory_db}
use m3sec.TripleDb.Vendor.{load_vendor_db}
use m3sec.TripleDb.Options.{
  Opt, Parsed, parsed, used, undefined, parse_load, parse_read, usage_load, usage_read, input_files,
}
use m3sec.TripleDb.Read.{
  Reader, Database, inventory_db, vendor_db, itemname_sdb, Console, show_all_records, show_item,
}

-- The calls of Berkeley DB on the three databases; `associate` is that of the inventory database
-- with the index of the names.
pub record Tables : Type 1 where
  pub reader : Reader
  pub set_dupsort : Database → Exec reader.World (Unit {0})
  pub open_db : Database → Bytes → Exec reader.World (Unit {0})
  pub close : Database → Exec reader.World (Unit {0})
  pub put : Database → Bytes → Bytes → Exec reader.World (Unit {0})
  pub associate : Exec reader.World (Unit {0})

-- The calls on one of them.
abbrev pub one_of : Tables → Database → Db
one_of t d = record {
  World = t.reader.World;
  set_dupsort = t.set_dupsort d;
  open_db = t.open_db d;
  close = t.close d;
  put = t.put d;
}

-- iDbName, vDbName and itemSDbName
abbrev pub db_name : Database → Bytes
db_name inventory_db = codes "inventorydb.db"
db_name vendor_db = codes "vendordb.db"
db_name itemname_sdb = codes "itemname.sdb"

abbrev is_secondary : Database → Bool
is_secondary inventory_db = false
is_secondary vendor_db = false
is_secondary itemname_sdb = true

pub record Program (W : Type 0) : Type 0 where
  pub db : W
  pub cout : List Chunk
  pub cerr : List Chunk

-- A destructor at the end of a scope; an exception goes on after it.
unfoldable pub leave : {S A : Type 0} → Exec S (Unit {0}) → Outcome A → Exec S A
leave destroy (ok a) = destroy >> pure a
leave destroy (throw e) = destroy >> raise e
leave destroy running = diverge

unfoldable pub finally : {S A : Type 0} → Exec S A → Exec S (Unit {0}) → Exec S A
unfolding leave
finally body destroy s = let (o, s') = body s in leave destroy o s'

module _ {W : Type 0} where
  -- The object `d` of the program, whose file is in `home`.
  abbrev pub object : Bytes → Database → Program W → MyDb W
  object home d s = record {
    db = s.db;
    db_file_name = home ++ db_name d;
    cout = s.cout;
    cerr = s.cerr;
  }

  pub on_object : {A : Type 0} → Bytes → Database → Exec (MyDb W) A → Exec (Program W) A
  on_object home d = on (object home d) (λ s m. record { db = m.db; cout = m.cout; cerr = m.cerr })

  pub on_world : {A : Type 0} → Exec W A → Exec (Program W) A
  on_world = on (λ s. s.db) (λ s w. record s { db = w })

  -- The functions of the reading program, which start with no cursor.
  pub on_console : {A : Type 0} → Exec (Console W) A → Exec (Program W) A
  on_console =
      on (λ s. record { db = s.db; cursorp = false; cout = s.cout; cerr = s.cerr })
        (λ s c. record { db = c.db; cout = c.cout; cerr = c.cerr })

  -- std::cerr << …
  complain : List Chunk → Exec (Program W) (Unit {0})
  complain line = modify λ s. record s { cerr = s.cerr ++ line }

  -- return (usage());
  after_usage : ℤ × List Chunk → Exec (Program W) ℤ
  after_usage (code, lines) = modify (λ s. record s { cout = s.cout ++ lines }) >> pure code

module _ (t : Tables) (home : Bytes) where
  -- MyDb inventoryDB(databaseHome, iDbName), and so on
  pub construct : Database → Exec (Program t.reader.World) (Unit {0})
  construct d = on_object home d (new_my_db (one_of t d) (is_secondary d))

  pub destruct : Database → Exec (Program t.reader.World) (Unit {0})
  destruct d = on_object home d (close_my_db (one_of t d))

  -- An object and what is done while it lives.
  unfoldable pub with_object :
      {A : Type 0} → Database → Exec (Program t.reader.World) A → Exec (Program t.reader.World) A
  unfolding construct destruct
  with_object d body = construct d >> finally body (destruct d)

  -- The scope of the three objects.
  unfoldable pub with_objects :
      {A : Type 0} → Exec (Program t.reader.World) A → Exec (Program t.reader.World) A
  with_objects body =
      with_object inventory_db (with_object vendor_db (with_object itemname_sdb body))

module _ (t : Tables) where
  -- The catch clauses of the loading program.
  load_failed : Exn → Exec (Program t.reader.World) ℤ
  unfolding complain
  load_failed e = do
    complain (lit "Error loading databases. " ∷ endl ∷ what e ∷ endl ∷ [])
    pure (elim e [ db_exception n ↦ n | std_exception m ↦ minus_one | out_of_range ↦ minus_one ])

  -- The catch clauses of the reading program.
  read_failed : Exn → Exec (Program t.reader.World) ℤ
  unfolding complain
  read_failed (db_exception n) = complain (lit "Error reading databases. " ∷ endl ∷ []) >> pure n
  read_failed (std_exception m) =
      complain (lit "Error reading databases. " ∷ endl ∷ what (std_exception m) ∷ endl ∷ [])
      >> pure minus_one
  read_failed out_of_range =
      complain (lit "Error reading databases. " ∷ endl ∷ what out_of_range ∷ endl ∷ [])
      >> pure minus_one

  -- `d` is what the InventoryData of loadInventoryDB holds before it is cleared.
  module _ (strtod strtol : Bytes → ℕ) (sscanf : Bytes → Bytes → List ℕ → Bytes → Option Bytes)
      (d : InventoryData) (files : Bytes → Option Bytes) where
    -- The body of the try statement, and return (0).
    unfoldable pub load_body : Bytes → Bytes × Bytes → Exec (Program t.reader.World) ℤ
    load_body home (inventory_file, vendor_file) = do
      on_world t.associate
      on_object home inventory_db (
          load_inventory_db strtod strtol (one_of t inventory_db) inventory_file
            (files inventory_file) d)
      on_object home vendor_db
          (load_vendor_db sscanf (one_of t vendor_db) vendor_file (files vendor_file))
      pure (pos 0)

    unfoldable pub after_load_options : Parsed → Exec (Program t.reader.World) ℤ
    unfolding load_failed after_usage
    after_load_options (parsed home basename) =
        try_catch (with_objects t home (load_body home (input_files basename))) load_failed
    after_load_options used = after_usage usage_load
    after_load_options undefined = diverge

    -- main of the loading program, on the options that getopt gives
    unfoldable pub main_load : List Opt → Exec (Program t.reader.World) ℤ
    main_load opts = after_load_options (parse_load (codes "./") (codes "./") opts)

  module _ (show_double show_long : ℕ → Bytes) (databuf : Bytes) (fuel : ℕ) where
    -- if (itemName.empty())
    unfoldable pub show : Bytes → Exec (Console t.reader.World) ℤ
    show [] = show_all_records t.reader show_double show_long databuf fuel
    show (c ∷ item_name) = show_item t.reader show_double show_long databuf fuel (c ∷ item_name)

    unfoldable pub read_body : Bytes → Exec (Program t.reader.World) ℤ
    unfolding show
    read_body item_name = do on_world t.associate; on_console (show item_name); pure (pos 0)

    unfoldable pub after_read_options : Parsed → Exec (Program t.reader.World) ℤ
    unfolding read_failed after_usage
    after_read_options (parsed home item_name) =
        try_catch (with_objects t home (read_body item_name)) read_failed
    after_read_options used = after_usage usage_read
    after_read_options undefined = diverge

    -- main of the reading program
    unfoldable pub main_read : List Opt → Exec (Program t.reader.World) ℤ
    main_read opts = after_read_options (parse_read (codes "./") [] opts)
