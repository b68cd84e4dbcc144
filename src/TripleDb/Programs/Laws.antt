-- ===== src/TripleDb/Programs/Laws.antt =====
-- What is documented of the three databases of one directory, of the type DB_BTREE: a handle is
-- opened and closed once; without DB_DUPSORT a put overwrites the record of the same key, and a
-- cursor gives the records in the order of their keys; while an index with DB_DUPSORT is associated,
-- the puts on the primary database go into it too, under the keys that get_item_name makes.
use m3sec.Common.{
  Bool, true, false, [], ◌∷◌, ◌++◌, Option, none, some, ℤ, pos, Bytes, length, eq_bytes, is_int,
  ◌&&◌, if◌then◌else◌, ◌≡◌,
}
use m3sec.Common.Exec.{Exec, ok}
use m3sec.Bdb.{found, not_found}
use m3sec.BdbLaws.{Phase, fresh, opened, closed}
use m3sec.TripleDb.Inventory.{get_item_name}
use m3sec.TripleDb.Database.{DbResponds}
use m3sec.TripleDb.Read.{Database, inventory_db, vendor_db, itemname_sdb}
use m3sec.TripleDb.Programs.{Tables, one_of, db_name}
use m3sec.TripleDb.Programs.Store.{Records, record_key, insert, find}

-- The records of the two primary databases, and those that the index leads to.
pub record Stored : Type 0 where
  pub inventory : Records
  pub vendors : Records
  pub index : Records

-- A Db object, and whether DB_DUPSORT was set.
pub record Handle : Type 0 where
  pub phase : Phase
  pub dups : Bool

-- The objects of one process and the records. `cursor` is the database of the open cursor, and
-- `ahead` what that has still to give.
pub record View : Type 0 where
  pub inventory_handle : Handle
  pub vendor_handle : Handle
  pub index_handle : Handle
  pub associated : Bool
  pub cursor : Option Database
  pub ahead : Records
  pub stored : Stored

abbrev pub handle : View → Database → Handle
handle v inventory_db = v.inventory_handle
handle v vendor_db = v.vendor_handle
handle v itemname_sdb = v.index_handle

abbrev pub set_handle : Database → Handle → View → View
set_handle inventory_db x v = record v { inventory_handle = x }
set_handle vendor_db x v = record v { vendor_handle = x }
set_handle itemname_sdb x v = record v { index_handle = x }

abbrev pub set_phase : Phase → Database → View → View
set_phase p d v = set_handle d (record { phase = p; dups = (handle v d).dups }) v

-- The index is closed before its primary database, and is associated no more.
abbrev pub MayClose : Database → View → Type 0
MayClose inventory_db v = v.associated ≡ false
MayClose vendor_db v = Unit
MayClose itemname_sdb v = Unit

abbrev pub detach : Database → View → View
detach inventory_db v = v
detach vendor_db v = v
detach itemname_sdb v = record v { associated = false }

-- The objects and the records where no program runs, and where one has ended.
abbrev pub at_rest : Stored → View
at_rest c = record {
  inventory_handle = record { phase = fresh; dups = false };
  vendor_handle = record { phase = fresh; dups = false };
  index_handle = record { phase = fresh; dups = false };
  associated = false;
  cursor = none;
  ahead = [];
  stored = c;
}

abbrev pub all_shut : Stored → View
all_shut c = record {
  inventory_handle = record { phase = closed; dups = false };
  vendor_handle = record { phase = closed; dups = false };
  index_handle = record { phase = closed; dups = true };
  associated = false;
  cursor = none;
  ahead = [];
  stored = c;
}

-- A put on both the primary database and its index.
abbrev pub add_item : Bytes × Bytes → Stored → Stored
add_item r c = record c {
  inventory = insert record_key r c.inventory;
  index = insert record_key r c.index;
}

abbrev pub add_vendor : Bytes × Bytes → Stored → Stored
add_vendor r c = record c { vendors = insert record_key r c.vendors }

-- get_item_name sets the key to `k`.
abbrev is_key : Bytes → Option (ℤ × Option Bytes) → Bool
is_key k none = false
is_key k (some (code, none)) = false
is_key k (some (code, some key)) = is_int code 0 && eq_bytes key k

-- The records for which it does, in order.
unfoldable pub indexed : Bytes → Records → Records
indexed k [] = []
indexed k (r ∷ rs) =
    let rest = indexed k rs in if is_key k (get_item_name (length r.1) r.1) then r ∷ rest else rest

-- A call returns `a`, and leaves the objects and records `v`.
abbrev pub Gives : {A W : Type 0} → (W → View) → Exec W A → A → W → View → Type 0
Gives {W = W} view m a w v = (w' : W) × (m w ≡ (ok a, w')) × (view w' ≡ v)

-- The databases in the directory `home`: the calls, each on objects that it is allowed on. `beyond`
-- is what stands behind a record in memory, and `restart` what the next process finds.
pub record IsStore (t : Tables) (home : Bytes) : Type 1 where
  pub view : t.reader.World → View
  pub responds : (d : Database) → DbResponds (one_of t d)
  pub restart : t.reader.World → t.reader.World
  pub restart_law :
      (c : Stored) (w : t.reader.World) → view w ≡ all_shut c → view (restart w) ≡ at_rest c
  pub set_dupsort :
      (d : Database) (w : t.reader.World) (v : View)
      → view w ≡ v
      → (handle v d).phase ≡ fresh
      → Gives view (t.set_dupsort d) tt w (set_handle d (record { phase = fresh; dups = true }) v)
  pub open_db :
      (d : Database) (w : t.reader.World) (v : View)
      → view w ≡ v
      → (handle v d).phase ≡ fresh
      → Gives view (t.open_db d (home ++ db_name d)) tt w (set_phase opened d v)
  pub close :
      (d : Database) (w : t.reader.World) (v : View)
      → view w ≡ v
      → (handle v d).phase ≡ opened
      → v.cursor ≡ none
      → MayClose d v
      → Gives view (t.close d) tt w (detach d (set_phase closed d v))
  pub associate :
      (w : t.reader.World) (v : View)
      → view w ≡ v
      → v.inventory_handle ≡ record { phase = opened; dups = false }
      → v.index_handle ≡ record { phase = opened; dups = true }
      → v.cursor ≡ none
      → Gives view t.associate tt w (record v { associated = true })
  pub put_inventory :
      (k x key : Bytes) (w : t.reader.World) (v : View)
      → view w ≡ v
      → v.inventory_handle ≡ record { phase = opened; dups = false }
      → v.index_handle ≡ record { phase = opened; dups = true }
      → v.associated ≡ true
      → get_item_name (length x) x ≡ some (pos 0, some key)
      → Gives view (t.put inventory_db k x) tt w (record v { stored = add_item (k, x) v.stored })
  pub put_vendor :
      (k x : Bytes) (w : t.reader.World) (v : View)
      → view w ≡ v
      → v.vendor_handle ≡ record { phase = opened; dups = false }
      → Gives view (t.put vendor_db k x) tt w (record v { stored = add_vendor (k, x) v.stored })
  pub cursor :
      (w : t.reader.World) (v : View)
      → view w ≡ v
      → v.inventory_handle ≡ record { phase = opened; dups = false }
      → v.cursor ≡ none
      → Gives view
          (t.reader.cursor inventory_db)
          tt
          w
          (record v { cursor = some inventory_db; ahead = v.stored.inventory })
  pub at_end :
      (w : t.reader.World) (v : View)
      → view w ≡ v
      → v.cursor ≡ some inventory_db
      → v.ahead ≡ []
      → Gives view t.reader.get_next not_found w v
  pub get_next :
      (k x : Bytes) (rest : Records) (w : t.reader.World) (v : View)
      → view w ≡ v
      → v.cursor ≡ some inventory_db
      → v.ahead ≡ (k, x) ∷ rest
      → (beyond : Bytes) × Gives view t.reader.get_next
          (found k (x ++ beyond))
          w
          (record v { ahead = rest })
  pub index_cursor :
      (w : t.reader.World) (v : View)
      → view w ≡ v
      → v.index_handle ≡ record { phase = opened; dups = true }
      → v.associated ≡ true
      → v.cursor ≡ none
      → Gives view
          (t.reader.cursor itemname_sdb)
          tt
          w
          (record v { cursor = some itemname_sdb; ahead = [] })
  -- The cursor of an index gives the data of the primary database.
  pub get_set :
      (k sku x : Bytes) (rest : Records) (w : t.reader.World) (v : View)
      → view w ≡ v
      → v.cursor ≡ some itemname_sdb
      → v.associated ≡ true
      → v.stored.index ≡ v.stored.inventory
      → indexed k v.stored.index ≡ (sku, x) ∷ rest
      → (beyond : Bytes) × Gives view
          (t.reader.get_set k)
          (found k (x ++ beyond))
          w
          (record v { ahead = rest })
  pub no_record :
      (k : Bytes) (w : t.reader.World) (v : View)
      → view w ≡ v
      → v.cursor ≡ some itemname_sdb
      → v.associated ≡ true
      → indexed k v.stored.index ≡ []
      → Gives view (t.reader.get_set k) not_found w v
  pub get_dup :
      (sku x : Bytes) (rest : Records) (w : t.reader.World) (v : View)
      → view w ≡ v
      → v.cursor ≡ some itemname_sdb
      → v.associated ≡ true
      → v.ahead ≡ (sku, x) ∷ rest
      → (key : Bytes) × (beyond : Bytes) × Gives view t.reader.get_dup
          (found key (x ++ beyond))
          w
          (record v { ahead = rest })
  pub no_dup :
      (w : t.reader.World) (v : View)
      → view w ≡ v
      → v.cursor ≡ some itemname_sdb
      → v.associated ≡ true
      → v.ahead ≡ []
      → Gives view t.reader.get_dup not_found w v
  pub close_cursor :
      (d : Database) (w : t.reader.World) (v : View)
      → view w ≡ v
      → v.cursor ≡ some d
      → Gives view t.reader.close_cursor tt w (record v { cursor = none; ahead = [] })
  pub get_vendor :
      (k k' x : Bytes) (w : t.reader.World) (v : View)
      → view w ≡ v
      → v.vendor_handle ≡ record { phase = opened; dups = false }
      → find record_key k v.stored.vendors ≡ some (k', x)
      → Gives view (t.reader.get_vendor k) x w v
