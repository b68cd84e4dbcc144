-- ===== src/TripleDb/Load.antt =====
-- loadInventoryDB of excxx_example_database_load.cpp: the lines of inventory.txt are parsed, packed
-- and put. `strtod` and `strtol` are parameters: the 64 bits that they make of a text.
pub mod Fields
pub mod Puts
pub mod File
use m3sec.Common.{
  ℕ, zero, suc, ◌+◌, Bool, true, false, List, [], ◌∷◌, ◌++◌, Option, none, some, Bytes, codes,
  c_string, with_nul, take, drop, ◌==◌, if◌then◌else◌,
}
use m3sec.Common.Options
use m3sec.Common.Exec.{Exec, std_exception, pure, raise, diverge, modify, on, ◌>>=◌, ◌>>◌}
use m3sec.Console.{Chunk, text, lit, endl}
use m3sec.TripleDb.Database.{Db, MyDb, on_db}
use m3sec.TripleDb.Inventory.{InventoryData, clear, get_buffer, stored}

-- '#'
abbrev pub pound : ℕ
pound = 35

-- theString.find("#")
find_pound : Bytes → Option ℕ
find_pound [] = none
find_pound (c ∷ s) =
    let rest = find_pound s in if c == pound then some 0 else Options.◌>>=◌ rest (λ p. some (suc p))

-- The new `substring` and the new `theString`. With no pound sign `pos` is npos, so that `pos + 1`
-- is 0, and the string stays as it is.
split_at : Option ℕ → Bytes → Bytes × Bytes
split_at none the_string = (the_string, the_string)
split_at (some p) the_string = (take p the_string, drop (p + 1) the_string)

-- getNextPound
pub get_next_pound : Bytes → Bytes × Bytes
unfolding split_at
get_next_pound the_string = split_at (find_pound the_string) the_string

module _ (strtod strtol : Bytes → ℕ) where
  -- The six fields of a line.
  pub parse_line : Bytes → InventoryData → InventoryData
  parse_line line d =
      let (name, s1) = get_next_pound line in
      let (sku, s2) = get_next_pound s1 in
      let (price, s3) = get_next_pound s2 in
      let (quantity, s4) = get_next_pound s3 in
      let (category, s5) = get_next_pound s4 in
      let (vendor, s6) = get_next_pound s5 in
      record d {
        name = name;
        sku = sku;
        price = strtod (c_string price);
        quantity = strtol (c_string quantity);
        category = category;
        vendor = vendor;
      }

  module _ {W : Type 0} (put : Bytes → Bytes → Exec W (Unit {0})) where
    -- The put of the packed object. If the buffer overran, what follows is not defined: no outcome.
    put_item : Option InventoryData → Exec W InventoryData
    put_item none = diverge
    put_item (some d) = put (with_nul d.sku) (stored d) >> pure d

    -- The body of the loop for a line that is not empty.
    pub load_line : Bytes → InventoryData → Exec W InventoryData
    unfolding put_item
    load_line line d = put_item (get_buffer (parse_line line (clear d)))

    -- while (!inFile.eof()), on the lines that `getline` gives
    pub load_lines : List Bytes → InventoryData → Exec W (Unit {0})
    load_lines [] d = pure tt
    load_lines ([] ∷ lines) d = load_lines lines (clear d)
    load_lines ((c ∷ line) ∷ lines) d = do d' ← load_line (c ∷ line) d; load_lines lines d'

-- A character in front of the first line.
unfoldable pub onto : ℕ → List Bytes → List Bytes
onto c [] = (c ∷ []) ∷ []
onto c (l ∷ ls) = (c ∷ l) ∷ ls

-- What `getline` gives until `eof`: the texts between newlines, also the last one, which is empty
-- if the file ends with a newline.
unfoldable pub lines_of : Bytes → List Bytes
unfolding onto
lines_of [] = [] ∷ []
lines_of (c ∷ s) = let rest = lines_of s in if c == 10 then [] ∷ rest else onto c rest

-- cerr << …
unfoldable pub print_err : {W : Type 0} → List Chunk → Exec (MyDb W) (Unit {0})
print_err line = modify λ s. record s { cerr = s.cerr ++ line }

module _ (strtod strtol : Bytes → ℕ) (b : Db) where
  -- loadInventoryDB: the content of the file, if it can be opened; `d` is what the object holds
  -- before its constructor clears it.
  unfoldable pub load_inventory_db :
      Bytes → Option Bytes → InventoryData → Exec (MyDb b.World) (Unit {0})
  load_inventory_db inventory_file none d = do
    print_err (lit "Could not open file '" ∷ text inventory_file ∷ lit "'. Giving up." ∷ endl ∷ [])
    raise (std_exception (codes "std::exception"))
  load_inventory_db inventory_file (some content) d =
      load_lines strtod strtol (λ k v. on_db (b.put k v)) (lines_of content) (clear d)
