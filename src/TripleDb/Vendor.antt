-- ===== src/TripleDb/Vendor.antt =====
-- The struct VENDOR of gettingStartedCommon.hpp, of 122 bytes: the lines that show_vendor prints of
-- it, and loadVendorDB of excxx_example_database_load.cpp. `sscanf` is a parameter: what the
-- scan of a line by a format leaves in a memory, the texts going to the given places, or `none` where
-- it writes past the memory.
pub mod Layout
pub mod Puts
use m3sec.Common.{
  ℕ, zero, suc, List, [], ◌∷◌, ◌++◌, Option, none, some, Bytes, codes, with_nul, c_string, take,
  drop, replicate,
}
use m3sec.Common.Options.{◌>>=◌}
use m3sec.Common.Exec
use m3sec.Common.Exec.{Exec, std_exception, pure, raise, diverge, ◌>>◌}
use m3sec.Console.{Chunk, text, lit, endl}
use m3sec.TripleDb.Inventory.{read_string}
use m3sec.TripleDb.Database.{Db, MyDb, on_db}
use m3sec.TripleDb.Load.{lines_of, print_err}

-- Where the members of a VENDOR begin.
abbrev street_at : ℕ
street_at = 20

abbrev city_at : ℕ
city_at = 40

abbrev state_at : ℕ
state_at = 60

abbrev zipcode_at : ℕ
zipcode_at = 63

abbrev phone_number_at : ℕ
phone_number_at = 69

abbrev sales_rep_at : ℕ
sales_rep_at = 82

abbrev sales_rep_phone_at : ℕ
sales_rep_phone_at = 102

-- The lines of show_vendor: each member is printed as a C string.
unfoldable pub vendor_lines : Bytes → Option (List Chunk)
vendor_lines my_vendor = do
  street ← read_string (drop street_at my_vendor)
  city ← read_string (drop city_at my_vendor)
  state ← read_string (drop state_at my_vendor)
  zipcode ← read_string (drop zipcode_at my_vendor)
  phone_number ← read_string (drop phone_number_at my_vendor)
  sales_rep ← read_string (drop sales_rep_at my_vendor)
  sales_rep_phone ← read_string (drop sales_rep_phone_at my_vendor)
  some (
      lit "        "
      ∷ text street
      ∷ lit "\n"
      ∷ lit "        "
      ∷ text city
      ∷ lit ", "
      ∷ text state
      ∷ lit "\n"
      ∷ lit "        "
      ∷ text zipcode
      ∷ lit "\n"
      ∷ lit "        "
      ∷ text phone_number
      ∷ lit "\n"
      ∷ lit "        Contact: "
      ∷ text sales_rep
      ∷ lit "\n"
      ∷ lit "                 "
      ∷ text sales_rep_phone
      ∷ endl
      ∷ [])

-- sizeof(VENDOR)
abbrev pub vendor_size : ℕ
vendor_size = 122

-- The format of the scan, and where the members that it fills begin.
abbrev pub vendor_format : Bytes
vendor_format = codes "%20[^#]#%20[^#]#%20[^#]#%3[^#]#%6[^#]#%13[^#]#%20[^#]#%20[^\n]"

abbrev pub vendor_members : List ℕ
vendor_members =
    0 ∷ street_at ∷ city_at ∷ state_at ∷ zipcode_at ∷ phone_number_at ∷ sales_rep_at
    ∷ sales_rep_phone_at ∷ []

module _ (sscanf : Bytes → Bytes → List ℕ → Bytes → Option Bytes) where
  module _ {W : Type 0} (put : Bytes → Bytes → Exec W (Unit {0})) where
    -- The put of a structure, under the C string that it begins with.
    put_named : Option Bytes → Bytes → Exec W (Unit {0})
    put_named none my_vendor = diverge
    put_named (some name) my_vendor = put (with_nul name) my_vendor

    put_vendor : Option Bytes → Exec W (Unit {0})
    unfolding put_named
    put_vendor none = diverge
    put_vendor (some my_vendor) = put_named (read_string my_vendor) my_vendor

    -- while (!inFile.eof()), on the lines that `getline` gives
    pub load_vendors : List Bytes → Exec W (Unit {0})
    unfolding put_vendor
    load_vendors [] = pure tt
    load_vendors (line ∷ lines) =
        put_vendor (sscanf (c_string line) vendor_format vendor_members (replicate vendor_size 0))
        >> load_vendors lines

  module _ (b : Db) where
    -- loadVendorDB: the content of the file, if it can be opened.
    pub load_vendor_db : Bytes → Option Bytes → Exec (MyDb b.World) (Unit {0})
    load_vendor_db vendor_file none =
        print_err (lit "Could not open file '" ∷ text vendor_file ∷ lit "'. Giving up." ∷ endl ∷ [])
        >> raise (std_exception (codes "std::exception"))
    load_vendor_db vendor_file (some content) =
        load_vendors (λ k v. on_db (b.put k v)) (lines_of content)
