-- ===== src/TripleDb/Options.antt =====
-- The options of excxx_example_database_load.cpp and excxx_example_database_read.cpp, as getopt gives
-- them, and the names of the files.
pub mod Delimiters
use m3sec.Common.{
  ℕ, zero, suc, ◌-◌, Bool, true, false, ◌||◌, List, [], ◌∷◌, ◌++◌, Option, none, some, ℤ, minus_one,
  Bytes, codes, get_elem?, length, ◌==◌,
}
use m3sec.Console.{Chunk, lit, endl}

-- An option with its argument: -h, or -b of the one and -i of the other program.
pub data Opt : Type 0 where
  opt_h : Bytes → Opt
  opt_other_path : Bytes → Opt
  opt_wrong : Opt

-- `databaseHome`, and `basename` or `itemName`; or usage() was called; or the character before an
-- empty text was looked at.
pub data Parsed : Type 0 where
  parsed : Bytes → Bytes → Parsed
  used : Parsed
  undefined : Parsed

-- lastChar = s[s.size() - 1]
unfoldable pub last_char : Bytes → Option ℕ
last_char [] = none
last_char (c ∷ s) = get_elem? (c ∷ s) (length (c ∷ s) - 1)

-- '/' or '\\'
abbrev is_delimiter : ℕ → Bool
is_delimiter c = c == b'/' || c == 92

abbrev pub checked : Option Bool → Parsed → Parsed
checked none rest = undefined
checked (some true) rest = rest
checked (some false) rest = used

abbrev pub ends_well : Option ℕ → Option Bool
ends_well none = none
ends_well (some c) = some (is_delimiter c)

-- The loop over the options of the loading program; the first two arguments are the values so far.
unfoldable pub parse_load : Bytes → Bytes → List Opt → Parsed
parse_load database_home basename [] = parsed database_home basename
parse_load database_home basename (opt_h arg ∷ opts) =
    checked (ends_well (last_char arg)) (parse_load arg basename opts)
parse_load database_home basename (opt_other_path arg ∷ opts) =
    checked (ends_well (last_char arg)) (parse_load database_home arg opts)
parse_load database_home basename (opt_wrong ∷ opts) = used

-- The loop over the options of the reading program.
unfoldable pub parse_read : Bytes → Bytes → List Opt → Parsed
parse_read database_home item_name [] = parsed database_home item_name
parse_read database_home item_name (opt_h arg ∷ opts) =
    checked (ends_well (last_char arg)) (parse_read arg item_name opts)
parse_read database_home item_name (opt_other_path arg ∷ opts) = parse_read database_home arg opts
parse_read database_home item_name (opt_wrong ∷ opts) = used

-- The lines of usage(), which gives -1.
unfoldable pub usage_load : ℤ × List Chunk
usage_load = (
  minus_one,
  lit "example_database_load [-b <path to data files>]"
      ∷ lit " [-h <database home directory>]"
      ∷ endl
      ∷ lit "Note: If -b -h is specified, then the path must end"
      ∷ lit " with your system's path delimiter (/ or \\)"
      ∷ endl
      ∷ [],
)

unfoldable pub usage_read : ℤ × List Chunk
usage_read = (
  minus_one,
  lit "example_database_read [-i <path to data files>]"
      ∷ lit " [-h <database home directory>]"
      ∷ endl
      ∷ lit "Note: Any path specified to the -h parameter must end"
      ∷ lit " with your system's path delimiter (/ or \\)"
      ∷ endl
      ∷ [],
)

-- inventoryFile and vendorFile
unfoldable pub input_files : Bytes → Bytes × Bytes
input_files basename = (basename ++ codes "inventory.txt", basename ++ codes "vendors.txt")
