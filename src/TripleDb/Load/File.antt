-- ===== src/TripleDb/Load/File.antt =====
-- A whole inventory.txt.
use m3sec.Common.{eq_of_ne, ℕ, List, [], ◌∷◌, ◌++◌, map, some, Bytes, ◌≡◌, ◌≢◌, refl, ap, ◌∙◌, All}
use m3sec.TripleDb.Database.{Db, on_db}
use m3sec.TripleDb.Inventory.{InventoryData, clear}
use m3sec.TripleDb.Load.{onto, lines_of, load_inventory_db}
use m3sec.TripleDb.Load.Fields.{Line, text_of}
use m3sec.TripleDb.Load.Puts.{Fits, put_all, load_lines_lem}

abbrev pub NewlineFree : Bytes → Type 0
NewlineFree = All (λ c. c ≢ 10)

-- The lines, each with its newline.
abbrev pub file_of : List Line → Bytes
file_of [] = []
file_of (l ∷ ls) = text_of l ++ 10 ∷ file_of ls

pub lines_of-append :
    (a rest : Bytes) → NewlineFree a → lines_of (a ++ 10 ∷ rest) ≡ a ∷ lines_of rest
unfolding lines_of onto
lines_of-append [] rest h = refl
lines_of-append (c ∷ a) rest (hc, h) = rw (eq_of_ne c 10 hc, lines_of-append a rest h)

lines_of-file_of :
    (ls : List Line)
    → All (λ l. NewlineFree (text_of l)) ls
    → lines_of (file_of ls) ≡ map text_of ls ++ [] ∷ []
unfolding lines_of
lines_of-file_of [] h = refl
lines_of-file_of (l ∷ ls) (hl, h) =
    lines_of-append (text_of l) (file_of ls) hl ∙ ap (λ r. text_of l ∷ r) (lines_of-file_of ls h)

module _ (strtod strtol : Bytes → ℕ) (b : Db) where
  -- If inventory.txt can be opened and holds lines of six fields with no pound sign and no newline,
  -- each ended by a newline, whose records fit in the buffer, loadInventoryDB does just this: for
  -- each line, in order, a put of the terminated SKU and the record, up to the first put that does
  -- not return.
  pub load_inventory_db_lem :
      (name : Bytes) (ls : List Line) (d : InventoryData)
      → All (λ l. NewlineFree (text_of l)) ls
      → All (Fits strtod strtol) ls
      → load_inventory_db strtod strtol b name (some (file_of ls)) d
        ≡ put_all strtod strtol (λ k v. on_db (b.put k v)) ls
  unfolding load_inventory_db
  load_inventory_db_lem name ls d free fits =
      rw (lines_of-file_of ls free) (load_lines_lem strtod strtol _ 1 ls (clear d) fits)
