-- ===== src/TripleDb/Vendor/Puts.antt =====
-- What loadVendorDB puts, and the record that it puts for the end of the file.
use m3sec.Common.{
  ℕ, List, [], ◌∷◌, ◌++◌, Option, some, Bytes, ◌≡◌, refl, ap, ◌∙◌, All, map, replicate, with_nul,
  c_string,
}
use m3sec.Common.Exec.{Exec, pure, ◌>>◌}
use m3sec.TripleDb.Inventory.{read_string}
use m3sec.TripleDb.Database.{Db, on_db}
use m3sec.TripleDb.Load.{lines_of}
use m3sec.TripleDb.Load.File.{NewlineFree, lines_of-append}
use m3sec.TripleDb.Vendor.{
  load_vendors, load_vendor_db, put_vendor, put_named, vendor_size, vendor_format, vendor_members,
}
use m3sec.TripleDb.Vendor.Layout.{Vendor, members, layout, Terminated, read_string-pad}

-- A file of lines, each with its newline.
abbrev pub text_file : List Bytes → Bytes
text_file [] = []
text_file (l ∷ ls) = l ++ 10 ∷ text_file ls

lines_of-text_file :
    (ls : List Bytes) → All NewlineFree ls → lines_of (text_file ls) ≡ ls ++ [] ∷ []
unfolding lines_of
lines_of-text_file [] h = refl
lines_of-text_file (l ∷ ls) (hl, h) =
    lines_of-append l (text_file ls) hl ∙ ap (λ r. l ∷ r) (lines_of-text_file ls h)

lines_free :
    (ps : List (Bytes × Vendor))
    → All (λ p. NewlineFree p.0) ps
    → All NewlineFree (map (λ p. p.0) ps)
lines_free [] h = h
lines_free (p ∷ ps) (hp, h) = (hp, lines_free ps h)

module _ (sscanf : Bytes → Bytes → List ℕ → Bytes → Option Bytes) where
  -- The scan of the line fills the structure with the vendor's texts, none of which fills its member.
  abbrev pub Scans : Bytes × Vendor → Type 0
  Scans p =
      (sscanf (c_string p.0) vendor_format vendor_members (replicate vendor_size 0)
        ≡ some (layout (members p.1)))
      × Terminated (members p.1)

  module _ {W : Type 0} (put : Bytes → Bytes → Exec W (Unit {0})) where
    -- One put for each vendor, in order: the terminated name, and the structure.
    abbrev pub put_all : List Vendor → Exec W (Unit {0})
    put_all [] = put (0 ∷ []) (replicate vendor_size 0) >> pure tt
    put_all (v ∷ vs) = put (with_nul v.name) (layout (members v)) >> put_all vs

    load_vendors_lem :
        (ps : List (Bytes × Vendor))
        → All Scans ps
        → sscanf [] vendor_format vendor_members (replicate vendor_size 0)
          ≡ some (replicate vendor_size 0)
        → load_vendors sscanf put (map (λ p. p.0) ps ++ [] ∷ []) ≡ put_all (map (λ p. p.1) ps)
    unfolding load_vendors put_vendor put_named c_string read_string
    load_vendors_lem [] h e = rw e refl
    load_vendors_lem ((line, v) ∷ ps) ((hs, ((free, lt), ht)), h) e =
        rw (hs, read_string-pad 20 v.name _ free lt, load_vendors_lem ps h e)

  module _ (b : Db) where
    -- If vendors.txt can be opened and holds lines that end with a newline, the scan of each fills
    -- the structure with the texts of a vendor, which have no NUL and leave room for one, and the
    -- scan of an empty line leaves the structure cleared, then loadVendorDB does just this: for
    -- each line, in order, a put of the terminated name and the structure, and then a put of a
    -- vendor with no name, up to the first that does not return.
    pub load_vendor_db_lem :
        (name : Bytes) (ps : List (Bytes × Vendor))
        → All (λ p. NewlineFree p.0) ps
        → All Scans ps
        → sscanf [] vendor_format vendor_members (replicate vendor_size 0)
          ≡ some (replicate vendor_size 0)
        → load_vendor_db sscanf b name (some (text_file (map (λ p. p.0) ps)))
          ≡ put_all (λ k v. on_db (b.put k v)) (map (λ p. p.1) ps)
    unfolding load_vendor_db
    load_vendor_db_lem name ps free scans e =
        rw (lines_of-text_file (map (λ p. p.0) ps) (lines_free ps free))
          (load_vendors_lem (λ k v. on_db (b.put k v)) ps scans e)
