-- ===== src/TripleDb/Programs/Composed.antt =====
-- The loading program, and then the reading program on what it left.
use m3sec.Common.{
  ℕ, suc, ◌<◌, List, [], ◌∷◌, ◌++◌, map, Option, some, pos, Bytes, codes, ◌≡◌, refl, sym, ap, ◌∙◌,
  All, NulFree, with_nul, length, arith,
}
use m3sec.Common.Exec.{ok}
use m3sec.Console.{Chunk}
use m3sec.TripleDb.Inventory.{InventoryData}
use m3sec.TripleDb.Inventory.RoundTrip.{IsItem}
use m3sec.TripleDb.Vendor.Layout.{Vendor, members, Terminated}
use m3sec.TripleDb.Vendor.Puts.{Scans}
use m3sec.TripleDb.Load.Fields.{Line, with_line}
use m3sec.TripleDb.Load.Puts.{blank}
use m3sec.TripleDb.Options.{Opt, parsed, parse_load, parse_read}
use m3sec.TripleDb.Read.Shown.{all_lines}
use m3sec.TripleDb.Programs.{Tables, Program, main_load, main_read}
use m3sec.TripleDb.Programs.Store.{
  find, insert_all, record_key, map-insert_all, find-map, insert_all-All, find-All,
  length-insert_all,
}
use m3sec.TripleDb.Programs.Laws.{Stored, IsStore, at_rest, all_shut}
use m3sec.TripleDb.Programs.Objects.{closed_lines}
use m3sec.TripleDb.Programs.Loading.{
  no_vendor, vendor_record, line_record, IsInput, loaded, main_load_lem,
}
use m3sec.TripleDb.Programs.Showing.{Entry, item_record, Listed, main_read_lem}
use m3sec.TripleDb.Programs.Index.{named}
use m3sec.TripleDb.Programs.Finding.{found_lines, complaint, main_read-named}

length-map : {A B : Type 0} (f : A → B) (xs : List A) → length (map f xs) ≡ length xs
length-map f [] = refl
length-map f (x ∷ xs) = ap suc (length-map f xs)

-- The keys under which items and vendors are put.
abbrev pub sku_key : Entry → Bytes
sku_key e = with_nul e.0.sku

abbrev pub name_key : Vendor → Bytes
name_key v = with_nul v.name

-- The vendors after all puts, which overwrite one another by their names.
abbrev pub vendor_table : List (Bytes × Vendor) → List Vendor
vendor_table ps = insert_all name_key (map (λ p. p.1) ps ++ no_vendor ∷ []) []

module _ (strtod strtol : Bytes → ℕ) where
  -- The item of a line, with its vendor.
  abbrev pub entry : Line × Vendor → Entry
  entry (l, v) = (with_line strtod strtol l blank, v)

  -- The items after all puts, which overwrite one another by their SKUs and stand in that order.
  abbrev pub item_table : List (Line × Vendor) → List Entry
  item_table ls = insert_all sku_key (map entry ls) []

  -- The vendor that the line names is `v` after all puts.
  abbrev pub Known : List (Bytes × Vendor) → Line × Vendor → Type 0
  Known ps (l, v) = find name_key (with_nul l.vendor) (vendor_table ps) ≡ some v

  records-lines :
      (ls : List (Line × Vendor))
      → map item_record (map entry ls) ≡ map (line_record strtod strtol) (map (λ p. p.0) ls)
  records-lines [] = refl
  records-lines (p ∷ ls) = ap (λ r. line_record strtod strtol p.0 ∷ r) (records-lines ls)

  item_table-records :
      (ls : List (Line × Vendor))
      → insert_all record_key (map (line_record strtod strtol) (map (λ p. p.0) ls)) []
        ≡ map item_record (item_table ls)
  item_table-records ls =
      ap (λ new. insert_all record_key new []) (sym (records-lines ls))
      ∙ sym (map-insert_all item_record record_key (map entry ls) [])

  module _ (sscanf : Bytes → Bytes → List ℕ → Bytes → Option Bytes) where
    new-Terminated :
        (ps : List (Bytes × Vendor))
        → All (Scans sscanf) ps
        → All (λ v. Terminated (members v)) (map (λ p. p.1) ps ++ no_vendor ∷ [])
    new-Terminated [] h = omega arith
    new-Terminated (p ∷ ps) (hp, h) = (hp.1, new-Terminated ps h)

    vendor_table-Terminated :
        (ps : List (Bytes × Vendor))
        → All (Scans sscanf) ps
        → All (λ v. Terminated (members v)) (vendor_table ps)
    vendor_table-Terminated ps h =
        insert_all-All name_key (λ v. Terminated (members v)) _ [] (new-Terminated ps h) tt

    entries-Listed :
        (c : Stored) (ps : List (Bytes × Vendor)) (ls : List (Line × Vendor))
        → All (Scans sscanf) ps
        → c.vendors ≡ map vendor_record (vendor_table ps)
        → All (λ l. IsItem (with_line strtod strtol l blank)) (map (λ p. p.0) ls)
        → All (Known ps) ls
        → All (Listed c) (map entry ls)
    entries-Listed c ps [] scans e items h = tt
    entries-Listed c ps ((l, v) ∷ ls) scans e (isi, items) (known, h) = (
      (
        isi,
        find-All name_key (λ v. Terminated (members v)) (with_nul l.vendor) (vendor_table ps) v
            (vendor_table-Terminated ps scans) known,
        ap (find record_key (with_nul l.vendor)) e
            ∙ find-map vendor_record record_key (with_nul l.vendor) (vendor_table ps) v known,
      ),
      entries-Listed c ps ls scans e items h,
    )

    -- The first program returned 0, and the second one, another process started with `s'` on the
    -- databases that the first one left, returned 0 and left `out` on cout and `err` on cerr.
    abbrev pub Shows :
        (t : Tables)
        → (t.reader.World → t.reader.World)
        → (Bytes → Option Bytes)
        → InventoryData
        → List Opt
        → Program t.reader.World
        → (show_double show_long : ℕ → Bytes) → Bytes
        → ℕ
        → List Opt
        → Program t.reader.World
        → List Chunk
        → List Chunk
        → Type 0
    Shows t restart files d load_opts s show_double show_long databuf fuel read_opts s' out err =
        let (o1, s1) = main_load t strtod strtol sscanf d files load_opts s in
        let (o2, s2) =
          main_read t show_double show_long databuf fuel read_opts
            (record s' { db = restart s1.db }) in
        (o1 ≡ ok (pos 0)) × (o2 ≡ ok (pos 0)) × (s2.cout ≡ out) × (s2.cerr ≡ err)

    module _ (t : Tables) (home : Bytes) (laws : IsStore t home) (files : Bytes → Option Bytes)
        (d : InventoryData) (load_opts : List Opt) (base : Bytes) (ls : List (Line × Vendor))
        (ps : List (Bytes × Vendor)) (s : Program t.reader.World)
        (chosen : parse_load (codes "./") (codes "./") load_opts ≡ parsed home base)
        (input : IsInput strtod strtol sscanf files base (map (λ p. p.0) ls) ps)
        (known : All (Known ps) ls)
        (empty : laws.view s.db
          ≡ at_rest (record { inventory = []; vendors = []; index = [] })) where
      -- What is in the databases after the first program.
      abbrev left : Stored
      left =
          loaded strtod strtol sscanf files (map (λ p. p.0) ls) ps
            (record { inventory = []; vendors = []; index = [] })

      -- What the first program leaves for the second.
      after_load :
          (w : t.reader.World) × (main_load t strtod strtol sscanf d files load_opts s
            ≡ (ok (pos 0), record s { db = w; cout = s.cout ++ closed_lines home }))
          × (laws.view w ≡ all_shut left)
      after_load =
          main_load_lem strtod strtol sscanf files t home laws d load_opts base (map (λ p. p.0) ls)
            ps chosen input s _ empty

      left-Listed : All (Listed left) (item_table ls)
      left-Listed =
          insert_all-All sku_key (Listed left) (map entry ls) []
            (entries-Listed left ps ls input.scans
              (sym
                (map-insert_all vendor_record record_key (map (λ p. p.1) ps ++ no_vendor ∷ []) []))
              input.storable known)
            tt

      module _ (show_double show_long : ℕ → Bytes) (databuf : Bytes) (fuel : ℕ)
          (enough : length ls < fuel) where
        few : length (item_table ls) < fuel
        few =
            omega (arith, enough, length-insert_all sku_key (map entry ls) [], length-map entry ls)

        -- If Berkeley DB does what is documented, the databases of the directory are empty and no
        -- object is open at first, both text files are well-formed, the vendor that each line of inventory.txt names is in vendors.txt,
        -- and there is fuel for one round more than lines, then both programs return 0, and the
        -- second one, with no name given, prints just this: the members of each item and of its
        -- vendor, in the order of the SKUs, where a later line of the same SKU or the same vendor's
        -- name has overwritten an earlier one, and that the databases are closed.
        pub load_then_show :
            (read_opts : List Opt) (s' : Program t.reader.World)
            → parse_read (codes "./") [] read_opts ≡ parsed home []
            → Shows t laws.restart files d load_opts s show_double show_long databuf fuel read_opts
                s'
                (s'.cout
                  ++ (all_lines t.reader show_double show_long databuf (item_table ls)
                      ++ closed_lines home))
                s'.cerr
        load_then_show read_opts s' chosen' =
            let (w1, e1, k1) = after_load in
            let (w2, e2, k2) =
              main_read_lem t home laws show_double show_long databuf fuel read_opts (item_table ls)
                (record s' { db = laws.restart w1 }) left chosen' (laws.restart_law left w1 k1)
                (item_table-records ls) left-Listed few in
            rw (e1, e2) (refl, refl, refl, refl)

        -- Under the same conditions, with a name that is not empty: both programs return 0, and the second one prints the name, the members
        -- of each item of that name and of its vendor, in the order of the SKUs, and that the
        -- databases are closed; it writes to cerr only if there is no such item.
        pub load_then_find :
            (read_opts : List Opt) (c : ℕ) (name : Bytes) (s' : Program t.reader.World)
            → parse_read (codes "./") [] read_opts ≡ parsed home (c ∷ name)
            → NulFree (c ∷ name)
            → let us = named (c ∷ name) (item_table ls) in
              Shows t laws.restart files d load_opts s show_double show_long databuf fuel read_opts
                s'
                (s'.cout
                  ++ (found_lines t home laws show_double show_long databuf fuel (c ∷ name) us
                      ++ closed_lines home))
                (s'.cerr ++ complaint (c ∷ name) us)
        load_then_find read_opts c name s' chosen' free =
            let (w1, e1, k1) = after_load in
            let (w2, e2, k2) =
              main_read-named t home laws show_double show_long databuf fuel read_opts c name
                (item_table ls) (record s' { db = laws.restart w1 }) left chosen'
                (laws.restart_law left w1 k1) refl free (item_table-records ls) left-Listed few in
            rw (e1, e2) (refl, refl, refl, refl)
