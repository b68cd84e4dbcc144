-- ===== src/TripleDb/Programs/Loading.antt =====
-- The loading program over databases none of whose calls fails: what is in them afterwards.
use m3sec.Common.{
  true, false, none, length, append-nil, sym, List, [], ◌∷◌, ◌++◌, map, Option, some, pos, ℕ, Bytes,
  codes, ◌≡◌, refl, ap, ◌∙◌, All, with_nul, replicate,
}
use m3sec.Common.Exec.{Exec, ok, pure, try_catch, ◌>>=◌, ◌>>◌}
use m3sec.TripleDb.Inventory.{InventoryData, get_item_name}
use m3sec.TripleDb.Inventory.Marshal.{image}
use m3sec.TripleDb.Inventory.RoundTrip.{IsItem, get_item_name-image}
use m3sec.TripleDb.Database.{MyDb, on_db}
use m3sec.TripleDb.Database.Quiet.{on_db_lem}
use m3sec.TripleDb.Load.File.{NewlineFree, file_of, load_inventory_db_lem}
use m3sec.TripleDb.Load.Fields.{Line, text_of, with_line}
use m3sec.TripleDb.Load.Puts.{record_of, Fits, put_all, blank}
use m3sec.TripleDb.Vendor.{vendor_size, vendor_format, vendor_members}
use m3sec.TripleDb.Vendor.Layout.{Vendor, members, layout}
use m3sec.TripleDb.Vendor.Puts as VendorPuts
use m3sec.TripleDb.Vendor.Puts.{Scans, text_file, load_vendor_db_lem}
use m3sec.TripleDb.Options.{Opt, parsed, parse_load, input_files}
use m3sec.TripleDb.Read.{inventory_db, vendor_db}
use m3sec.TripleDb.Programs.{
  Tables, one_of, Program, on_object, object, on_world, load_body, after_load_options, main_load,
}
use m3sec.TripleDb.Programs.Scope.{with_objects-ending}
use m3sec.TripleDb.Programs.Store.{insert_all, record_key}
use m3sec.TripleDb.Programs.Laws.{Stored, View, IsStore, Gives, at_rest, all_shut}
use m3sec.TripleDb.Programs.Objects.{closed_lines, in_use, opened_lem, closed_lem}

-- The record of the empty line at the end of vendors.txt.
abbrev pub no_vendor : Vendor
no_vendor = record {
  name = [];
  street = [];
  city = [];
  state = [];
  zipcode = [];
  phone_number = [];
  sales_rep = [];
  sales_rep_phone = [];
}

abbrev pub vendor_record : Vendor → Bytes × Bytes
vendor_record v = (with_nul v.name, layout (members v))

abbrev pub line_record : (Bytes → ℕ) → (Bytes → ℕ) → Line → Bytes × Bytes
line_record strtod strtol l = (with_nul l.sku, record_of strtod strtol l)

abbrev pub with_inventory : List (Bytes × Bytes) → Stored → Stored
with_inventory new c = record c {
  inventory = insert_all record_key new c.inventory;
  index = insert_all record_key new c.index;
}

abbrev pub with_vendors : List (Bytes × Bytes) → Stored → Stored
with_vendors new c = record c { vendors = insert_all record_key new c.vendors }

-- get_item_name makes the key of the stored item.
pub item_key :
    (d : InventoryData)
    → IsItem d
    → get_item_name (length (image d)) (image d) ≡ some (pos 0, some (with_nul d.name))
item_key d h =
    ap (get_item_name (length (image d))) (sym (append-nil (image d))) ∙ get_item_name-image d h []

-- The objects, the index being associated.
abbrev pub ready : Stored → View
ready = in_use true none []

module _ {W : Type 0} (view : W → View) where
  -- The action returns, and does to the records what `f` does.
  abbrev Changes : Exec (MyDb W) (Unit {0}) → (Stored → Stored) → Type 0
  Changes m f =
      (c : Stored) (s : MyDb W)
      → view s.db ≡ ready c
      → (w : W) × (m s ≡ (ok tt, record s { db = w })) × (view w ≡ ready (f c))

  Changes-done : Changes (pure tt) (λ c. c)
  unfolding ◌>>=◌
  Changes-done c s h = (s.db, refl, h)

  -- A put before the others.
  Changes-put :
      (put : Exec W (Unit {0})) (rest : Exec (MyDb W) (Unit {0})) (f g : Stored → Stored)
      → ((c : Stored) (w : W) → view w ≡ ready c → Gives view put tt w (ready (f c)))
      → Changes rest g
      → Changes (on_db put >> rest) (λ c. g (f c))
  unfolding ◌>>=◌
  Changes-put put rest f g h k c s v =
      let (w1, e1, k1) = h c s.db v in
      let (w2, e2, k2) = k (f c) (record s { db = w1 }) k1 in
      (w2, rw (on_db_lem put s tt w1 e1) e2, k2)

module _ (t : Tables) (home : Bytes) (laws : IsStore t home) where
  module _ (strtod strtol : Bytes → ℕ) where
    -- The numbers of the line are words of 64 bits, and its texts have no NUL.
    abbrev pub IsStorable : Line → Type 0
    IsStorable l = IsItem (with_line strtod strtol l blank)

    inventory-Changes :
        (ls : List Line)
        → All IsStorable ls
        → Changes laws.view
            (put_all strtod strtol (λ k v. on_db (t.put inventory_db k v)) ls)
            (with_inventory (map (line_record strtod strtol) ls))
    inventory-Changes [] h = Changes-done laws.view
    inventory-Changes (l ∷ ls) (hl, h) =
        Changes-put laws.view _ _ (with_inventory (line_record strtod strtol l ∷ []))
          (with_inventory (map (line_record strtod strtol) ls))
          (λ c w v.
            laws.put_inventory (with_nul l.sku) (record_of strtod strtol l)
              (with_nul (with_line strtod strtol l blank).name) w (ready c) v refl refl refl
              (item_key (with_line strtod strtol l blank) hl))
          (inventory-Changes ls h)

  module _ (sscanf : Bytes → Bytes → List ℕ → Bytes → Option Bytes) where
    vendors-Changes :
        (vs : List Vendor)
        → Changes laws.view
            (VendorPuts.put_all sscanf (λ k v. on_db (t.put vendor_db k v)) vs)
            (with_vendors (map vendor_record (vs ++ no_vendor ∷ [])))
    vendors-Changes [] =
        Changes-put laws.view _ _ (with_vendors (vendor_record no_vendor ∷ [])) (λ c. c)
          (λ c w v. laws.put_vendor (0 ∷ []) (replicate vendor_size 0) w (ready c) v refl)
          (Changes-done laws.view)
    vendors-Changes (x ∷ vs) =
        Changes-put laws.view _ _ (with_vendors (vendor_record x ∷ []))
          (with_vendors (map vendor_record (vs ++ no_vendor ∷ [])))
          (λ c w v. laws.put_vendor (with_nul x.name) (layout (members x)) w (ready c) v refl)
          (vendors-Changes vs)

module _ (strtod strtol : Bytes → ℕ) (sscanf : Bytes → Bytes → List ℕ → Bytes → Option Bytes)
    (files : Bytes → Option Bytes) where
  -- The files under `base` can be opened and are well-formed: inventory.txt has the lines `ls`, with
  -- six fields each and records that can be read back and fit in the buffer, and vendors.txt has the lines `ps`, which
  -- are scanned into vendors.
  pub record IsInput (base : Bytes) (ls : List Line) (ps : List (Bytes × Vendor)) : Type 0 where
    pub inventory : files (base ++ codes "inventory.txt") ≡ some (file_of ls)
    pub vendors : files (base ++ codes "vendors.txt") ≡ some (text_file (map (λ p. p.0) ps))
    pub lines_free : All (λ l. NewlineFree (text_of l)) ls
    pub fits : All (Fits strtod strtol) ls
    pub storable : All (λ l. IsItem (with_line strtod strtol l blank)) ls
    pub vendors_free : All (λ p. NewlineFree p.0) ps
    pub scans : All (Scans sscanf) ps
    pub scans_empty :
        sscanf [] vendor_format vendor_members (replicate vendor_size 0)
        ≡ some (replicate vendor_size 0)

  -- The records after the puts for the two files.
  abbrev pub loaded : List Line → List (Bytes × Vendor) → Stored → Stored
  loaded ls ps c =
      with_vendors (map vendor_record (map (λ p. p.1) ps ++ no_vendor ∷ []))
        (with_inventory (map (line_record strtod strtol) ls) c)

  module _ (t : Tables) (home : Bytes) (laws : IsStore t home) (d : InventoryData) where
    load_body_lem :
        (base : Bytes) (ls : List Line) (ps : List (Bytes × Vendor))
        → IsInput base ls ps
        → (s : Program t.reader.World) (c : Stored) → laws.view s.db ≡ in_use false none [] c
        → (w : t.reader.World) × (load_body t strtod strtol sscanf d files home (input_files base) s
            ≡ (ok (pos 0), record s { db = w }))
          × (laws.view w ≡ ready (loaded ls ps c))
    unfolding load_body input_files on_world on_object ◌>>=◌
    load_body_lem base ls ps input s c v =
        let (w1, e1, k1) = laws.associate s.db (in_use false none [] c) v refl refl refl in
        let (w2, e2, k2) =
          inventory-Changes t home laws strtod strtol ls input.storable c
            (object home inventory_db (record s { db = w1 })) k1 in
        let (w3, e3, k3) =
          vendors-Changes t home laws sscanf (map (λ p. p.1) ps)
            (with_inventory (map (line_record strtod strtol) ls) c)
            (object home vendor_db (record s { db = w2 })) k2 in
        (
          w3,
          rw
              (
                e1,
                input.inventory,
                load_inventory_db_lem strtod strtol (one_of t inventory_db)
                    (base ++ codes "inventory.txt") ls d input.lines_free input.fits,
                e2,
                input.vendors,
                load_vendor_db_lem sscanf (one_of t vendor_db) (base ++ codes "vendors.txt") ps
                    input.vendors_free input.scans input.scans_empty,
                e3,
              )
              refl,
          k3,
        )

    -- If Berkeley DB does what is documented, no object is open at first, and the two text files
    -- under the path of option -b can be opened and are well-formed, then main returns 0, prints that the three databases are closed, and leaves in each primary database what was
    -- there with a put for each line, in order, and of a vendor with no name.
    pub main_load_lem :
        (opts : List Opt) (base : Bytes) (ls : List Line) (ps : List (Bytes × Vendor))
        → parse_load (codes "./") (codes "./") opts ≡ parsed home base
        → IsInput base ls ps
        → (s : Program t.reader.World) (c : Stored) → laws.view s.db ≡ at_rest c
        → (w : t.reader.World) × (main_load t strtod strtol sscanf d files opts s
            ≡ (ok (pos 0), record s { db = w; cout = s.cout ++ closed_lines home }))
          × (laws.view w ≡ all_shut (loaded ls ps c))
    unfolding main_load after_load_options try_catch
    main_load_lem opts base ls ps chosen input s c v =
        let (w1, e1, k1) = opened_lem t home laws s c v in
        let (w2, e2, k2) = load_body_lem base ls ps input (record s { db = w1 }) c k1 in
        let (w3, e3, k3) = closed_lem t home laws (record s { db = w2 }) true (loaded ls ps c) k2 in
        (
          w3,
          rw
              (
                chosen,
                with_objects-ending t laws.responds home
                    (load_body t strtod strtol sscanf d files home (input_files base)) s,
                e1,
                e2,
                e3,
              )
              refl,
          k3,
        )
