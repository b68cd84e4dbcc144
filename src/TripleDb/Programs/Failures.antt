-- ===== src/TripleDb/Programs/Failures.antt =====
-- The loading program where something fails.
use m3sec.Common.{
  true, false, [], ◌∷◌, ◌++◌, Option, none, ℕ, ℤ, minus_one, Bytes, codes, ◌≡◌, refl, ◌∙◌, List,
}
use m3sec.Common.Exec.{Exn, db_exception, std_exception, out_of_range, ok, throw, try_catch, ◌>>=◌}
use m3sec.Console.{Chunk, text, lit, what, endl}
use m3sec.TripleDb.Inventory.{InventoryData}
use m3sec.TripleDb.Database.{DbResponds}
use m3sec.TripleDb.Load.{load_inventory_db, print_err}
use m3sec.TripleDb.Options.{Opt, parsed, parse_load, input_files}
use m3sec.TripleDb.Read.{Database}
use m3sec.TripleDb.Programs.{
  Tables, one_of, Program, on_object, on_world, load_body, load_failed, complain,
  after_load_options, main_load,
}
use m3sec.TripleDb.Programs.Scope.{opened, closed, with_objects-ending}
use m3sec.TripleDb.Programs.Laws.{Stored, IsStore, at_rest, all_shut}
use m3sec.TripleDb.Programs.Objects.{closed_lines, in_use, opened_lem, closed_lem}

-- e.get_errno(), or -1
abbrev pub code_of : Exn → ℤ
code_of (db_exception n) = n
code_of (std_exception m) = minus_one
code_of out_of_range = minus_one

abbrev pub failure_lines : Exn → List Chunk
failure_lines e = lit "Error loading databases. " ∷ endl ∷ what e ∷ endl ∷ []

abbrev pub missing_lines : Bytes → List Chunk
missing_lines file = lit "Could not open file '" ∷ text file ∷ lit "'. Giving up." ∷ endl ∷ []

module _ (strtod strtol : Bytes → ℕ) (sscanf : Bytes → Bytes → List ℕ → Bytes → Option Bytes)
    (files : Bytes → Option Bytes) (t : Tables) (d : InventoryData) (home base : Bytes)
    (opts : List Opt) (chosen : parse_load (codes "./") (codes "./") opts ≡ parsed home base) where
  -- If the calls that open and close a database return or throw, and the associating or the loading
  -- throws an exception, then main does not throw: it closes the three databases, and then prints two
  -- lines about the exception and returns its number, or -1 where it has none.
  pub main_load-throws :
      (responds : (x : Database) → DbResponds (one_of t x)) (e : Exn)
      (s s' : Program t.reader.World)
      → load_body t strtod strtol sscanf d files home (input_files base) (opened t responds home s)
        ≡ (throw e, s')
      → main_load t strtod strtol sscanf d files opts s ≡ (
        ok (code_of e),
        let s2 = closed t responds home s' in record s2 { cerr = s2.cerr ++ failure_lines e },
      )
  unfolding main_load after_load_options load_failed complain try_catch ◌>>=◌
  main_load-throws responds e s s' h =
      rw
        (
          chosen,
          with_objects-ending t responds home
              (load_body t strtod strtol sscanf d files home (input_files base)) s,
          h,
        )
        (reported e)
    where
      reported :
          (x : Exn)
          → load_failed t x (closed t responds home s') ≡ (
            ok (code_of x),
            let s2 = closed t responds home s' in record s2 { cerr = s2.cerr ++ failure_lines x },
          )
      reported (db_exception n) = refl
      reported (std_exception m) = refl
      reported out_of_range = refl

  body-throws :
      (s : Program t.reader.World) (w : t.reader.World)
      → files (base ++ codes "inventory.txt") ≡ none
      → t.associate s.db ≡ (ok tt, w)
      → load_body t strtod strtol sscanf d files home (input_files base) s ≡ (
        throw (std_exception (codes "std::exception")),
        record s { db = w; cerr = s.cerr ++ missing_lines (base ++ codes "inventory.txt") },
      )
  unfolding load_body input_files load_inventory_db print_err on_world on_object ◌>>=◌
  body-throws s w missing e = rw (e, missing) refl

  -- If Berkeley DB does what is documented, no object is open at first, and inventory.txt cannot be
  -- opened under the path of option -b, then main returns -1, prints the
  -- name of that file and the exception, and that the databases are closed, and changes no record;
  -- vendors.txt is not looked at.
  pub main_load-no_inventory :
      (laws : IsStore t home) (s : Program t.reader.World) (c : Stored)
      → laws.view s.db ≡ at_rest c
      → files (base ++ codes "inventory.txt") ≡ none
      → (w : t.reader.World) × (main_load t strtod strtol sscanf d files opts s ≡ (
        ok minus_one,
        record s {
          db = w;
          cout = s.cout ++ closed_lines home;
          cerr =
              s.cerr
              ++ missing_lines (base ++ codes "inventory.txt")
              ++ failure_lines (std_exception (codes "std::exception"));
        },
      ))
        × (laws.view w ≡ all_shut c)
  main_load-no_inventory laws s c v missing =
      let (w1, e1, k1) = opened_lem t home laws s c v in
      let (w2, e2, k2) = laws.associate w1 (in_use false none [] c) k1 refl refl refl in
      let s2 : Program t.reader.World = record s {
        db = w2;
        cerr = s.cerr ++ missing_lines (base ++ codes "inventory.txt");
      } in
      let (w3, e3, k3) = closed_lem t home laws s2 true c k2 in
      (
        w3,
        main_load-throws laws.responds (std_exception (codes "std::exception")) s s2
              (rw e1 (body-throws (record s { db = w1 }) w2 missing e2))
            ∙ rw e3 refl,
        k3,
      )
