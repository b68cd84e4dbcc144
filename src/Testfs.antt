-- ===== src/Testfs.antt =====
-- sib_fs_mapping/berkeley/testfs/test.cpp: one run that opens the tables, fills or reads them, and
-- builds the file system. The vectors, which are local to `main`, are those of the state.
pub mod Created
pub mod Output
pub mod Runs
pub mod Usage
pub mod Walk
use m3sec.Common.{
  ℕ, zero, suc, ℤ, pos, minus_one, Bool, true, false, List, [], ◌∷◌, ◌++◌, Option, none, some,
  Bytes, codes, with_nul, c_string, ltb, ◌==◌, if◌then◌else◌,
}
use m3sec.Common.Exec.{Exn, Exec, pure, diverge, modify, gets, try_catch, ◌>>=◌, ◌>>◌}
use m3sec.Console.{Chunk, text, lit, endl}
use m3sec.Bdb.{Bdb, db_s, db_p, db_o, dup, OpenFlags, create, create_truncate, rdonly}
use m3sec.Fusekit.{Fusekit}
use m3sec.Rows.{Fetched, next_row, line_of}
use m3sec.BdbVfs.{State, say, on_db, on_fuse, report}
use m3sec.BdbVfs.Vfs.{build_tree}

-- What `getopt(argc, argv, "c:r:")` returns, until EOF.
pub data Opt : Type 0 where
  opt_c opt_r opt_other : Opt

-- The flags for `open`, or the value that `main` returns at once.
pub data Parsed : Type 0 where
  flags : OpenFlags → Parsed
  returned : ℤ → Parsed

pub record Maps : Type 0 where
  pub multi_subjs : List (Bytes × Bytes)
  pub multi_preds : List (Bytes × Bytes)
  pub multi_objs : List (Bytes × Bytes)

-- `<` on strings.
bytes_ltb : Bytes → Bytes → Bool
bytes_ltb [] [] = false
bytes_ltb [] (d ∷ t) = true
bytes_ltb (c ∷ s) [] = false
bytes_ltb (c ∷ s) (d ∷ t) =
    let rest = bytes_ltb s t in if ltb c d then true else (if c == d then rest else false)

-- `multimap::insert`: behind the entries whose key is not greater.
insert : Bytes × Bytes → List (Bytes × Bytes) → List (Bytes × Bytes)
insert e [] = e ∷ []
insert e (e' ∷ m) = let rest = insert e m in if bytes_ltb e.0 e'.0 then e ∷ (e' ∷ m) else e' ∷ rest

-- pair<string, string>((char *)key.get_data(), (char *)data.get_data())
unfoldable entry : Bytes → Bytes → Bytes × Bytes
entry key value = (c_string key, c_string value)

module _ {W F : Type 0} where
  -- cout << …, with no `endl`
  print : List Chunk → Exec (State W F) (Unit {0})
  print line = modify λ s. record s { cout = s.cout ++ line }

  pub usage : Exec (State W F) ℤ
  usage = do
    say (lit "test -c [DB_CREATE]" ∷ lit " -- [only create and insert data to DB]." ∷ [])
    say (lit "test -r [DB_RDONLY]" ∷ lit " -- [only read data from DB]." ∷ [])
    pure minus_one

  -- The loop over the options; the first argument is the value of `flags` so far.
  pub parse_options : OpenFlags → List Opt → Exec (State W F) Parsed
  parse_options fl [] = pure (flags fl)
  parse_options fl (opt_c ∷ opts) = do
    say (lit "Creating and inserting data to DB ..." ∷ [])
    parse_options create_truncate opts
  parse_options fl (opt_r ∷ opts) = do
    say (lit "Reading data from DB ..." ∷ [])
    parse_options rdonly opts
  parse_options fl (opt_other ∷ opts) = do c ← usage; pure (returned c)

  -- The body of the loop over the rows.
  walk_row : Fetched → Maps → Exec (State W F) Maps
  walk_row r m = do
    say (line_of (codes "S: ") r.key_s r.data_s)
    modify (λ s. record s { subj_vector = s.subj_vector ++ c_string r.data_s ∷ [] })
    say (line_of (codes "P: ") r.key_p r.data_p)
    modify (λ s. record s { pred_vector = s.pred_vector ++ c_string r.data_p ∷ [] })
    say (line_of (codes "O: ") r.key_o r.data_o)
    modify (λ s. record s { obj_vector = s.obj_vector ++ c_string r.data_o ∷ [] })
    pure (record {
      multi_subjs = insert (entry r.key_s r.data_s) m.multi_subjs;
      multi_preds = insert (entry r.key_p r.data_p) m.multi_preds;
      multi_objs = insert (entry r.key_o r.data_o) m.multi_objs;
    })

  unfoldable print_items : List Bytes → Exec (State W F) (Unit {0})
  print_items [] = print (endl ∷ [])
  print_items (v ∷ vs) = print (text v ∷ lit ", " ∷ []) >> print_items vs

  unfoldable print_entries : List (Bytes × Bytes) → Exec (State W F) (Unit {0})
  print_entries [] = pure tt
  print_entries (e ∷ m) = do
    say (lit "  [" ∷ text e.0 ∷ lit ", " ∷ text e.1 ∷ lit "]" ∷ [])
    print_entries m

  -- The vectors, then the maps.
  unfoldable print_all : Maps → Exec (State W F) (Unit {0})
  print_all m = do
    subjs ← gets (λ s. s.subj_vector)
    preds ← gets (λ s. s.pred_vector)
    objs ← gets (λ s. s.obj_vector)
    print (lit "subj vector contains:\n" ∷ [])
    print_items subjs
    print (lit "pred vector contains:\n" ∷ [])
    print_items preds
    print (lit "obj vector contains:\n" ∷ [])
    print_items objs
    print (lit "multi_subj contains:\n" ∷ [])
    print_entries m.multi_subjs
    print (lit "multi_pred contains:\n" ∷ [])
    print_entries m.multi_preds
    print (lit "multi_obj contains:\n" ∷ [])
    print_entries m.multi_objs

module _ (b : Bdb) {F : Type 0} where
  unfoldable pub open_tables : OpenFlags → Exec (State b.World F) (Unit {0})
  open_tables fl = do
    on_db (b.set_flags db_s dup)
    on_db (b.set_flags db_p dup)
    on_db (b.set_flags db_o dup)
    on_db (b.open_db db_s (codes "s.db") fl)
    on_db (b.open_db db_p (codes "p.db") fl)
    on_db (b.open_db db_o (codes "o.db") fl)

  unfoldable put_rows : Exec (State b.World F) (Unit {0})
  put_rows = do
    on_db (b.put db_s (codes "subject") (with_nul (codes "I")))
    on_db (b.put db_s (codes "subject") (with_nul (codes "Kirill")))
    on_db (b.put db_s (codes "subject") (with_nul (codes "Katya")))
    on_db (b.put db_p (codes "predicate") (with_nul (codes "am")))
    on_db (b.put db_p (codes "predicate") (with_nul (codes "has")))
    on_db (b.put db_p (codes "predicate") (with_nul (codes "sister of")))
    on_db (b.put db_o (codes "object") (with_nul (codes "Kirill.")))
    on_db (b.put db_o (codes "object") (with_nul (codes "a sister.")))
    on_db (b.put db_o (codes "object") (with_nul (codes "Kirill")))

  -- if (flags != DB_RDONLY) …
  unfoldable pub insert_data : OpenFlags → Exec (State b.World F) (Unit {0})
  unfolding put_rows
  insert_data rdonly = say (lit "Inserting data ..." ∷ [])
  insert_data fl = say (lit "Inserting data ..." ∷ []) >> put_rows

  -- while (cur_s->get(…) == 0 && …)
  pub walk : ℕ → Maps → Exec (State b.World F) Maps
  walk zero m = diverge
  walk (suc fuel) m = do
    row ← on_db (next_row b)
    elim row [ none ↦ pure m | some r ↦ walk_row r m >>= walk fuel ]

  -- "3. Output data of DB and Save DB data to vectors", to the closing of the cursors
  unfoldable output_data : ℕ → Exec (State b.World F) (Unit {0})
  output_data fuel = do
    say (lit "Output data ..." ∷ [])
    on_db (b.cursor db_s)
    on_db (b.cursor db_p)
    on_db (b.cursor db_o)
    modify (λ s. record s { subj_vector = []; pred_vector = []; obj_vector = [] })
    m ← walk fuel (record { multi_subjs = []; multi_preds = []; multi_objs = [] })
    print_all m
    on_db (b.close_cursor db_s)
    on_db (b.close_cursor db_p)
    on_db (b.close_cursor db_o)

  unfoldable close_tables : Exec (State b.World F) (Unit {0})
  close_tables = do
    say (lit "Closing DB ..." ∷ [])
    on_db (b.close db_s)
    on_db (b.close db_p)
    on_db (b.close db_o)
    say (lit "DB closed!" ∷ [])

module _ (b : Bdb) (f : Fusekit) where
  -- "6. Create test VFS": the statements are those of `build_tree`.
  unfoldable test_vfs : Exec (State b.World f.World) (Unit {0})
  test_vfs = build_tree b.World f

  -- The try statement: some value if `main` returns it at once.
  unfoldable guarded : ℕ → OpenFlags → Exec (State b.World f.World) (Option ℤ)
  guarded fuel fl =
      try_catch
        (do
          open_tables b fl
          insert_data b fl
          output_data b fuel
          close_tables b
          test_vfs
          pure none)
        (λ e. do c ← report e; pure (some c))

  -- What follows the loop over the options.
  after_options : ℕ → List Bytes → Parsed → Exec (State b.World f.World) ℤ
  after_options fuel argv (returned c) = pure c
  after_options fuel argv (flags fl) = do
    r ← guarded fuel fl
    elim r [ some c ↦ pure c | none ↦ on_fuse (f.run argv) ]

  -- main
  pub main_testfs : ℕ → List Opt → List Bytes → Exec (State b.World f.World) ℤ
  main_testfs fuel opts argv = do
    say (lit "Open DB" ∷ [])
    p ← parse_options rdonly opts
    after_options fuel argv p
