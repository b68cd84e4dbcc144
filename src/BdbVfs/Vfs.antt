-- ===== src/BdbVfs/Vfs.antt =====
-- `createDbVfs` of bdb_vfs.cpp: the directories and files that are made from the vectors.
pub mod Aligned
pub mod Calls
pub mod Built
pub mod Frame
pub mod Total
use m3sec.Common.{
  ℕ, zero, suc, ◌+◌, ℤ, List, [], ◌∷◌, ◌++◌, none, some, Bytes, codes, c_string, length, get_elem?,
}
use m3sec.Common.Exec.{Outcome, ok, throw, out_of_range, Exec, pure, gets, lift, ◌>>=◌, ◌>>◌}
use m3sec.Bdb.{Bdb}
use m3sec.Fusekit.{Fusekit}
use m3sec.Console.{number, lit, text}
use m3sec.BdbVfs.{State, say, on_fuse, close_db}

-- `v.at(i)`
unfoldable pub at {ℓ} : {A : Type ℓ} → List A → ℕ → Outcome A
at v i = elim (get_elem? v i) [ none ↦ throw out_of_range | some a ↦ ok a ]

module _ {W F : Type 0} where
  -- cout << "----------------------------" << endl
  rule : Exec (State W F) (Unit {0})
  rule = say (lit "----------------------------" ∷ [])

  -- for (it …) cout << *it << endl;
  print_all : List Bytes → Exec (State W F) (Unit {0})
  print_all [] = pure tt
  print_all (v ∷ vs) = say (text v ∷ []) >> print_all vs

  pub print_subjects : List Bytes → Exec (State W F) (Unit {0})
  print_subjects subjs = do rule; say (lit "Subjects" ∷ []); rule; print_all subjs; rule

module _ (W : Type 0) (f : Fusekit) where
  -- Each predicate is added twice; the second directory is copied into `predicates_dirs`.
  predicate_dirs : f.Dir → List Bytes → List f.Dir → Exec (State W f.World) (List f.Dir)
  predicate_dirs dir [] dirs = pure dirs
  predicate_dirs dir (p ∷ ps) dirs = do
    on_fuse (f.add_directory dir (c_string p))
    d ← on_fuse (f.add_directory dir (c_string p))
    d' ← on_fuse (f.copy d)
    predicate_dirs dir ps (dirs ++ d' ∷ [])

  -- for (int i = 0; i < (int) predicates_dirs.size(); ++i): the first number is the rounds left
  object_files : ℕ → ℕ → List f.Dir → List Bytes → Exec (State W f.World) (Unit {0})
  object_files zero i dirs objs = pure tt
  object_files (suc n) i dirs objs = do
    d ← lift (at dirs i)
    o ← lift (at objs i)
    on_fuse (f.add_file d (c_string o) o)
    object_files n (i + 1) dirs objs

  predicate_files : f.Dir → List Bytes → Exec (State W f.World) (Unit {0})
  predicate_files dir [] = pure tt
  predicate_files dir (p ∷ ps) = do
    say (text p ∷ [])
    on_fuse (f.add_file dir (c_string p) p)
    predicate_files dir ps

  -- objects --> p1_d, p2_d, p3_d …
  object_dirs : f.Dir → List Bytes → Exec (State W f.World) (Unit {0})
  object_dirs dir [] = pure tt
  object_dirs dir (p ∷ ps) = on_fuse (f.add_directory dir (c_string p)) >> object_dirs dir ps

  -- subjects --> p1_d, p2_d, p3_d … --> o1_f, o2_f, o3_f …
  pub fill_subjects : f.Dir → List Bytes → List Bytes → Exec (State W f.World) (Unit {0})
  fill_subjects subjects_dir preds objs = do
    dirs ← predicate_dirs subjects_dir preds []
    say (lit "predicates_dirs size: " ∷ number (length dirs) ∷ [])
    object_files (length dirs) 0 dirs objs

  -- predicates --> p1_f, p2_f, p3_f …
  pub fill_predicates : f.Dir → List Bytes → Exec (State W f.World) (Unit {0})
  fill_predicates predicates_dir preds = do
    say (lit "Predicates" ∷ [])
    rule
    predicate_files predicates_dir preds
    rule

  pub fill_objects : f.Dir → List Bytes → List Bytes → Exec (State W f.World) (Unit {0})
  fill_objects objects_dir preds objs = do
    say (lit "Objects" ∷ [])
    rule
    print_all objs
    rule
    object_dirs objects_dir preds

  -- From the first directory to "VFS created!".
  pub build_tree : Exec (State W f.World) (Unit {0})
  build_tree = do
    say (lit "Creating test VFS ... " ∷ [])
    objects_dir ← on_fuse (f.add_directory f.root (codes "objects"))
    subjects_dir ← on_fuse (f.add_directory f.root (codes "subjects"))
    predicates_dir ← on_fuse (f.add_directory f.root (codes "predicates"))
    subjs ← gets (λ s. s.subj_vector)
    preds ← gets (λ s. s.pred_vector)
    objs ← gets (λ s. s.obj_vector)
    print_subjects subjs
    fill_subjects subjects_dir preds objs
    fill_predicates predicates_dir preds
    fill_objects objects_dir preds objs
    say (lit "VFS created!" ∷ [])

-- There is no try block here: what `build_tree` throws leaves the function.
pub create_db_vfs : (b : Bdb) (f : Fusekit) → List Bytes → Exec (State b.World f.World) ℤ
create_db_vfs b f argv = do build_tree b.World f; close_db b; on_fuse (f.run argv)
