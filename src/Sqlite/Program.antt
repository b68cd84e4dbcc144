-- ===== src/Sqlite/Program.antt =====
-- sib_fs_mapping/sqlite/main.cpp: the triples of the file X are made into a file system.
pub mod Loops
pub mod Plain
use m3sec.Common.{ℕ, ℤ, List, Bytes, codes}
use m3sec.Common.Exec.{Exec, gets, ◌>>=◌, ◌>>◌}
use m3sec.Fusekit.{Fusekit}
use m3sec.BdbVfs.{State, on_fuse}
use m3sec.BdbVfs.Vfs.{print_subjects, fill_subjects, fill_predicates, fill_objects}
use m3sec.Sqlite.{Sqlite3, new_db, get_all_triples_text}

-- The directories and files of main.cpp, from line 33 on.
unfoldable build : (W : Type 0) (f : Fusekit) → Exec (State W f.World) (Unit {0})
build W f = do
  objects_dir ← on_fuse (f.add_directory f.root (codes "objects"))
  subjects_dir ← on_fuse (f.add_directory f.root (codes "subjects"))
  predicates_dir ← on_fuse (f.add_directory f.root (codes "predicates"))
  subjs ← gets (λ s. s.subj_vector)
  preds ← gets (λ s. s.pred_vector)
  objs ← gets (λ s. s.obj_vector)
  print_subjects subjs
  fill_subjects W f subjects_dir preds objs
  fill_predicates W f predicates_dir preds
  fill_objects W f objects_dir preds objs

-- main
pub main_sqlite : (q : Sqlite3) (f : Fusekit) → ℕ → List Bytes → Exec (State q.World f.World) ℤ
main_sqlite q f fuel argv = do
  new_db q (codes "X")
  get_all_triples_text q fuel
  build q.World f
  on_fuse (f.run argv)
