-- ===== src/BdbVfs/Vfs/Frame.antt =====
-- The building of the tree only prints and calls fusekit.
use m3sec.Common.{ℕ, zero, suc, ◌+◌, List, [], ◌∷◌, ◌++◌, Bytes}
use m3sec.Common.Exec.{Exec}
use m3sec.Common.Exec.Keeps.{Keeps, Keeps-bind, Keeps-lift, keeps_rules}
use m3sec.Console.{Chunk}
use m3sec.Fusekit.{Fusekit}
use m3sec.BdbVfs.{State, say, on_fuse}
use m3sec.BdbVfs.Vfs.{
  rule, print_all, print_subjects, predicate_dirs, object_files, predicate_files, object_dirs,
  fill_subjects, fill_predicates, fill_objects, build_tree,
}

-- An invariant that printing and the calls of fusekit keep.
module _ (W : Type 0) (f : Fusekit) (Inv : State W f.World → Type 0)
    (say-Keeps : (l : List Chunk) → Keeps Inv (say l))
    (on_fuse-Keeps : (A : Type 0) (m : Exec f.World A) → Keeps Inv (on_fuse m)) where
  rule-Keeps : Keeps Inv rule
  unfolding rule
  rule-Keeps = search (keeps_rules, say-Keeps)

  print_all-Keeps : (vs : List Bytes) → Keeps Inv (print_all vs)
  unfolding print_all
  print_all-Keeps [] = search keeps_rules
  print_all-Keeps (v ∷ vs) = Keeps-bind _ _ (say-Keeps _) λ _. print_all-Keeps vs

  print_subjects-Keeps : (vs : List Bytes) → Keeps Inv (print_subjects vs)
  unfolding print_subjects
  print_subjects-Keeps vs = search (keeps_rules, say-Keeps, rule-Keeps, print_all-Keeps) depth 8

  predicate_dirs-Keeps :
      (dir : f.Dir) (ps : List Bytes) (dirs : List f.Dir)
      → Keeps Inv (predicate_dirs W f dir ps dirs)
  unfolding predicate_dirs
  predicate_dirs-Keeps dir [] dirs = search keeps_rules
  predicate_dirs-Keeps dir (p ∷ ps) dirs =
      search
        (keeps_rules, on_fuse-Keeps, λ (d : f.Dir). predicate_dirs-Keeps dir ps (dirs ++ d ∷ []))

  object_files-Keeps :
      (n i : ℕ) (dirs : List f.Dir) (objs : List Bytes) → Keeps Inv (object_files W f n i dirs objs)
  unfolding object_files
  object_files-Keeps zero i dirs objs = search keeps_rules
  object_files-Keeps (suc n) i dirs objs = Keeps-bind _ _ (Keeps-lift _) λ _.
      Keeps-bind _ _ (Keeps-lift _)
        λ _. Keeps-bind _ _ (on_fuse-Keeps _ _) λ _. object_files-Keeps n (i + 1) dirs objs

  predicate_files-Keeps : (dir : f.Dir) (ps : List Bytes) → Keeps Inv (predicate_files W f dir ps)
  unfolding predicate_files
  predicate_files-Keeps dir [] = search keeps_rules
  predicate_files-Keeps dir (p ∷ ps) =
      Keeps-bind _ _ (say-Keeps _)
        λ _. Keeps-bind _ _ (on_fuse-Keeps _ _) λ _. predicate_files-Keeps dir ps

  object_dirs-Keeps : (dir : f.Dir) (ps : List Bytes) → Keeps Inv (object_dirs W f dir ps)
  unfolding object_dirs
  object_dirs-Keeps dir [] = search keeps_rules
  object_dirs-Keeps dir (p ∷ ps) = Keeps-bind _ _ (on_fuse-Keeps _ _) λ _. object_dirs-Keeps dir ps

  fill_subjects-Keeps : (dir : f.Dir) (ps os : List Bytes) → Keeps Inv (fill_subjects W f dir ps os)
  unfolding fill_subjects
  fill_subjects-Keeps dir ps os =
      search (keeps_rules, say-Keeps, predicate_dirs-Keeps, object_files-Keeps)

  fill_predicates-Keeps : (dir : f.Dir) (ps : List Bytes) → Keeps Inv (fill_predicates W f dir ps)
  unfolding fill_predicates
  fill_predicates-Keeps dir ps = search (keeps_rules, say-Keeps, rule-Keeps, predicate_files-Keeps)

  fill_objects-Keeps : (dir : f.Dir) (ps os : List Bytes) → Keeps Inv (fill_objects W f dir ps os)
  unfolding fill_objects
  fill_objects-Keeps dir ps os =
      search (keeps_rules, say-Keeps, rule-Keeps, print_all-Keeps, object_dirs-Keeps) depth 8

  pub build_tree-Keeps : Keeps Inv (build_tree W f)
  unfolding build_tree
  build_tree-Keeps =
      search
        (
          keeps_rules, say-Keeps, on_fuse-Keeps, print_subjects-Keeps, fill_subjects-Keeps,
          fill_predicates-Keeps, fill_objects-Keeps,
        )
        depth 16
