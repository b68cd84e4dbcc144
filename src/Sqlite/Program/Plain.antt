-- ===== src/Sqlite/Program/Plain.antt =====
-- With plain triples main.cpp builds the file system and starts the daemon.
use m3sec.Common.{
  ℕ, ◌≤◌, ◌<◌, ℤ, List, [], ◌∷◌, ◌++◌, map, Bytes, codes, c_string, ◌≡◌, refl, ap, arith, length,
  All,
}
use m3sec.Common.Exec.{ok, ◌>>=◌}
use m3sec.Common.Exec.Ensures.{Ensures, Ensures-bind, Ensures-mono}
use m3sec.Fusekit.{Fusekit}
use m3sec.BdbVfs.{State, on_fuse}
use m3sec.BdbVfs.Vfs.Calls.{
  Call, directory, Builds, directories, doubled, named_files, one_each, Holds, Makes, Makes-then,
  gets-Makes, add_directory-Makes,
}
use m3sec.BdbVfs.Vfs.Built.{
  print_subjects-Makes, fill_subjects-Makes, fill_predicates-Makes, fill_objects-Makes,
}
use m3sec.Sqlite.{Sqlite3, new_db, open_database}
use m3sec.Sqlite.Classify.{
  Triple, Node, triple_row, node_row, is_subject, is_predicate, is_object, gathered,
}
use m3sec.Sqlite.Queries.{Yields, get_all_triples_text_lem}
use m3sec.Sqlite.Shapes.{IsPlain, length-gathered, All-mono, one_predicate, one_object}
use m3sec.Sqlite.Program.{build, main_sqlite}

-- The calls that make the tree of the predicates `ps` and the objects `os`: the three directories of
-- the root, each predicate twice below subjects, the i-th object as a file in the copy of the i-th
-- of those, the predicates as files, and the predicates as directories below objects.
abbrev pub tree : (f : Fusekit) → Builds f → List Bytes → List Bytes → List (Call f.Dir)
tree f b ps os =
    let subjects = b.below f.root (codes "subjects") in
    directory f.root (codes "objects")
    ∷ directory f.root (codes "subjects")
    ∷ directory f.root (codes "predicates")
    ∷ ((doubled subjects ps ++ one_each (map (λ q. b.copied (b.below subjects (c_string q))) ps) os)
        ++ (named_files (b.below f.root (codes "predicates")) ps
            ++ directories (b.below f.root (codes "objects")) ps))

-- The daemon was started after the calls `calls`, and `c` is what it returned.
abbrev pub Served : (f : Fusekit) → Builds f → List (Call f.Dir) → List Bytes → ℤ → Type 0
Served f b calls argv c = (v : f.World) × (b.made v ≡ calls) × ((f.run argv v).0 ≡ ok c)

module _ (W : Type 0) (f : Fusekit) (b : Builds f) (ss ps os : List Bytes) where
  build-Makes : length ps ≤ length os → Makes W f b ss ps os (build W f) tt (tree f b ps os)
  unfolding build
  build-Makes fits =
      Makes-then W f b ss ps os _ _ (add_directory-Makes W f b ss ps os f.root (codes "objects")) (
        Makes-then W f b ss ps os _ _ (add_directory-Makes W f b ss ps os f.root (codes "subjects"))
          (Makes-then W f b ss ps os _ _
            (add_directory-Makes W f b ss ps os f.root (codes "predicates"))
            (Makes-then W f b ss ps os _ _ (gets-Makes W f b ss ps os _ ss λ s v. v.0) (
              Makes-then W f b ss ps os _ _ (gets-Makes W f b ss ps os _ ps λ s v. v.1.0) (
                Makes-then W f b ss ps os _ _ (gets-Makes W f b ss ps os _ os λ s v. v.1.1) (
                  Makes-then W f b ss ps os _ _ (print_subjects-Makes W f b ss ps os ss) (
                    Makes-then W f b ss ps os _ _ (fill_subjects-Makes W f b ss ps os _ ps os fits)
                      (Makes-then W f b ss ps os _ _ (fill_predicates-Makes W f b ss ps os _ ps)
                        (fill_objects-Makes W f b ss ps os _ ps os)))))))))

  run-Ensures :
      (argv : List Bytes) (l : List (Call f.Dir))
      → Ensures
          (λ s. Holds W f b ss ps os l s)
          (on_fuse {W = W} (f.run argv))
          (λ c _. Served f b l argv c)
  unfolding on_fuse ◌>>=◌
  run-Ensures argv l = record {
    at = λ s h. let (c, e) = b.run_law argv s.fuse in (c, e, (s.fuse, h.1, e));
  }

  build_and_run :
      (argv : List Bytes) (l : List (Call f.Dir))
      → length ps ≤ length os
      → Ensures
          (Holds W f b ss ps os l)
          (build W f >>= λ _. on_fuse (f.run argv))
          (λ c _. Served f b (l ++ tree f b ps os) argv c)
  build_and_run argv l fits =
      Ensures-bind _ (λ _. on_fuse (f.run argv)) (build-Makes fits l)
        λ _. Ensures-mono _ (λ s h. h.1) (λ a s h. h) (run-Ensures argv (l ++ tree f b ps os))

module _ (q : Sqlite3) (f : Fusekit) (b : Builds f) where
  -- If the two queries give triples and nodes with no error, each triple has three different
  -- identifiers, each of one node, the vectors P and O of DB are empty at first, fusekit's calls
  -- return and make what they are asked for, and there is fuel for one round more than rows, then
  -- main makes just these, in order: the three directories of the root, below subjects a directory
  -- twice for the predicate of each triple, in the copy of each such directory the object of the
  -- triple as a file, the predicates as files below predicates, and the predicates as directories
  -- below objects; then it starts the daemon and returns what that returned.
  pub main_sqlite-plain :
      (fuel : ℕ) (argv : List Bytes) (ts : List Triple) (ns : List Node) (w1 w2 : q.World)
      (s : State q.World f.World)
      → s.pred_vector ≡ []
      → s.obj_vector ≡ []
      → Yields q
          (codes "SELECT * FROM triple;")
          (q.open_db (codes "X") s.db).1
          (map triple_row ts)
          w1
      → Yields q (codes "SELECT id, str FROM node;") w1 (map node_row ns) w2
      → length (map triple_row ts) < fuel
      → length (map node_row ns) < fuel
      → All (IsPlain ns) ts
      → (c : ℤ) × ((main_sqlite q f fuel argv s).0 ≡ ok c)
        × Served f b
            (b.made s.fuse ++ tree f b (gathered is_predicate ts ns) (gathered is_object ts ns))
            argv
            c
  unfolding main_sqlite new_db open_database ◌>>=◌
  main_sqlite-plain fuel argv ts ns w1 w2 s no_preds no_objs yt yn lt ln plain =
      let s1 = record s { db = (q.open_db (codes "X") s.db).1 } in
      let ps = gathered is_predicate ts ns in
      let os = gathered is_object ts ns in
      let ss = s.subj_vector ++ gathered is_subject ts ns in
      let fits : length ps ≤ length os = omega (
        arith,
        length-gathered is_predicate ts ns (All-mono ts (one_predicate ns) plain),
        length-gathered is_object ts ns (All-mono ts (one_object ns) plain),
      ) in
      let built = (build_and_run q.World f b ss ps os argv (b.made s.fuse) fits).at in
      rw (get_all_triples_text_lem q fuel ts ns w1 w2 s1 yt yn lt ln)
        (built _ ((refl, (ap (λ v. v ++ ps) no_preds, ap (λ v. v ++ os) no_objs)), refl))
