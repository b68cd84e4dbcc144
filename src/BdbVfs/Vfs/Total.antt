-- ===== src/BdbVfs/Vfs/Total.antt =====
-- With equally long vectors, and a fusekit that answers, `createDbVfs` returns: `obj_vector.at(i)`
-- is in range in every round.
pub mod Short
use m3sec.Common.{
  ℕ, zero, suc, ◌+◌, ◌≤◌, ℤ, List, [], ◌∷◌, ◌++◌, Bytes, ◌≡◌, refl, ap, inl, inr, pos, minus_one,
  arith, length, length-append,
}
use m3sec.Common.Exec.{Outcome, ok, gets, ◌>>=◌}
use m3sec.Common.Exec.Ensures.{Ensures, Ensures-bind, Ensures-pure, Ensures-lift, Ensures-assume}
use m3sec.Console.{Chunk}
use m3sec.Bdb.{Bdb, Responds}
use m3sec.Fusekit.{Fusekit}
use m3sec.BdbVfs.{State, say, on_fuse, close_db}
use m3sec.BdbVfs.Reports.{Reported, close_db-Reported}
use m3sec.BdbVfs.Aligned.{IsAligned}
use m3sec.BdbVfs.Vfs.{
  at, rule, print_all, print_subjects, predicate_dirs, object_files, predicate_files, object_dirs,
  fill_subjects, fill_predicates, fill_objects, build_tree, create_db_vfs,
}

-- Every call of fusekit returns.
pub record Answers (f : Fusekit) : Type 0 where
  pub add_directory :
      (d : f.Dir) (n : Bytes) (w : f.World) → (d' : f.Dir) × ((f.add_directory d n w).0 ≡ ok d')
  pub add_file : (d : f.Dir) (n c : Bytes) (w : f.World) → (f.add_file d n c w).0 ≡ ok tt
  pub copy : (d : f.Dir) (w : f.World) → (d' : f.Dir) × ((f.copy d w).0 ≡ ok d')
  pub run : (argv : List Bytes) (w : f.World) → (c : ℤ) × ((f.run argv w).0 ≡ ok c)

-- `at` returns below the size.
at-lt : {A : Type 0} (v : List A) (i : ℕ) → suc i ≤ length v → (a : A) × (at v i ≡ ok a)
unfolding at
at-lt [] i h = absurd (omega arith)
at-lt (x ∷ v) zero h = (x, refl)
at-lt (x ∷ v) (suc i) h = at-lt v i (omega arith)

module _ (W : Type 0) (f : Fusekit) (answers : Answers f) (ps os : List Bytes) where
  -- The vectors that the tree is built from.
  abbrev pub Rows : State W f.World → Type 0
  Rows s = (s.pred_vector ≡ ps) × (s.obj_vector ≡ os)

  say-Rows : (l : List Chunk) → Ensures Rows (say l) (λ _. Rows)
  unfolding say ◌>>=◌
  say-Rows l = record { at = λ s h. (tt, refl, h) }

  pub add_directory-Rows :
      (d : f.Dir) (n : Bytes) → Ensures Rows (on_fuse (f.add_directory d n)) (λ _. Rows)
  unfolding on_fuse ◌>>=◌
  add_directory-Rows d n = record {
    at = λ s h. let (d', e) = answers.add_directory d n s.fuse in (d', e, h);
  }

  add_file-Rows : (d : f.Dir) (n c : Bytes) → Ensures Rows (on_fuse (f.add_file d n c)) (λ _. Rows)
  unfolding on_fuse ◌>>=◌
  add_file-Rows d n c = record { at = λ s h. (tt, answers.add_file d n c s.fuse, h) }

  copy-Rows : (d : f.Dir) → Ensures Rows (on_fuse (f.copy d)) (λ _. Rows)
  unfolding on_fuse ◌>>=◌
  copy-Rows d = record { at = λ s h. let (d', e) = answers.copy d s.fuse in (d', e, h) }

  pub get_subjs : Ensures Rows (gets (λ s. s.subj_vector)) (λ _. Rows)
  unfolding ◌>>=◌
  get_subjs = record { at = λ s h. (s.subj_vector, refl, h) }

  pub get_preds :
      Ensures Rows
        (gets (λ s. s.pred_vector))
        (λ v s. (v ≡ ps) × ((s.pred_vector ≡ ps) × (s.obj_vector ≡ os)))
  unfolding ◌>>=◌
  get_preds = record { at = λ s h. (s.pred_vector, refl, (h.0, h)) }

  pub get_objs :
      Ensures Rows
        (gets (λ s. s.obj_vector))
        (λ v s. (v ≡ os) × ((s.pred_vector ≡ ps) × (s.obj_vector ≡ os)))
  unfolding ◌>>=◌
  get_objs = record { at = λ s h. (s.obj_vector, refl, (h.1, h)) }

  rule-Rows : Ensures Rows rule (λ _. Rows)
  unfolding rule
  rule-Rows = say-Rows _

  print_all-Rows : (vs : List Bytes) → Ensures Rows (print_all vs) (λ _. Rows)
  unfolding print_all
  print_all-Rows [] = Ensures-pure tt
  print_all-Rows (v ∷ vs) = Ensures-bind _ _ (say-Rows _) λ _. print_all-Rows vs

  -- One directory for each predicate.
  abbrev Sized : ℕ → List f.Dir → State W f.World → Type 0
  Sized n ds s = (length ds ≡ n) × Rows s

  predicate_dirs-Rows :
      (dir : f.Dir) (qs : List Bytes) (dirs : List f.Dir) (n : ℕ)
      → length dirs + length qs ≡ n
      → Ensures Rows (predicate_dirs W f dir qs dirs) (Sized n)
  unfolding predicate_dirs
  predicate_dirs-Rows dir [] dirs n e = record {
    at = λ s h. unfold ◌>>=◌ in (dirs, refl, (omega arith, h));
  }
  predicate_dirs-Rows dir (q ∷ qs) dirs n e = Ensures-bind _ _ (add_directory-Rows dir _) λ _.
      Ensures-bind _ _ (add_directory-Rows dir _) λ d. Ensures-bind _ _ (copy-Rows d) λ d'.
        predicate_dirs-Rows dir qs (dirs ++ d' ∷ []) n
          (omega (arith, e, length-append dirs (d' ∷ [])))

  object_files-Rows :
      (n i : ℕ) (dirs : List f.Dir) (objs : List Bytes)
      → i + n ≤ length dirs
      → i + n ≤ length objs
      → Ensures Rows (object_files W f n i dirs objs) (λ _. Rows)
  unfolding object_files
  object_files-Rows zero i dirs objs h k = Ensures-pure tt
  object_files-Rows (suc n) i dirs objs h k =
      let (d, ed) = at-lt dirs i (omega arith) in
      let (o, eo) = at-lt objs i (omega arith) in
      Ensures-bind _ _ (Ensures-lift {Q = λ _. Rows} (at dirs i) d ed (λ s p. p)) λ d'.
        Ensures-bind _ _ (Ensures-lift {Q = λ _. Rows} (at objs i) o eo (λ s p. p)) λ o'.
          Ensures-bind _ _ (add_file-Rows d' _ o')
            λ _. object_files-Rows n (i + 1) dirs objs (omega arith) (omega arith)

  predicate_files-Rows :
      (dir : f.Dir) (qs : List Bytes) → Ensures Rows (predicate_files W f dir qs) (λ _. Rows)
  unfolding predicate_files
  predicate_files-Rows dir [] = Ensures-pure tt
  predicate_files-Rows dir (q ∷ qs) =
      Ensures-bind _ _ (say-Rows _)
        λ _. Ensures-bind _ _ (add_file-Rows dir _ q) λ _. predicate_files-Rows dir qs

  object_dirs-Rows :
      (dir : f.Dir) (qs : List Bytes) → Ensures Rows (object_dirs W f dir qs) (λ _. Rows)
  unfolding object_dirs
  object_dirs-Rows dir [] = Ensures-pure tt
  object_dirs-Rows dir (q ∷ qs) =
      Ensures-bind _ _ (add_directory-Rows dir _) λ _. object_dirs-Rows dir qs

  pub print_subjects-Rows : (vs : List Bytes) → Ensures Rows (print_subjects vs) (λ _. Rows)
  unfolding print_subjects
  print_subjects-Rows vs = Ensures-bind _ _ rule-Rows λ _.
      Ensures-bind _ _ (say-Rows _)
        λ _. Ensures-bind _ _ rule-Rows λ _. Ensures-bind _ _ (print_all-Rows vs) λ _. rule-Rows

  pub fill_subjects-Rows :
      (dir : f.Dir) (preds objs : List Bytes)
      → length preds ≤ length objs
      → Ensures Rows (fill_subjects W f dir preds objs) (λ _. Rows)
  unfolding fill_subjects
  fill_subjects-Rows dir preds objs fits =
      Ensures-bind _ _ (predicate_dirs-Rows dir preds [] (length preds) (omega arith)) λ dirs.
        Ensures-assume _ λ e.
          Ensures-bind _ _ (say-Rows _)
            λ _. object_files-Rows (length dirs) 0 dirs objs (omega arith) (omega (arith, e))

  pub fill_predicates-Rows :
      (dir : f.Dir) (preds : List Bytes) → Ensures Rows (fill_predicates W f dir preds) (λ _. Rows)
  unfolding fill_predicates
  fill_predicates-Rows dir preds = Ensures-bind _ _ (say-Rows _) λ _.
      Ensures-bind _ _ rule-Rows
        λ _. Ensures-bind _ _ (predicate_files-Rows dir preds) λ _. rule-Rows

  pub fill_objects-Rows :
      (dir : f.Dir) (preds objs : List Bytes)
      → Ensures Rows (fill_objects W f dir preds objs) (λ _. Rows)
  unfolding fill_objects
  fill_objects-Rows dir preds objs = Ensures-bind _ _ (say-Rows _) λ _.
      Ensures-bind _ _ rule-Rows λ _.
        Ensures-bind _ _ (print_all-Rows objs)
          λ _. Ensures-bind _ _ rule-Rows λ _. object_dirs-Rows dir preds

  pub build_tree-Rows : length ps ≤ length os → Ensures Rows (build_tree W f) (λ _. Rows)
  unfolding build_tree
  build_tree-Rows fits = Ensures-bind _ _ (say-Rows _) λ _.
      Ensures-bind _ _ (add_directory-Rows _ _) λ o. Ensures-bind _ _ (add_directory-Rows _ _) λ s.
        Ensures-bind _ _ (add_directory-Rows _ _) λ p. Ensures-bind _ _ get_subjs λ subjs.
          Ensures-bind _ _ get_preds λ preds. Ensures-assume _ λ ep.
            Ensures-bind _ _ get_objs λ objs. Ensures-assume _ λ eo.
              Ensures-bind _ _ (print_subjects-Rows subjs) λ _.
                Ensures-bind _ _
                  (fill_subjects-Rows s preds objs
                    (omega (arith, fits, ap (length {A = Bytes}) ep, ap (length {A = Bytes}) eo)))
                  λ _.
                    Ensures-bind _ _ (fill_predicates-Rows p preds)
                      λ _. Ensures-bind _ _ (fill_objects-Rows o preds objs) λ _. say-Rows _

module _ (b : Bdb) (f : Fusekit) (responds : Responds b) (answers : Answers f) where
  returned :
      {c : List Chunk} (r : Outcome ℤ × State b.World f.World)
      → Reported c r
      → (x : ℤ) × (r.0 ≡ ok x) × Unit {0}
  returned r (inl (e, _)) = (pos 0, e, tt)
  returned r (inr (_, e, _)) = (minus_one, e, tt)

  close_db-Ensures :
      {P : State b.World f.World → Type 0} → Ensures P (close_db b {F = f.World}) (λ _ _. Unit)
  close_db-Ensures = record { at = λ s _. returned (close_db b s) (close_db-Reported b responds s) }

  -- `c` is what the daemon returned, in the world in which it was started.
  abbrev pub FromDaemon : List Bytes → ℤ → Type 0
  FromDaemon argv c = (v : f.World) × ((f.run argv v).0 ≡ ok c)

  run-Ensures :
      (argv : List Bytes)
      → Ensures (λ _. Unit) (on_fuse {W = b.World} (f.run argv)) (λ c _. FromDaemon argv c)
  unfolding on_fuse ◌>>=◌
  run-Ensures argv = record {
    at = λ s _. let (c, e) = answers.run argv s.fuse in (c, e, (s.fuse, e));
  }

  -- From a state with equally long vectors `createDbVfs` returns the result of the daemon, if the
  -- calls of fusekit return and those of Berkeley DB return or throw: no `at` throws.
  pub create_db_vfs_returns :
      (argv : List Bytes) (s : State b.World f.World)
      → IsAligned s
      → (c : ℤ) × ((create_db_vfs b f argv s).0 ≡ ok c) × FromDaemon argv c
  unfolding create_db_vfs
  create_db_vfs_returns argv s aligned =
      let tree = build_tree-Rows b.World f answers s.pred_vector s.obj_vector (omega arith) in
      (Ensures-bind _ _ tree λ _. Ensures-bind _ _ close_db-Ensures λ _. run-Ensures argv).at s
        (refl, refl)
