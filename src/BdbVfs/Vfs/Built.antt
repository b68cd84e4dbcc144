-- ===== src/BdbVfs/Vfs/Built.antt =====
-- The loops of the tree make their calls in order: one directory or file for each text.
use m3sec.Common.{
  ℕ, suc, ◌+◌, ◌≤◌, List, [], ◌∷◌, ◌++◌, map, append_assoc, append-nil, Bytes, c_string, ◌≡◌, refl,
  sym, ap, ◌∙◌, arith, length, length-append,
}
use mathlib.Core.Path.{subst}
use m3sec.Common.Exec.{ok}
use m3sec.Fusekit.{Fusekit}
use m3sec.BdbVfs.Vfs.{
  at, rule, print_all, print_subjects, predicate_dirs, object_files, predicate_files, object_dirs,
  fill_subjects, fill_predicates, fill_objects,
}
use m3sec.BdbVfs.Vfs.Calls.{
  Builds, directories, doubled, named_files, one_each, Makes, Makes-then, pure-Makes, lift-Makes,
  say-Makes, add_directory-Makes, add_file-Makes, copy-Makes,
}

at-here : {A : Type 0} (pre : List A) (x : A) (v : List A) → at (pre ++ x ∷ v) (length pre) ≡ ok x
unfolding at
at-here [] x v = refl
at-here (y ∷ pre) x v = at-here pre x v

at_split :
    {A : Type 0} (v : List A) (i : ℕ) (pre : List A) (x : A) (rest : List A)
    → v ≡ pre ++ x ∷ rest
    → i ≡ length pre
    → at v i ≡ ok x
at_split v i pre x rest e k =
    ap (λ u. at u i) e ∙ (ap (at (pre ++ x ∷ rest)) k ∙ at-here pre x rest)

one_further :
    {A : Type 0} (i : ℕ) (pre : List A) (x : A) → i ≡ length pre → i + 1 ≡ length (pre ++ x ∷ [])
one_further i pre x k = omega (arith, k, length-append pre (x ∷ []))

module _ (W : Type 0) (f : Fusekit) (b : Builds f) (ss ps os : List Bytes) where
  rule-Makes : Makes W f b ss ps os rule tt []
  unfolding rule
  rule-Makes = say-Makes W f b ss ps os _

  print_all-Makes : (vs : List Bytes) → Makes W f b ss ps os (print_all vs) tt []
  unfolding print_all
  print_all-Makes [] = pure-Makes W f b ss ps os tt
  print_all-Makes (v ∷ vs) =
      Makes-then W f b ss ps os _ _ (say-Makes W f b ss ps os _) (print_all-Makes vs)

  pub print_subjects-Makes : (vs : List Bytes) → Makes W f b ss ps os (print_subjects vs) tt []
  unfolding print_subjects
  print_subjects-Makes vs = Makes-then W f b ss ps os _ _ rule-Makes (
      Makes-then W f b ss ps os _ _ (say-Makes W f b ss ps os _) (
        Makes-then W f b ss ps os _ _ rule-Makes
          (Makes-then W f b ss ps os _ _ (print_all-Makes vs) rule-Makes)))

  -- The directories that `fill_subjects` goes on with.
  abbrev pub copies : f.Dir → List Bytes → List f.Dir
  copies dir = map λ q. b.copied (b.below dir (c_string q))

  predicate_dirs-Makes :
      (dir : f.Dir) (qs : List Bytes) (dirs : List f.Dir)
      → Makes W f b ss ps os
          (predicate_dirs W f dir qs dirs)
          (dirs ++ copies dir qs)
          (doubled dir qs)
  unfolding predicate_dirs
  predicate_dirs-Makes dir [] dirs = rw (append-nil dirs) (pure-Makes W f b ss ps os dirs)
  predicate_dirs-Makes dir (q ∷ qs) dirs =
      Makes-then W f b ss ps os _ _ (add_directory-Makes W f b ss ps os dir _) (
        Makes-then W f b ss ps os _ _ (add_directory-Makes W f b ss ps os dir _) (
          Makes-then W f b ss ps os _ _ (copy-Makes W f b ss ps os _) (
            subst
              (λ r.
                Makes W f b ss ps os
                  (predicate_dirs W f dir qs (dirs ++ b.copied (b.below dir (c_string q)) ∷ [])) r
                  (doubled dir qs))
              (append_assoc dirs (b.copied (b.below dir (c_string q)) ∷ []) (copies dir qs))
              (predicate_dirs-Makes dir qs (dirs ++ b.copied (b.below dir (c_string q)) ∷ [])))))

  -- `pre` and `gone` are what the loop has used.
  object_files-Makes :
      (ds : List f.Dir) (us : List Bytes) (pre : List f.Dir) (gone : List Bytes) (i : ℕ)
      (dirs : List f.Dir) (objs : List Bytes)
      → dirs ≡ pre ++ ds
      → objs ≡ gone ++ us
      → i ≡ length pre
      → i ≡ length gone
      → length ds ≤ length us
      → Makes W f b ss ps os (object_files W f (length ds) i dirs objs) tt (one_each ds us)
  unfolding object_files
  object_files-Makes [] us pre gone i dirs objs ed eo ki kj fits = pure-Makes W f b ss ps os tt
  object_files-Makes (d ∷ ds) [] pre gone i dirs objs ed eo ki kj fits = absurd (omega arith)
  object_files-Makes (d ∷ ds) (u ∷ us) pre gone i dirs objs ed eo ki kj fits =
      Makes-then W f b ss ps os _ _ (lift-Makes W f b ss ps os _ d (at_split dirs i pre d ds ed ki))
        (Makes-then W f b ss ps os _ _
          (lift-Makes W f b ss ps os _ u (at_split objs i gone u us eo kj))
          (Makes-then W f b ss ps os _ _ (add_file-Makes W f b ss ps os d _ u) (
            object_files-Makes ds us (pre ++ d ∷ []) (gone ++ u ∷ []) (i + 1) dirs objs
              (ed ∙ sym (append_assoc pre (d ∷ []) ds)) (eo ∙ sym (append_assoc gone (u ∷ []) us))
              (one_further i pre d ki) (one_further i gone u kj) (omega arith))))

  predicate_files-Makes :
      (dir : f.Dir) (qs : List Bytes)
      → Makes W f b ss ps os (predicate_files W f dir qs) tt (named_files dir qs)
  unfolding predicate_files
  predicate_files-Makes dir [] = pure-Makes W f b ss ps os tt
  predicate_files-Makes dir (q ∷ qs) = Makes-then W f b ss ps os _ _ (say-Makes W f b ss ps os _) (
      Makes-then W f b ss ps os _ _ (add_file-Makes W f b ss ps os dir _ q)
        (predicate_files-Makes dir qs))

  object_dirs-Makes :
      (dir : f.Dir) (qs : List Bytes)
      → Makes W f b ss ps os (object_dirs W f dir qs) tt (directories dir qs)
  unfolding object_dirs
  object_dirs-Makes dir [] = pure-Makes W f b ss ps os tt
  object_dirs-Makes dir (q ∷ qs) =
      Makes-then W f b ss ps os _ _ (add_directory-Makes W f b ss ps os dir _)
        (object_dirs-Makes dir qs)

  length-copies : (dir : f.Dir) (qs : List Bytes) → length (copies dir qs) ≡ length qs
  length-copies dir [] = refl
  length-copies dir (q ∷ qs) = ap suc (length-copies dir qs)

  pub fill_subjects-Makes :
      (dir : f.Dir) (preds objs : List Bytes)
      → length preds ≤ length objs
      → Makes W f b ss ps os
          (fill_subjects W f dir preds objs)
          tt
          (doubled dir preds ++ one_each (copies dir preds) objs)
  unfolding fill_subjects
  fill_subjects-Makes dir preds objs fits =
      Makes-then W f b ss ps os _ _ (predicate_dirs-Makes dir preds []) (
        Makes-then W f b ss ps os _ _ (say-Makes W f b ss ps os _) (
          object_files-Makes (copies dir preds) objs [] [] 0 (copies dir preds) objs refl refl refl
            refl (omega (arith, fits, length-copies dir preds))))

  pub fill_predicates-Makes :
      (dir : f.Dir) (preds : List Bytes)
      → Makes W f b ss ps os (fill_predicates W f dir preds) tt (named_files dir preds)
  unfolding fill_predicates
  fill_predicates-Makes dir preds = Makes-then W f b ss ps os _ _ (say-Makes W f b ss ps os _) (
      Makes-then W f b ss ps os _ _ rule-Makes (
        rw (sym (append-nil (named_files dir preds)))
          (Makes-then W f b ss ps os _ _ (predicate_files-Makes dir preds) rule-Makes)))

  pub fill_objects-Makes :
      (dir : f.Dir) (preds objs : List Bytes)
      → Makes W f b ss ps os (fill_objects W f dir preds objs) tt (directories dir preds)
  unfolding fill_objects
  fill_objects-Makes dir preds objs = Makes-then W f b ss ps os _ _ (say-Makes W f b ss ps os _) (
      Makes-then W f b ss ps os _ _ rule-Makes (
        Makes-then W f b ss ps os _ _ (print_all-Makes objs)
          (Makes-then W f b ss ps os _ _ rule-Makes (object_dirs-Makes dir preds))))
