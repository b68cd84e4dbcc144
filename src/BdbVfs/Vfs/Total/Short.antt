-- ===== src/BdbVfs/Vfs/Total/Short.antt =====
-- With fewer objects than predicates, the loop over the directories asks for an object that is not
-- there.
use m3sec.Common.{
  ℕ, zero, suc, ◌+◌, ◌≤◌, ◌<◌, inl, inr, le_or_lt, List, [], ◌∷◌, Bytes, ◌≡◌, refl, arith, length,
}
use m3sec.Common.Exec.{throw, out_of_range}
use m3sec.Common.Exec.Ensures.{Ensures-lift}
use m3sec.Common.Exec.Throws.{Throws, Throws-lift, Throws-assume, Throws-first, Throws-then}
use m3sec.Fusekit.{Fusekit}
use m3sec.BdbVfs.Vfs.{at, object_files, fill_subjects}
use m3sec.BdbVfs.Vfs.Total.{Answers, Rows, at-lt, say-Rows, add_file-Rows, predicate_dirs-Rows}

at-throws : {A : Type 0} (v : List A) (i : ℕ) → length v ≤ i → at v i ≡ throw out_of_range
unfolding at
at-throws [] i h = refl
at-throws (x ∷ v) zero h = absurd (omega arith)
at-throws (x ∷ v) (suc i) h = at-throws v i (omega arith)

module _ (W : Type 0) (f : Fusekit) (answers : Answers f) (ps os : List Bytes) where
  object_files-Throws :
      (n i : ℕ) (dirs : List f.Dir) (objs : List Bytes)
      → i + n ≤ length dirs
      → i ≤ length objs
      → length objs < i + n
      → Throws (Rows W f answers ps os) (object_files W f n i dirs objs) out_of_range
  unfolding object_files
  object_files-Throws zero i dirs objs h le k = absurd (omega arith)
  object_files-Throws (suc n) i dirs objs h le k =
      let (d, ed) = at-lt dirs i (omega arith) in
      Throws-then _ _ _ (Ensures-lift {Q = λ _. Rows W f answers ps os} (at dirs i) d ed (λ s p. p))
        λ d'. elim (le_or_lt (length objs) i) [
          | inl short ↦ Throws-first _ _ _ (Throws-lift (at objs i) _ (at-throws objs i short))
          | inr lt ↦
              let (o, eo) = at-lt objs i (omega arith) in
              Throws-then _ _ _
                (Ensures-lift {Q = λ _. Rows W f answers ps os} (at objs i) o eo (λ s p. p))
                λ o'. Throws-then _ _ _ (add_file-Rows W f answers ps os d' _ o') λ _.
                  object_files-Throws n (i + 1) dirs objs (omega arith) (omega arith) (omega arith)
        ]

  pub fill_subjects-Throws :
      (dir : f.Dir) (preds objs : List Bytes)
      → length objs < length preds
      → Throws (Rows W f answers ps os) (fill_subjects W f dir preds objs) out_of_range
  unfolding fill_subjects
  fill_subjects-Throws dir preds objs short =
      Throws-then _ _ _
        (predicate_dirs-Rows W f answers ps os dir preds [] (length preds) (omega arith))
        λ dirs. Throws-assume _ _ λ e. Throws-then _ _ _ (say-Rows W f answers ps os _) λ _.
          object_files-Throws (length dirs) 0 dirs objs (omega arith) (omega arith)
            (omega (arith, e))
