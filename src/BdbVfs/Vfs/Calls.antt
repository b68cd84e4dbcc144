-- ===== src/BdbVfs/Vfs/Calls.antt =====
-- The calls of fusekit that the tree of bdb_vfs.cpp and of sqlite/main.cpp is made by, in order.
use m3sec.Common.{
  ℤ, List, [], ◌∷◌, ◌++◌, map, append_assoc, append-nil, Bytes, c_string, ◌≡◌, refl, sym, ap, ◌∙◌,
}
use mathlib.Core.Path.{subst}
use m3sec.Common.Exec.{Outcome, Exec, ok, pure, gets, lift, ◌>>=◌}
use m3sec.Common.Exec.Ensures.{Ensures, Ensures-bind, Ensures-return, Ensures-lift}
use m3sec.Console.{Chunk}
use m3sec.Fusekit.{Fusekit}
use m3sec.BdbVfs.{State, say, on_fuse}

-- A directory that was added below another, or a file with its content.
pub data Call (D : Type 0) : Type 0 where
  directory : D → Bytes → Call D
  file : D → Bytes → Bytes → Call D

-- What the program relies on: the calls return, fusekit keeps what it was asked for in order, and a
-- directory is determined by the one above it and its name. Nothing is assumed of what a copy of a
-- directory shares with it.
pub record Builds (f : Fusekit) : Type 0 where
  pub made : f.World → List (Call f.Dir)
  pub below : f.Dir → Bytes → f.Dir
  pub copied : f.Dir → f.Dir
  pub add_directory_law :
      (d : f.Dir) (n : Bytes) (w : f.World)
      → ((f.add_directory d n w).0 ≡ ok (below d n))
        × (made (f.add_directory d n w).1 ≡ made w ++ directory d n ∷ [])
  pub add_file_law :
      (d : f.Dir) (n c : Bytes) (w : f.World)
      → ((f.add_file d n c w).0 ≡ ok tt) × (made (f.add_file d n c w).1 ≡ made w ++ file d n c ∷ [])
  pub copy_law :
      (d : f.Dir) (w : f.World) → ((f.copy d w).0 ≡ ok (copied d)) × (made (f.copy d w).1 ≡ made w)
  pub run_law : (argv : List Bytes) (w : f.World) → (c : ℤ) × ((f.run argv w).0 ≡ ok c)

-- One directory for each name, one that is added twice, and one file that holds its own name.
abbrev pub directories : {D : Type 0} → D → List Bytes → List (Call D)
directories dir = map λ q. directory dir (c_string q)

abbrev pub doubled : {D : Type 0} → D → List Bytes → List (Call D)
doubled dir [] = []
doubled dir (q ∷ qs) = directory dir (c_string q) ∷ directory dir (c_string q) ∷ doubled dir qs

abbrev pub named_files : {D : Type 0} → D → List Bytes → List (Call D)
named_files dir = map λ q. file dir (c_string q) q

-- The first file in the first directory, the second in the second, …
abbrev pub one_each : {D : Type 0} → List D → List Bytes → List (Call D)
one_each [] us = []
one_each (d ∷ ds) [] = []
one_each (d ∷ ds) (u ∷ us) = file d (c_string u) u ∷ one_each ds us

module _ (W : Type 0) (f : Fusekit) (b : Builds f) (ss ps os : List Bytes) where
  abbrev Vectors : State W f.World → Type 0
  Vectors s = (s.subj_vector ≡ ss) × ((s.pred_vector ≡ ps) × (s.obj_vector ≡ os))

  -- The vectors, and the calls that were made.
  abbrev pub Holds : List (Call f.Dir) → State W f.World → Type 0
  Holds l s = Vectors s × (b.made s.fuse ≡ l)

  -- The action returns `a` and makes the calls `xs`.
  abbrev pub Makes : {A : Type 0} → Exec (State W f.World) A → A → List (Call f.Dir) → Type 0
  Makes m a xs =
      (l : List (Call f.Dir)) → Ensures (Holds l) m (λ a' s. (a' ≡ a) × Holds (l ++ xs) s)

  pub Makes-then :
      {A B : Type 0} (m : Exec (State W f.World) A) (k : A → Exec (State W f.World) B) {a : A}
      {c : B} {xs ys : List (Call f.Dir)}
      → Makes m a xs
      → Makes (k a) c ys
      → Makes (m >>= k) c (xs ++ ys)
  Makes-then m k {a} {c} {xs} {ys} hm hk l = Ensures-bind m k (hm l) λ a'. record {
    at = λ s p.
        let (c', e, (q, h)) = (hk (l ++ xs)).at s p.1 in
        subst (λ x. (c' : _) × ((k x s).0 ≡ ok c') × ((c' ≡ c) × Holds (l ++ (xs ++ ys)) (k x s).1))
          (sym p.0) (c', e, (q, (h.0, h.1 ∙ append_assoc l xs ys)));
  }

  pub pure-Makes : {A : Type 0} (a : A) → Makes (pure a) a []
  unfolding ◌>>=◌
  pure-Makes a l = Ensures-return a λ s h. (refl, (h.0, h.1 ∙ sym (append-nil l)))

  pub lift-Makes : {A : Type 0} (o : Outcome A) (a : A) → o ≡ ok a → Makes (lift o) a []
  lift-Makes o a e l = Ensures-lift o a e λ s h. (refl, (h.0, h.1 ∙ sym (append-nil l)))

  pub say-Makes : (c : List Chunk) → Makes (say c) tt []
  unfolding say ◌>>=◌
  say-Makes c l = record { at = λ s h. (tt, refl, (refl, (h.0, h.1 ∙ sym (append-nil l)))) }

  pub gets-Makes :
      (g : State W f.World → List Bytes) (vs : List Bytes)
      → ((s : State W f.World) → Vectors s → g s ≡ vs)
      → Makes (gets g) vs []
  unfolding ◌>>=◌
  gets-Makes g vs k l = record {
    at = λ s h. (g s, refl, (k s h.0, (h.0, h.1 ∙ sym (append-nil l))));
  }

  pub add_directory-Makes :
      (d : f.Dir) (n : Bytes)
      → Makes (on_fuse (f.add_directory d n)) (b.below d n) (directory d n ∷ [])
  unfolding on_fuse ◌>>=◌
  add_directory-Makes d n l = record {
    at = λ s h.
        let (e, q) = b.add_directory_law d n s.fuse in
        (b.below d n, e, (refl, (h.0, q ∙ ap (λ v. v ++ directory d n ∷ []) h.1)));
  }

  pub add_file-Makes :
      (d : f.Dir) (n c : Bytes) → Makes (on_fuse (f.add_file d n c)) tt (file d n c ∷ [])
  unfolding on_fuse ◌>>=◌
  add_file-Makes d n c l = record {
    at = λ s h.
        let (e, q) = b.add_file_law d n c s.fuse in
        (tt, e, (refl, (h.0, q ∙ ap (λ v. v ++ file d n c ∷ []) h.1)));
  }

  pub copy-Makes : (d : f.Dir) → Makes (on_fuse (f.copy d)) (b.copied d) []
  unfolding on_fuse ◌>>=◌
  copy-Makes d l = record {
    at = λ s h.
        let (e, q) = b.copy_law d s.fuse in
        (b.copied d, e, (refl, (h.0, q ∙ (h.1 ∙ sym (append-nil l)))));
  }
