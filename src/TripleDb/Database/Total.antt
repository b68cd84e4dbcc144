-- ===== src/TripleDb/Database/Total.antt =====
-- MyDb's constructor and close end without an exception, whatever Berkeley DB throws.
use m3sec.Common.{
  Bool, true, false, List, [], ◌∷◌, ◌++◌, Bytes, codes, ◌≢◌, ◌≡◌, refl, ◌⊎◌, inl, inr,
}
use m3sec.Common.Exec.{
  Exn, Outcome, ok, throw, running, Exec, gets, modify, rescue, try_catch, ◌>>=◌,
}
use m3sec.Common.Exec.Keeps.{Keeps, Keeps-bind, Keeps-gets, keeps_rules}
use m3sec.Common.Exec.Ends.{Ends, Ended, Always, Ends-pure, Ends-bind, Ends-on, Ends-modify}
use m3sec.Console.{Chunk, text, lit, what, endl}
use m3sec.TripleDb.Database.{
  Db, DbResponds, MyDb, on_db, report_error, set_secondary, new_my_db, close_my_db,
}

-- What the catch clauses print.
abbrev pub error_lines : Bytes → Bytes → Exn → List Chunk
error_lines doing name e =
    lit "Error " ∷ text doing ∷ lit " database: " ∷ text name ∷ lit "\n" ∷ what e ∷ endl ∷ []

module _ {W : Type 0} where
  -- From a state with `c` on `cerr` and the file name `n` the call returned, and left `cerr` as it
  -- was or added the two lines about one exception.
  abbrev pub Swallowed : Bytes → List Chunk → Bytes → Outcome (Unit {0}) × MyDb W → Type 0
  Swallowed doing c n r =
      (r.0 ≡ ok tt) × ((r.1.cerr ≡ c) ⊎ ((e : Exn) × (r.1.cerr ≡ c ++ error_lines doing n e)))

  abbrev SameErr : List Chunk → Bytes → MyDb W → Type 0
  SameErr c n s = (s.cerr ≡ c) × (s.db_file_name ≡ n)

  on_db-SameErr :
      {A : Type 0} (c : List Chunk) (n : Bytes) (m : Exec W A) → Keeps (SameErr c n) (on_db m)
  unfolding on_db ◌>>=◌
  on_db-SameErr c n m = record { at = λ s h. h }

  closed-SameErr :
      (c : List Chunk) (n : Bytes) (f : MyDb W → List Chunk)
      → Keeps (SameErr c n) (modify λ s. record s { cout = f s })
  unfolding ◌>>=◌
  closed-SameErr c n f = record { at = λ s h. h }

  gets-Ends : {A : Type 0} (f : MyDb W → A) → Ends Always (gets f)
  unfolding ◌>>=◌
  gets-Ends f = record { at = λ s. tt }

  rescue-Swallowed :
      (doing : Bytes) (c : List Chunk) (n : Bytes) (o : Outcome (Unit {0})) (s : MyDb W)
      → Ended Always o
      → SameErr c n s
      → Swallowed doing c n (rescue o (report_error doing) s)
  unfolding report_error ◌>>=◌
  rescue-Swallowed doing c n (ok u) s h (e, k) = (refl, inl e)
  rescue-Swallowed doing c n (throw x) s h (e, k) = (refl, inr (x, rw (e, k)))
  rescue-Swallowed doing c n running s h k = absurd h

  try_catch-Swallowed :
      (doing : Bytes) (m : Exec (MyDb W) (Unit {0}))
      → Ends Always m
      → ((c : List Chunk) (n : Bytes) → Keeps (SameErr c n) m)
      → (s : MyDb W) → Swallowed doing s.cerr s.db_file_name (try_catch m (report_error doing) s)
  unfolding try_catch
  try_catch-Swallowed doing m ends quiet s =
      rescue-Swallowed doing s.cerr s.db_file_name (m s).0 (m s).1 (ends.at s)
        ((quiet s.cerr s.db_file_name).at s (refl, refl))

module _ (b : Db) (responds : DbResponds b) where
  on_db-Ends :
      {A : Type 0} (m : Exec b.World A)
      → ((w : b.World) → (m w).0 ≢ running)
      → Ends Always (on_db m)
  unfolding on_db
  on_db-Ends m h = Ends-on _ _ m h

  set_secondary-Ends : (is_secondary : Bool) → Ends Always (set_secondary b is_secondary)
  unfolding set_secondary
  set_secondary-Ends true = on_db-Ends _ responds.set_dupsort
  set_secondary-Ends false = Ends-pure tt tt

  set_secondary-SameErr :
      (is_secondary : Bool) (c : List Chunk) (n : Bytes)
      → Keeps (SameErr c n) (set_secondary b is_secondary)
  unfolding set_secondary
  set_secondary-SameErr true c n = on_db-SameErr c n _
  set_secondary-SameErr false c n = search keeps_rules

  -- Over a database whose calls return or throw, MyDb's constructor and `close` throw nothing: each
  -- returns, and leaves `cerr` as it was or adds the two lines that report one exception with the
  -- file name.
  pub my_db_swallows :
      (is_secondary : Bool) (s : MyDb b.World)
      → Swallowed (codes "opening") s.cerr s.db_file_name (new_my_db b is_secondary s)
        × Swallowed (codes "closing") s.cerr s.db_file_name (close_my_db b s)
  unfolding new_my_db close_my_db
  my_db_swallows is_secondary s = (
    try_catch-Swallowed (codes "opening") _
        (Ends-bind _ _ (set_secondary-Ends is_secondary)
          λ _. Ends-bind _ _ (gets-Ends _) λ n. on_db-Ends _ (responds.open_db n))
        (λ c n.
          Keeps-bind _ _ (set_secondary-SameErr is_secondary c n)
            λ _. Keeps-bind _ _ (Keeps-gets _) λ n'. on_db-SameErr c n _)
        s,
    try_catch-Swallowed (codes "closing") _
        (Ends-bind _ _ (on_db-Ends _ responds.close) λ _. Ends-modify _)
        (λ c n. Keeps-bind _ _ (on_db-SameErr c n _) λ _. closed-SameErr c n _) s,
  )
