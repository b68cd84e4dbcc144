-- ===== src/BdbVfs/Reports.antt =====
-- How the functions of bdb_vfs.cpp that have a try block end: 0 and nothing on `cerr`, or -1 and
-- one line.
use m3sec.Common.{ℤ, pos, minus_one, [], ◌∷◌, ◌++◌, List, ◌≡◌, ◌≢◌, refl, ap, ◌⊎◌, inl, inr, Bytes}
use m3sec.Common.Exec.{
  Exn, db_exception, Outcome, ok, throw, running, Exec, rescue, try_catch, ◌>>=◌,
}
use m3sec.Common.Exec.Keeps.{Keeps, keeps_rules}
use m3sec.Common.Exec.Ends.{Ends, Ended, Always, Ends-pure, Ends-bind, Ends-on, Ends-modify}
use m3sec.Console.{Chunk, lit, what, endl}
use m3sec.Bdb.{Bdb, Handle, DbFlags, OpenFlags, Responds}
use m3sec.BdbVfs.{State, say, complain, on_db, report, create_db, close_db, insert_db_data}

-- What the catch clauses print.
abbrev pub message : Exn → List Chunk
message (db_exception n) = lit "DbException: " ∷ what (db_exception n) ∷ endl ∷ []
message e = what e ∷ endl ∷ []

abbrev IsNil : ℤ → Type 0
IsNil c = c ≡ pos 0

IsNil-zero : IsNil (pos 0)
IsNil-zero = refl

module _ {W F : Type 0} where
  -- From a state with `c` on `cerr` the call returned 0 and left `cerr` as it was, or returned -1
  -- and added the message of one exception.
  abbrev pub Reported : List Chunk → Outcome ℤ × State W F → Type 0
  Reported c r =
      ((r.0 ≡ ok (pos 0)) × (r.1.cerr ≡ c))
      ⊎ ((e : Exn) × (r.0 ≡ ok minus_one) × (r.1.cerr ≡ c ++ message e))

  abbrev SameCerr : List Chunk → State W F → Type 0
  SameCerr c s = s.cerr ≡ c

  say-SameCerr : (c l : List Chunk) → Keeps (SameCerr c) (say l)
  unfolding say ◌>>=◌
  say-SameCerr c l = record { at = λ s h. h }

  on_db-SameCerr : {A : Type 0} (c : List Chunk) (m : Exec W A) → Keeps (SameCerr c) (on_db m)
  unfolding on_db ◌>>=◌
  on_db-SameCerr c m = record { at = λ s h. h }

  ruleset quiet_rules = (keeps_rules, say-SameCerr, on_db-SameCerr)

  say-Ends : (l : List Chunk) → Ends Always (say {W = W} {F = F} l)
  unfolding say
  say-Ends l = Ends-modify _

  rescue-Reported :
      (o : Outcome ℤ) (c : List Chunk) (s : State W F)
      → Ended IsNil o
      → s.cerr ≡ c
      → Reported c (rescue o report s)
  unfolding report complain ◌>>=◌
  rescue-Reported (ok a) c s h k = inl (ap ok h, k)
  rescue-Reported (throw (db_exception n)) c s h k = inr (db_exception n, refl, rw k)
  rescue-Reported (throw e) c s h k = inr (e, refl, rw k)
  rescue-Reported running c s h k = absurd h

  try_catch-Reported :
      (m : Exec (State W F) ℤ)
      → Ends IsNil m
      → ((c : List Chunk) → Keeps (SameCerr c) m)
      → (s : State W F) → Reported s.cerr (try_catch m report s)
  unfolding try_catch
  try_catch-Reported m ends quiet s =
      rescue-Reported (m s).0 s.cerr (m s).1 (ends.at s) ((quiet s.cerr).at s refl)

module _ (b : Bdb) {F : Type 0} (responds : Responds b) where
  on_db-Ends :
      {A : Type 0} (m : Exec b.World A)
      → ((w : b.World) → (m w).0 ≢ running)
      → Ends Always (on_db {F = F} m)
  unfolding on_db
  on_db-Ends m h = Ends-on _ _ m h

  set_flags-Ends : (h : Handle) (f : DbFlags) → Ends Always (on_db {F = F} (b.set_flags h f))
  set_flags-Ends h f = on_db-Ends _ (responds.set_flags h f)

  open_db-Ends :
      (h : Handle) (n : Bytes) (f : OpenFlags) → Ends Always (on_db {F = F} (b.open_db h n f))
  open_db-Ends h n f = on_db-Ends _ (responds.open_db h n f)

  close-Ends : (h : Handle) → Ends Always (on_db {F = F} (b.close h))
  close-Ends h = on_db-Ends _ (responds.close h)

  put-Ends : (h : Handle) (k v : Bytes) → Ends Always (on_db {F = F} (b.put h k v))
  put-Ends h k v = on_db-Ends _ (responds.put h k v)

  ruleset ends_rules = (
    Ends-pure, Ends-bind, say-Ends, set_flags-Ends, open_db-Ends, close-Ends, put-Ends, IsNil-zero,
  )

  create_db-Reported : (s : State b.World F) → Reported s.cerr (create_db b s)
  unfolding create_db
  create_db-Reported =
      try_catch-Reported _ (search ends_rules depth 12) (λ c. search quiet_rules depth 12)

  insert_db_data-Reported : (s : State b.World F) → Reported s.cerr (insert_db_data b s)
  unfolding insert_db_data
  insert_db_data-Reported =
      try_catch-Reported _ (search ends_rules depth 14) (λ c. search quiet_rules depth 14)

  pub close_db-Reported : (s : State b.World F) → Reported s.cerr (close_db b s)
  unfolding close_db
  close_db-Reported =
      try_catch-Reported _ (search ends_rules depth 12) (λ c. search quiet_rules depth 12)

  -- `createDb`, `insertDbData` and `closeDb` throw nothing: over a Berkeley DB whose calls return or
  -- throw, each returns 0 and leaves `cerr` alone, or returns -1 and adds one message to it.
  pub tables_report :
      (s : State b.World F)
      → Reported s.cerr (create_db b s)
        × Reported s.cerr (insert_db_data b s)
        × Reported s.cerr (close_db b s)
  tables_report s = (create_db-Reported s, insert_db_data-Reported s, close_db-Reported s)
