-- ===== src/TripleDb/Programs/Scope.antt =====
-- The scope of the three MyDb objects: they are opened in order, and closed in the reverse order,
-- whether what stands between returns or throws.
use m3sec.Common.{Bytes, ◌≡◌, refl, ap, ◌∙◌}
use m3sec.Common.Exec.{Outcome, ok, throw, running, Exec, ◌>>=◌}
use m3sec.TripleDb.Database.{DbResponds}
use m3sec.TripleDb.Database.Total.{my_db_swallows}
use m3sec.TripleDb.Read.{Database, inventory_db, vendor_db, itemname_sdb}
use m3sec.TripleDb.Programs.{
  Tables, one_of, Program, finally, leave, on_object, object, is_secondary, construct, destruct,
  with_object, with_objects,
}

module _ {S A : Type 0} where
  -- What was thrown or returned stays as it is, and the state is what the closing makes of it.
  abbrev pub ending : (S → S) → Outcome A × S → Outcome A × S
  ending close (ok a, s) = (ok a, close s)
  ending close (throw e, s) = (throw e, close s)
  ending close (running, s) = (running, s)

  ending-ending :
      (f g : S → S) (r : Outcome A × S) → ending f (ending g r) ≡ ending (λ s. f (g s)) r
  ending-ending f g (ok a, s) = refl
  ending-ending f g (throw e, s) = refl
  ending-ending f g (running, s) = refl

  leave-ending :
      (destroy : Exec S (Unit {0}))
      → ((s : S) → (destroy s).0 ≡ ok tt)
      → (o : Outcome A) (s : S) → leave destroy o s ≡ ending (λ s'. (destroy s').1) (o, s)
  unfolding leave ◌>>=◌
  leave-ending destroy h (ok a) s = rw (h s) refl
  leave-ending destroy h (throw e) s = rw (h s) refl
  leave-ending destroy h running s = refl

  -- A destructor that returns.
  finally-ending :
      (body : Exec S A) (destroy : Exec S (Unit {0}))
      → ((s : S) → (destroy s).0 ≡ ok tt)
      → (s : S) → finally body destroy s ≡ ending (λ s'. (destroy s').1) (body s)
  unfolding finally
  finally-ending body destroy h s = leave-ending destroy h (body s).0 (body s).1

module _ (t : Tables) (responds : (d : Database) → DbResponds (one_of t d)) (home : Bytes) where
  construct-ok : (d : Database) (s : Program t.reader.World) → (construct t home d s).0 ≡ ok tt
  unfolding construct on_object ◌>>=◌
  construct-ok d s =
      (my_db_swallows (one_of t d) (responds d) (is_secondary d) (object home d s)).0.0

  destruct-ok : (d : Database) (s : Program t.reader.World) → (destruct t home d s).0 ≡ ok tt
  unfolding destruct on_object ◌>>=◌
  destruct-ok d s =
      (my_db_swallows (one_of t d) (responds d) (is_secondary d) (object home d s)).1.0

  -- The state in which the three objects live.
  abbrev pub opened : Program t.reader.World → Program t.reader.World
  opened s =
      let s1 = (construct t home inventory_db s).1 in
      let s2 = (construct t home vendor_db s1).1 in (construct t home itemname_sdb s2).1

  -- The index is closed first.
  abbrev pub closed : Program t.reader.World → Program t.reader.World
  closed s =
      let s1 = (destruct t home itemname_sdb s).1 in
      let s2 = (destruct t home vendor_db s1).1 in (destruct t home inventory_db s2).1

  module _ {A : Type 0} where
    with_object-ending :
        (d : Database) (body : Exec (Program t.reader.World) A) (s : Program t.reader.World)
        → with_object t home d body s
          ≡ ending (λ s'. (destruct t home d s').1) (body (construct t home d s).1)
    unfolding with_object ◌>>=◌
    with_object-ending d body s =
        rw (construct-ok d s)
          (finally-ending body (destruct t home d) (destruct-ok d) (construct t home d s).1)

    -- If every call of Berkeley DB that opens or closes a database returns or throws, then the scope
    -- of the three objects ends as its body does from the state that the constructors leave: what
    -- the body returns or throws is returned or thrown, after all three destructors have run, the
    -- last object's first.
    pub with_objects-ending :
        (body : Exec (Program t.reader.World) A) (s : Program t.reader.World)
        → with_objects t home body s ≡ ending closed (body (opened s))
    unfolding with_objects
    with_objects-ending body s =
        with_object-ending inventory_db _ s
        ∙ ap (ending _) (
            with_object-ending vendor_db _ _
            ∙ ap (ending _) (with_object-ending itemname_sdb body _)
            ∙ ending-ending _ _ (body (opened s)))
        ∙ ending-ending _ _ (body (opened s))
