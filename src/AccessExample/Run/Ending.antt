-- ===== src/AccessExample/Run/Ending.antt =====
-- How main ends.
use m3sec.Common.{
  ℕ, Bool, true, false, List, [], ◌∷◌, ◌++◌, Option, none, some, ℤ, pos, Bytes, ◌≡◌, ◌≢◌, refl,
}
use m3sec.Common.Exec.{
  Outcome, ok, throw, running, db_exception, std_exception, out_of_range, rescue, ◌>>=◌,
}
use m3sec.Console.{lit}
use m3sec.AccessExample.{Store, Access}
use m3sec.AccessExample.Run.{
  Calls, Opt, opt_r, opt_other, main_access, after_options, parse_options, usage, complain, report,
}

-- Some argument is not the option -r.
abbrev HasWrong : List Opt → Type 0
HasWrong [] = ⊥
HasWrong (opt_r ∷ opts) = HasWrong opts
HasWrong (opt_other ∷ opts) = Unit

parse_options_wrong :
    (rflag : Bool) (opts : List Opt) → HasWrong opts → parse_options rflag opts ≡ none
unfolding parse_options
parse_options_wrong rflag [] h = absurd h
parse_options_wrong rflag (opt_r ∷ opts) h = parse_options_wrong true opts h
parse_options_wrong rflag (opt_other ∷ opts) h = refl

rescued :
    {W : Type 0} (o : Outcome ℤ) (s : Access W) (n : ℤ)
    → (rescue o (report (pos 1)) s).0 ≢ throw (db_exception n)
unfolding report complain ◌>>=◌
rescued (ok v) s n e = cc
rescued (throw (db_exception m)) s n e = cc
rescued (throw (std_exception m)) s n e = cc
rescued (throw out_of_range) s n e = cc
rescued running s n e = cc

module _ (d : Store) (c : Calls d) where
  -- If an argument is not the option -r, main prints the usage line on `cerr`, returns EXIT_FAILURE,
  -- and leaves the database and everything else as they are.
  main_access-usage :
      (lines records : ℕ) (opts : List Opt) (argv : List Bytes) (s : Access d.World)
      → HasWrong opts
      → main_access d c lines records opts argv s ≡ (
        ok (pos 1),
        record s { cerr = s.cerr ++ lit "usage: AccessExample [-r] [database]\n" ∷ [] },
      )
  unfolding main_access after_options usage complain ◌>>=◌
  main_access-usage lines records opts argv s h = rw (parse_options_wrong false opts h) refl

  caught :
      (lines records : ℕ) (argv : List Bytes) (p : Option Bool) (s : Access d.World) (n : ℤ)
      → (after_options d c lines records argv p s).0 ≢ throw (db_exception n)
  unfolding after_options usage complain ◌>>=◌
  caught lines records argv none s n e = cc
  caught lines records argv (some rflag) s n e = rescued _ _ n e

  -- No DbException leaves main, whatever Berkeley DB throws.
  main_access-catches :
      (lines records : ℕ) (opts : List Opt) (argv : List Bytes) (s : Access d.World) (n : ℤ)
      → (main_access d c lines records opts argv s).0 ≢ throw (db_exception n)
  unfolding main_access
  main_access-catches lines records opts argv s n =
      caught lines records argv (parse_options false opts) s n
