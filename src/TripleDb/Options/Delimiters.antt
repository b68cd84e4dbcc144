-- ===== src/TripleDb/Options/Delimiters.antt =====
-- The paths that are used end with a delimiter.
use m3sec.Common.{Bool, true, false, List, [], ◌∷◌, Option, none, some, Bytes, ◌≡◌, refl}
use m3sec.TripleDb.Options.{
  Opt, opt_h, opt_other_path, opt_wrong, Parsed, parsed, used, undefined, last_char, ends_well,
  checked, parse_load,
}

abbrev EndsWell : Bytes → Type 0
EndsWell s = ends_well (last_char s) ≡ some true

-- What both paths satisfy, where there are any.
abbrev BothEndWell : Parsed → Type 0
BothEndWell (parsed home base) = EndsWell home × EndsWell base
BothEndWell used = Unit
BothEndWell undefined = Unit

checked-BothEndWell :
    (s : Bytes) (o : Option Bool) (rest : Parsed)
    → ends_well (last_char s) ≡ o
    → (EndsWell s → BothEndWell rest)
    → BothEndWell (checked o rest)
checked-BothEndWell s none rest e h = tt
checked-BothEndWell s (some true) rest e h = h e
checked-BothEndWell s (some false) rest e h = tt

-- If the two paths end with a delimiter before the options are read, they do afterwards, unless
-- usage() was called or an empty path was given.
parse_load-BothEndWell :
    (home base : Bytes) (opts : List Opt)
    → EndsWell home
    → EndsWell base
    → BothEndWell (parse_load home base opts)
unfolding parse_load
parse_load-BothEndWell home base [] h k = (h, k)
parse_load-BothEndWell home base (opt_h arg ∷ opts) h k =
    checked-BothEndWell arg _ _ refl (λ e. parse_load-BothEndWell arg base opts e k)
parse_load-BothEndWell home base (opt_other_path arg ∷ opts) h k =
    checked-BothEndWell arg _ _ refl (λ e. parse_load-BothEndWell home arg opts h e)
parse_load-BothEndWell home base (opt_wrong ∷ opts) h k = tt
