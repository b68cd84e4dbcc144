-- ===== src/AccessExample.antt =====
-- berkeley/examples/AccessExample.cpp: `AccessExample::run`, which stores lines of input with their
-- reversals and prints the database.
pub mod Input
pub mod Line
pub mod Run
use m3sec.Common.{
  ℕ, zero, suc, Bool, true, false, List, [], ◌∷◌, ◌++◌, Option, none, some, Bytes, with_nul,
  c_string, length, get_elem?, ◌==◌, if◌then◌else◌,
}
use m3sec.Common.Exec.{Exec, pure, diverge, gets, modify, on, ◌>>=◌, ◌>>◌}
use m3sec.Console.{Chunk, text, lit}

-- `Db::put` with DB_NOOVERWRITE: whether it returned DB_KEYEXIST. It may throw.
pub record Store : Type 1 where
  pub World : Type 0
  pub put : Bytes → Bytes → Exec World Bool

-- `fail` is the stream's failbit.
pub record Access (W : Type 0) : Type 0 where
  pub db : W
  pub cout : List Chunk
  pub cerr : List Chunk
  pub input : Bytes
  pub fail : Bool

-- `cin.getline(buf, …)`: a text and what is left behind its newline; the text that fills the buffer
-- when the line is longer; or the end of the input, which also ends an unfinished line.
pub data Scanned : Type 0 where
  line : Bytes → Bytes → Scanned
  long : Bytes → Bytes → Scanned
  ended : Scanned

unfoldable pub in_front : ℕ → Scanned → Scanned
in_front c (line t rest) = line (c ∷ t) rest
in_front c (long t rest) = long (c ∷ t) rest
in_front c ended = ended

-- The first argument is the number of characters that the buffer still takes.
unfoldable pub scan : ℕ → Bytes → Scanned
scan n [] = ended
scan zero (c ∷ s) = if c == 10 then line [] s else long [] (c ∷ s)
scan (suc n) (c ∷ s) = let rest = scan n s in if c == 10 then line [] s else in_front c rest

-- *t++ = *p
store : Option ℕ → Bytes → Bytes
store none rbuf = []
store (some c) rbuf = c ∷ rbuf

-- for (t = rbuf, p = buf + (len - 1); p >= buf;) *t++ = *p--: the number is the characters left.
pub reversed : Bytes → ℕ → Bytes
reversed buf zero = []
reversed buf (suc n) = store (get_elem? buf n) (reversed buf n)

module _ {W : Type 0} where
  pub print : List Chunk → Exec (Access W) (Unit {0})
  print l = modify λ s. record s { cout = s.cout ++ l }

  -- The state behind `getline`, and `buf` as a C string, unless `cin.eof()`.
  pub take_line : Scanned → Exec (Access W) (Option Bytes)
  take_line (line t rest) = modify (λ s. record s { input = rest }) >> pure (some (c_string t))
  take_line (long t rest) =
      modify (λ s. record s { input = rest; fail = true }) >> pure (some (c_string t))
  take_line ended = modify (λ s. record s { input = [] }) >> pure none

  -- With the failbit set, `getline` reads nothing and leaves an empty buffer.
  pub read_line : Exec (Access W) (Option Bytes)
  unfolding take_line
  read_line s = if s.fail then (pure (some []) s) else take_line (scan 1023 s.input) s

module _ (d : Store) where
  -- if (ret == DB_KEYEXIST) …
  pub report_key : Bytes → Bool → Exec (Access d.World) (Unit {0})
  report_key buf true = print (lit "Key " ∷ text buf ∷ lit " already exists.\n" ∷ [])
  report_key buf false = pure tt

  -- The rest of the body of the loop.
  pub put_line : Bytes → Exec (Access d.World) (Unit {0})
  put_line [] = pure tt
  put_line (c ∷ buf') = do
    let buf = c ∷ buf'
    ret ←
        on (λ s. s.db) (λ s w. record s { db = w })
          (d.put (with_nul buf) (with_nul (reversed buf (length buf))))
    report_key buf ret

  -- for (;;)
  pub input_loop : ℕ → Exec (Access d.World) (Unit {0})
  input_loop zero = diverge
  input_loop (suc fuel) = do
    print (lit "input> " ∷ [])
    l ← read_line
    elim l [ none ↦ pure tt | some buf ↦ put_line buf >> input_loop fuel ]
