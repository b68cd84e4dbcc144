-- ===== src/Rows.antt =====
-- The loop test that the programs over the three tables share, `cur_s->get(…) == 0 && …`, and the
-- line that they print for a record (bdb_vfs.cpp, testfs/test.cpp, berkeley_test/test.cpp).
pub mod Reading
pub mod Calls
use m3sec.Common.{Option, none, some, List, [], ◌∷◌, Bytes, c_string}
use m3sec.Common.Exec.{Exec, pure, ◌>>=◌}
use m3sec.Console.{Chunk, text, lit}
use m3sec.Bdb.{Bdb, db_s, db_p, db_o, Fetch, found}

-- What the three cursors point at in one round.
pub record Fetched : Type 0 where
  pub key_s : Bytes
  pub data_s : Bytes
  pub key_p : Bytes
  pub data_p : Bytes
  pub key_o : Bytes
  pub data_o : Bytes

-- The key and the data of one table, read as C strings.
unfoldable pub line_of : Bytes → Bytes → Bytes → List Chunk
line_of table key value = text table ∷ text (c_string key) ∷ lit " : " ∷ text (c_string value) ∷ []

-- `… == 0 && rest`
unfoldable pub and_then :
    {W A : Type 0} → Fetch → (Bytes → Bytes → Exec W (Option A)) → Exec W (Option A)
and_then (found k v) rest = rest k v
and_then _ rest = pure none

-- The cursors move in this order, and the first call that does not return 0 ends the loop.
unfoldable pub next_row : (b : Bdb) → Exec b.World (Option Fetched)
unfolding and_then
next_row b = do
  s ← b.get_next db_s
  and_then s λ ks ds. do
    p ← b.get_next db_p
    and_then p λ kp dp. do
      o ← b.get_next db_o
      and_then o λ ko do'. pure (
          some
            (record { key_s = ks; data_s = ds; key_p = kp; data_p = dp; key_o = ko; data_o = do' }))
