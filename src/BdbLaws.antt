-- ===== src/BdbLaws.antt =====
-- The documented behaviour of Berkeley DB that the programs rely on: a B-tree file that is opened
-- with DB_TRUNCATE is empty, a table with DB_DUP keeps equal keys in the order of insertion, and a
-- cursor visits the records in order.
use m3sec.Common.{Bool, true, List, [], ◌∷◌, ◌++◌, Option, some, Bytes, ◌≡◌, All}
use m3sec.Common.Exec.{ok}
use m3sec.Bdb.{Bdb, Handle, db_s, db_p, db_o, dup, create_truncate, found, not_found}

abbrev pub Row : Type 0
Row = Bytes × Bytes

-- A handle is opened once and closed once.
pub data Phase : Type 0 where
  fresh opened closed : Phase

-- One table: its handle, DB_DUP, the records in order, and those that the cursor has still to visit.
pub record Table : Type 0 where
  pub phase : Phase
  pub dups : Bool
  pub rows : List Row
  pub ahead : List Row

pub record Tables : Type 0 where
  pub s : Table
  pub p : Table
  pub o : Table

abbrev pub table : Tables → Handle → Table
table t db_s = t.s
table t db_p = t.p
table t db_o = t.o

abbrev pub update : Handle → (Table → Table) → Tables → Tables
update db_s f t = record t { s = f t.s }
update db_p f t = record t { p = f t.p }
update db_o f t = record t { o = f t.o }

-- What the calls do to the table.
abbrev pub set_dups : Table → Table
set_dups t = record t { dups = true }

abbrev pub truncate : Table → Table
truncate t = record t { phase = opened; rows = []; ahead = [] }

abbrev pub append_row : Row → Table → Table
append_row r t = record t { rows = t.rows ++ r ∷ [] }

abbrev pub rewind : Table → Table
rewind t = record t { ahead = t.rows }

abbrev pub set_ahead : List Row → Table → Table
set_ahead rs t = record t { ahead = rs }

abbrev pub shut : Table → Table
shut t = record t { phase = closed }

-- `view w` is `none` where something outside the programs went wrong. `behind_key` and `behind_data`
-- are the bytes in memory behind what the next `get` points at.
pub record Lawful (b : Bdb) : Type 0 where
  pub view : b.World → Option Tables
  pub behind_key : b.World → Handle → Bytes
  pub behind_data : b.World → Handle → Bytes
  pub set_flags_law :
      (h : Handle) (w : b.World) (t : Tables)
      → view w ≡ some t
      → (table t h).phase ≡ fresh
      → ((b.set_flags h dup w).0 ≡ ok tt)
        × (view (b.set_flags h dup w).1 ≡ some (update h set_dups t))
  pub open_law :
      (h : Handle) (n : Bytes) (w : b.World) (t : Tables)
      → view w ≡ some t
      → (table t h).phase ≡ fresh
      → ((b.open_db h n create_truncate w).0 ≡ ok tt)
        × (view (b.open_db h n create_truncate w).1 ≡ some (update h truncate t))
  pub put_law :
      (h : Handle) (k v : Bytes) (w : b.World) (t : Tables)
      → view w ≡ some t
      → (table t h).phase ≡ opened
      → (table t h).dups ≡ true
      → All (λ r. r.0 ≡ k) (table t h).rows
      → ((b.put h k v w).0 ≡ ok tt)
        × (view (b.put h k v w).1 ≡ some (update h (append_row (k, v)) t))
  pub cursor_law :
      (h : Handle) (w : b.World) (t : Tables)
      → view w ≡ some t
      → (table t h).phase ≡ opened
      → ((b.cursor h w).0 ≡ ok tt) × (view (b.cursor h w).1 ≡ some (update h rewind t))
  pub get_end_law :
      (h : Handle) (w : b.World) (t : Tables)
      → view w ≡ some t
      → (table t h).phase ≡ opened
      → (table t h).ahead ≡ []
      → ((b.get_next h w).0 ≡ ok not_found) × (view (b.get_next h w).1 ≡ some t)
  pub get_next_law :
      (h : Handle) (w : b.World) (t : Tables) (k v : Bytes) (rest : List Row)
      → view w ≡ some t
      → (table t h).phase ≡ opened
      → (table t h).ahead ≡ (k, v) ∷ rest
      → ((b.get_next h w).0 ≡ ok (found (k ++ behind_key w h) (v ++ behind_data w h)))
        × (view (b.get_next h w).1 ≡ some (update h (set_ahead rest) t))
  pub close_cursor_law :
      (h : Handle) (w : b.World) (t : Tables)
      → view w ≡ some t
      → (table t h).phase ≡ opened
      → ((b.close_cursor h w).0 ≡ ok tt)
        × (view (b.close_cursor h w).1 ≡ some (update h (set_ahead []) t))
  pub close_law :
      (h : Handle) (w : b.World) (t : Tables)
      → view w ≡ some t
      → (table t h).phase ≡ opened
      → (table t h).ahead ≡ []
      → ((b.close h w).0 ≡ ok tt) × (view (b.close h w).1 ≡ some (update h shut t))
