-- ===== src/Rows/Calls.antt =====
-- The calls on a lawful Berkeley DB, as changes of the tables.
use m3sec.Common.{true, [], Bytes, ◌≡◌, All}
use m3sec.Common.Exec.Ensures.{Ensures}
use m3sec.Bdb.{Bdb, Handle, dup, create_truncate}
use m3sec.BdbLaws.{
  fresh, opened, Tables, table, update, set_dups, truncate, append_row, rewind, set_ahead, shut,
  Lawful,
}
use m3sec.Rows.Reading.{View}

module _ (b : Bdb) (laws : Lawful b) (h : Handle) where
  pub set_flags-View :
      (t : Tables)
      → (table t h).phase ≡ fresh
      → Ensures (View b laws t) (b.set_flags h dup) (λ _. View b laws (update h set_dups t))
  set_flags-View t op = record {
    at = λ w v. let (e, v') = laws.set_flags_law h w t v op in (tt, e, v');
  }

  pub open_db-View :
      (n : Bytes) (t : Tables)
      → (table t h).phase ≡ fresh
      → Ensures
          (View b laws t)
          (b.open_db h n create_truncate)
          (λ _. View b laws (update h truncate t))
  open_db-View n t op = record {
    at = λ w v. let (e, v') = laws.open_law h n w t v op in (tt, e, v');
  }

  pub put-View :
      (k v : Bytes) (t : Tables)
      → (table t h).phase ≡ opened
      → (table t h).dups ≡ true
      → All (λ r. r.0 ≡ k) (table t h).rows
      → Ensures (View b laws t) (b.put h k v) (λ _. View b laws (update h (append_row (k, v)) t))
  put-View k v t op d a = record {
    at = λ w e. let (e', v') = laws.put_law h k v w t e op d a in (tt, e', v');
  }

  pub cursor-View :
      (t : Tables)
      → (table t h).phase ≡ opened
      → Ensures (View b laws t) (b.cursor h) (λ _. View b laws (update h rewind t))
  cursor-View t op = record { at = λ w v. let (e, v') = laws.cursor_law h w t v op in (tt, e, v') }

  pub close_cursor-View :
      (t : Tables)
      → (table t h).phase ≡ opened
      → Ensures (View b laws t) (b.close_cursor h) (λ _. View b laws (update h (set_ahead []) t))
  close_cursor-View t op = record {
    at = λ w v. let (e, v') = laws.close_cursor_law h w t v op in (tt, e, v');
  }

  pub close-View :
      (t : Tables)
      → (table t h).phase ≡ opened
      → (table t h).ahead ≡ []
      → Ensures (View b laws t) (b.close h) (λ _. View b laws (update h shut t))
  close-View t op e = record {
    at = λ w v. let (e', v') = laws.close_law h w t v op e in (tt, e', v');
  }
