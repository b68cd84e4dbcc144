-- ===== src/BdbRead/Loop.antt =====
-- How the loop of bdb_read ends, and when it does not.
use m3sec.Common.{
  ℕ, zero, suc, ◌<◌, ℤ, List, [], ◌∷◌, ◌++◌, none, some, Bytes, ◌≡◌, refl, arith, length,
  append-nil, append_assoc,
}
use m3sec.Common.Exec.{ok, running, Exec, ◌>>=◌}
use m3sec.Console.{Chunk}
use m3sec.Bdb.{found, not_found, failed}
use m3sec.BdbRead.{
  Reader, Console, Last, last_of, lines_of, on_reader, print_record, print, read_loop,
}

-- The lines for a list of records.
abbrev pub all_lines : List (Bytes × Bytes) → List Chunk
all_lines [] = []
all_lines ((k, v) ∷ rs) = lines_of k v ++ all_lines rs

module _ (r : Reader) where
  -- From the world `w` the cursor gives these records and then DB_NOTFOUND.
  abbrev pub Gives : r.World → List (Bytes × Bytes) → r.World → Type 0
  Gives w [] w' = r.get_next w ≡ (ok not_found, w')
  Gives w ((k, v) ∷ rs) w' =
      (w1 : r.World) × ((r.get_next w ≡ (ok (found k v), w1)) × Gives w1 rs w')

  abbrev pub fetch_and_read : ℕ → Last → Exec (Console r.World) (Unit {0})
  fetch_and_read fuel last = do ret ← on_reader r.get_next; read_loop r fuel ret (last_of ret last)

  -- If the cursor gives some records and then DB_NOTFOUND, the first `get` and the loop, with fuel
  -- for one round more than there are records, return, and print just the lines of these records,
  -- in order.
  pub read_loop_lem :
      (fuel : ℕ) (rs : List (Bytes × Bytes)) (last : Last) (w' : r.World) (s : Console r.World)
      → Gives s.db rs w'
      → length rs < fuel
      → fetch_and_read fuel last s ≡ (ok tt, record s { db = w'; cout = s.cout ++ all_lines rs })
  unfolding read_loop last_of print_record print on_reader ◌>>=◌
  read_loop_lem zero rs last w' s g lt = absurd (omega arith)
  read_loop_lem (suc fuel) [] last w' s g lt = rw (g, append-nil s.cout)
  read_loop_lem (suc fuel) ((k, v) ∷ rs) last w' s (w1, (e, g)) lt =
      rw (e, ← append_assoc s.cout (lines_of k v) (all_lines rs))
        (read_loop_lem fuel rs (some (k, v)) w'
          (record s { db = w1; cout = s.cout ++ lines_of k v }) g (omega arith))

  -- If every `get` returns one code that is neither 0 nor DB_NOTFOUND, the loop does not end: it is
  -- still running when any fuel is used up.
  pub read_loop-running :
      (c : ℤ) (fuel : ℕ) (last : Last) (s : Console r.World)
      → ((w : r.World) → (r.get_next w).0 ≡ ok (failed c))
      → (read_loop r fuel (failed c) last s).0 ≡ running
  unfolding read_loop last_of print_record print on_reader ◌>>=◌
  read_loop-running c zero last s h = refl
  read_loop-running c (suc fuel) none s h = refl
  read_loop-running c (suc fuel) (some (k, v)) s h =
      rw (h s.db) (read_loop-running c fuel (some (k, v)) _ h)
