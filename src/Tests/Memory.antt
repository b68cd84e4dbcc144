-- ===== src/Tests/Memory.antt =====
-- A Berkeley DB whose world is its tables, and a fusekit that lists what it was asked for.
use mathlib.Core.Option
use mathlib.Core.Option.{some-injective}
use mathlib.Core.Path.{subst}
use m3sec.Common.{false, List, [], ◌∷◌, ◌++◌, some, Bytes, ◌≡◌, refl, sym, ◌∙◌, ap, codes, pos}
use m3sec.Common.Exec.{ok}
use m3sec.Bdb.{Bdb, Handle, db_s, db_p, db_o, Fetch, found, not_found, Responds}
use m3sec.BdbLaws.{
  Row, fresh, Table, Tables, table, update, set_dups, truncate, append_row, rewind, set_ahead, shut,
  Lawful,
}
use m3sec.Fusekit.{Fusekit}
use m3sec.BdbVfs.Vfs.Total.{Answers}

-- What lies in memory behind every record.
abbrev pub junk : Bytes
junk = codes "??"

abbrev step : List Row → Fetch
step [] = not_found
step ((k, v) ∷ rest) = found (k ++ junk) (v ++ junk)

abbrev behind : List Row → List Row
behind [] = []
behind (r ∷ rest) = rest

abbrev pub memory : Bdb
memory = record {
  World = Tables;
  set_flags = λ h f w. (ok tt, update h set_dups w);
  open_db = λ h n f w. (ok tt, update h truncate w);
  close = λ h w. (ok tt, update h shut w);
  put = λ h k v w. (ok tt, update h (append_row (k, v)) w);
  cursor = λ h w. (ok tt, update h rewind w);
  get_next =
      λ h w. (ok (step (table w h).ahead), update h (set_ahead (behind (table w h).ahead)) w);
  close_cursor = λ h w. (ok tt, update h (set_ahead []) w);
}

pub memory-Responds : Responds memory
memory-Responds = record {
  set_flags = λ h f w e. cc (e);
  open_db = λ h n f w e. cc (e);
  close = λ h w e. cc (e);
  put = λ h k v w e. cc (e);
}

set_behind : (h : Handle) (t : Tables) → update h (set_ahead (table t h).ahead) t ≡ t
set_behind db_s t = refl
set_behind db_p t = refl
set_behind db_o t = refl

pub get_end :
    (h : Handle) (t : Tables)
    → (table t h).ahead ≡ []
    → ((memory.get_next h t).0 ≡ ok not_found) × (some (memory.get_next h t).1 ≡ some t)
get_end h t e = (
  ap (λ l. ok (step l)) e,
  ap some (ap (λ l. update h (set_ahead l) t) (ap behind e ∙ sym e) ∙ set_behind h t),
)

pub get_row :
    (h : Handle) (t : Tables) (k v : Bytes) (rest : List Row)
    → (table t h).ahead ≡ (k, v) ∷ rest
    → ((memory.get_next h t).0 ≡ ok (found (k ++ junk) (v ++ junk)))
      × (some (memory.get_next h t).1 ≡ some (update h (set_ahead rest) t))
get_row h t k v rest e =
    (ap (λ l. ok (step l)) e, ap (λ l. some (update h (set_ahead (behind l)) t)) e)

abbrev pub memory-Lawful : Lawful memory
memory-Lawful = record {
  view = some;
  behind_key = λ w h. junk;
  behind_data = λ w h. junk;
  set_flags_law = λ h w t v _. (refl, ap (Option.map (update h set_dups)) v);
  open_law = λ h n w t v _. (refl, ap (Option.map (update h truncate)) v);
  put_law = λ h k d w t v _ _ _. (refl, ap (Option.map (update h (append_row (k, d)))) v);
  cursor_law = λ h w t v _. (refl, ap (Option.map (update h rewind)) v);
  get_end_law = λ h w t v _ e.
      subst
        (λ (x : Tables).
          ((memory.get_next h x).0 ≡ ok not_found) × (some (memory.get_next h x).1 ≡ some t))
        (sym (some-injective w t v)) (get_end h t e);
  get_next_law = λ h w t k d rest v _ e.
      subst
        (λ (x : Tables).
          ((memory.get_next h x).0 ≡ ok (found (k ++ junk) (d ++ junk)))
          × (some (memory.get_next h x).1 ≡ some (update h (set_ahead rest) t)))
        (sym (some-injective w t v)) (get_row h t k d rest e);
  close_cursor_law = λ h w t v _. (refl, ap (Option.map (update h (set_ahead []))) v);
  close_law = λ h w t v _ _. (refl, ap (Option.map (update h shut)) v);
}

-- Directories are paths; the world lists what was made.
abbrev pub listing : Fusekit
listing = record {
  World = List Bytes;
  Dir = Bytes;
  root = [];
  add_directory = λ d n w. let path = d ++ (codes "/" ++ n) in (ok path, w ++ path ∷ []);
  add_file = λ d n c w. (ok tt, w ++ (d ++ (codes "/" ++ n)) ∷ []);
  copy = λ d w. (ok d, w);
  run = λ argv w. (ok (pos 0), w);
}

pub listing-Answers : Answers listing
listing-Answers = record {
  add_directory = λ d n w. (d ++ (codes "/" ++ n), refl);
  add_file = λ d n c w. refl;
  copy = λ d w. (d, refl);
  run = λ argv w. (pos 0, refl);
}

-- Three tables that were never used.
abbrev pub unused : Tables
unused =
    let t : Table = record { phase = fresh; dups = false; rows = []; ahead = [] } in
    record { s = t; p = t; o = t }
