-- ===== src/BdbVfs/Menu.antt =====
-- `main` of bdb_vfs.cpp: the menu loop.
mod Aligned
pub mod Sessions
use m3sec.Common.{ℕ, ℤ, List, [], ◌∷◌, ◌++◌, Bytes, is_int, if◌then◌else◌}
use m3sec.Common.Exec.{Exec, pure, modify, ◌>>◌}
use m3sec.Bdb.{Bdb}
use m3sec.Fusekit.{Fusekit}
use m3sec.Console.{lit}
use m3sec.BdbVfs.{State, say, create_db, insert_db_data, print_db_data, close_db}
use m3sec.BdbVfs.Vfs.{create_db_vfs}

module _ {W F : Type 0} where
  -- The menu, and the prompt, which has no `endl`.
  show_menu : Exec (State W F) (Unit {0})
  show_menu = do
    say (lit "Menu:" ∷ [])
    say (lit "1 -- Create DB" ∷ [])
    say (lit "2 -- Load data to DB" ∷ [])
    say (lit "3 -- Print data from DB" ∷ [])
    say (lit "4 -- Close DB" ∷ [])
    say (lit "5 -- Create DB VFS" ∷ [])
    modify (λ s. record s { cout = s.cout ++ lit "Enter key: " ∷ [] })

module _ (b : Bdb) (f : Fusekit) (fuel : ℕ) (argv : List Bytes) where
  -- The results of the functions are dropped.
  pub dispatch : ℤ → Exec (State b.World f.World) (Unit {0})
  dispatch key =
      if is_int key 1
      then (create_db b >> pure tt)
      else if is_int key 2
      then (insert_db_data b >> pure tt)
      else if is_int key 3
      then (print_db_data b fuel >> pure tt)
      else if is_int key 4
      then (close_db b >> pure tt)
      else if is_int key 5
      then (create_db_vfs b f argv >> pure tt)
      else say (lit "Wrong key!!!" ∷ [])

  -- The loop has no exit: it is run on the keys that are entered.
  pub menu : List ℤ → Exec (State b.World f.World) (Unit {0})
  menu [] = pure tt
  menu (key ∷ keys) = do show_menu; dispatch key; menu keys
