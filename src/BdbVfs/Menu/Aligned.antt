-- ===== src/BdbVfs/Menu/Aligned.antt =====
-- The vectors of bdb_vfs.cpp stay equally long through every session of the menu.
use m3sec.Common.{ℕ, ℤ, List, [], ◌∷◌, Bytes}
use m3sec.Common.Exec.{◌>>=◌}
use m3sec.Common.Exec.Keeps.{Keeps, Keeps-bind}
use m3sec.Bdb.{Bdb}
use m3sec.Fusekit.{Fusekit}
use m3sec.BdbVfs.{say}
use m3sec.BdbVfs.Aligned.{
  IsAligned, aligned_rules, create_db-IsAligned, insert_db_data-IsAligned, print_db_data-IsAligned,
  close_db-IsAligned,
}
use m3sec.BdbVfs.Vfs.Aligned.{create_db_vfs-IsAligned}
use m3sec.BdbVfs.Menu.{show_menu, dispatch, menu}

show_menu-IsAligned : {W F : Type 0} → Keeps (IsAligned {W = W} {F = F}) show_menu
unfolding show_menu say ◌>>=◌
show_menu-IsAligned = record { at = λ s h. record { preds = h.preds; objs = h.objs } }

module _ (b : Bdb) (f : Fusekit) (fuel : ℕ) (argv : List Bytes) where
  dispatch-IsAligned : (key : ℤ) → Keeps IsAligned (dispatch b f fuel argv key)
  unfolding dispatch
  dispatch-IsAligned key =
      search
        (
          aligned_rules, create_db-IsAligned, insert_db_data-IsAligned, print_db_data-IsAligned,
          close_db-IsAligned, create_db_vfs-IsAligned,
        )
        depth 12

  pub menu-IsAligned : (keys : List ℤ) → Keeps IsAligned (menu b f fuel argv keys)
  unfolding menu
  menu-IsAligned [] = search aligned_rules
  menu-IsAligned (key ∷ keys) =
      Keeps-bind _ _ show_menu-IsAligned
        λ _. Keeps-bind _ _ (dispatch-IsAligned key) λ _. menu-IsAligned keys
