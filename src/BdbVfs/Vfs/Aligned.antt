-- ===== src/BdbVfs/Vfs/Aligned.antt =====
-- `createDbVfs` leaves the vectors alone.
use m3sec.Common.{List, Bytes}
use m3sec.Common.Exec.Keeps.{Keeps}
use m3sec.Bdb.{Bdb}
use m3sec.Fusekit.{Fusekit}
use m3sec.BdbVfs.Aligned.{
  IsAligned, aligned_rules, close_db-IsAligned, on_fuse-IsAligned, say-IsAligned,
}
use m3sec.BdbVfs.Vfs.{build_tree, create_db_vfs}
use m3sec.BdbVfs.Vfs.Frame.{build_tree-Keeps}

build_tree-IsAligned :
    (W : Type 0) (f : Fusekit) → Keeps (IsAligned {W = W} {F = f.World}) (build_tree W f)
build_tree-IsAligned W f = build_tree-Keeps W f IsAligned say-IsAligned (λ A. on_fuse-IsAligned)

pub create_db_vfs-IsAligned :
    (b : Bdb) (f : Fusekit) (argv : List Bytes) → Keeps IsAligned (create_db_vfs b f argv)
unfolding create_db_vfs
create_db_vfs-IsAligned b f argv =
    search (aligned_rules, build_tree-IsAligned, close_db-IsAligned, on_fuse-IsAligned)
