-- ===== src/BdbVfs/Menu/Sessions.antt =====
-- What holds after every session of the menu of bdb_vfs.cpp.
use m3sec.Common.{ℕ, ℤ, List, [], Bytes, ◌≡◌, refl}
use m3sec.Common.Exec.{ok}
use m3sec.Bdb.{Bdb, Responds}
use m3sec.Fusekit.{Fusekit}
use m3sec.BdbVfs.{State}
use m3sec.BdbVfs.Aligned.{IsAligned}
use m3sec.BdbVfs.Vfs.{create_db_vfs}
use m3sec.BdbVfs.Vfs.Total.{Answers, create_db_vfs_returns}
use m3sec.BdbVfs.Menu.{menu}
use m3sec.BdbVfs.Menu.Aligned.{menu-IsAligned}

-- The program at its start.
abbrev pub start : {W F : Type 0} → W → F → State W F
start w v = record {
  db = w;
  fuse = v;
  subj_vector = [];
  pred_vector = [];
  obj_vector = [];
  cout = [];
  cerr = [];
}

module _ (b : Bdb) (f : Fusekit) (fuel : ℕ) (argv : List Bytes) where
  -- Whatever keys are entered and whatever the two libraries return, throw or fail to return, the
  -- three vectors are equally long after the session.
  pub session-IsAligned :
      (keys : List ℤ) (w : b.World) (v : f.World)
      → IsAligned (menu b f fuel argv keys (start w v)).1
  session-IsAligned keys w v =
      (menu-IsAligned b f fuel argv keys).at (start w v) (record { preds = refl; objs = refl })

  -- After every session in which the libraries may have failed in any way, `createDbVfs` returns
  -- what the daemon returns, if from then on fusekit returns and Berkeley DB returns or throws.
  pub session_vfs_returns :
      (keys : List ℤ) (w : b.World) (v : f.World)
      → Responds b
      → Answers f
      → (c : ℤ) × ((create_db_vfs b f argv (menu b f fuel argv keys (start w v)).1).0 ≡ ok c)
        × (v' : f.World) × ((f.run argv v').0 ≡ ok c)
  session_vfs_returns keys w v responds answers =
      let (c, e, (v', r)) =
        create_db_vfs_returns b f responds answers argv _ (session-IsAligned keys w v) in
      (c, e, v', r)
