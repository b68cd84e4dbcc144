-- ===== src/Fusekit.antt =====
-- The fusekit library, which the repository does not contain: directories that are built by calls,
-- and the daemon that serves them.
use m3sec.Common.{Bytes, List, ℤ}
use m3sec.Common.Exec.{Exec}

-- `Dir` is a `default_directory<>::type`, or a reference to one. `copy` is its copy constructor,
-- which `vector::push_back` calls. `run` is `daemon::run(argc, argv)`.
pub record Fusekit : Type 1 where
  pub World : Type 0
  pub Dir : Type 0
  pub root : Dir
  pub add_directory : Dir → Bytes → Exec World Dir
  pub add_file : Dir → Bytes → Bytes → Exec World (Unit {0})
  pub copy : Dir → Exec World Dir
  pub run : List Bytes → Exec World ℤ
