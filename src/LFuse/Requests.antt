-- ===== src/LFuse/Requests.antt =====
-- fuse/examples/l-fuse/afsfuse.xg: the remote calls that give a code and nothing else.
use m3sec.Common.{ℕ, Bytes}

pub data Request : Type 0 where
  rmdir unlink : Bytes → Request
  mkdir truncate chmod : Bytes → ℕ → Request
  mknod chown utime : Bytes → ℕ → ℕ → Request
  symlink rename link : Bytes → Bytes → Request
