-- ===== src/LFuse/Remote.antt =====
-- What the client of fuse/examples/l-fuse calls: the stubs that rxgen makes from afsfuse.xg, the Rx
-- library on the current call, and the semaphore.
use m3sec.Common.{ℕ, Bool, List, Option, ℤ, Bytes}
use m3sec.Common.Exec.{Exec}
use m3sec.LFuse.Requests.{Request}
use m3sec.LFuse.Host.{Dirent, StatFs}

-- struct my_file_info
pub record FileInfo : Type 0 where
  pub flags : ℕ
  pub fh : ℕ
  pub writepage : ℕ

-- `request` has the stubs of the calls that give a code only. A stub that fills a variable is given
-- what it holds before, where that can be seen later. `start_…` are the stubs of the split calls;
-- `xdr_get` and `xdr_put` are xdr_long, and `rx_write` gives the number of bytes that were sent.
pub record Remote : Type 1 where
  pub World : Type 0
  pub errno : World → ℕ
  pub sem_wait : Exec World ℤ
  pub sem_post : Exec World ℤ
  pub request : Request → Exec World ℤ
  pub release : Bytes → FileInfo → Exec World ℤ
  pub fsync : Bytes → ℕ → FileInfo → Exec World ℤ
  pub flush : Bytes → FileInfo → Exec World ℤ
  pub open_file : Bytes → ℕ → Exec World (ℤ × ℕ)
  pub statfs : Bytes → StatFs → Exec World (ℤ × StatFs)
  pub readlink : Bytes → ℕ → Bytes → Exec World (ℤ × Bytes)
  pub getdir : Bytes → Exec World (ℤ × List Dirent)
  pub start_getattr : Bytes → ℕ → Exec World ℤ
  pub start_read : Bytes → ℕ → ℕ → FileInfo → Exec World ℤ
  pub start_write : Bytes → ℕ → ℕ → FileInfo → Exec World ℤ
  pub new_call : Exec World (Unit {0})
  pub end_call : ℤ → Exec World ℤ
  pub rx_error : Exec World ℤ
  pub xdr_get : Exec World (Option ℤ)
  pub xdr_put : ℤ → Exec World Bool
  pub rx_read : ℕ → Exec World Bytes
  pub rx_write : Bytes → Exec World ℕ
