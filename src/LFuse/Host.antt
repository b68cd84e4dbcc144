-- ===== src/LFuse/Host.antt =====
-- What the server of fuse/examples/l-fuse calls: the kernel and the Rx library, as an interface. A
-- call of the kernel gives its result, which is -1 on an error, and `errno` is read from the world.
use m3sec.Common.{ℕ, Bool, true, false, List, Option, ℤ, pos, negsuc, zero, suc, Bytes}
use m3sec.Common.Exec.{Exec}

-- An entry of a directory: d_type, d_ino and d_name.
pub record Dirent : Type 0 where
  pub type : ℕ
  pub inode : ℕ
  pub name : Bytes

-- The members of `struct statfs` in the order in which they are copied, but for f_spare.
abbrev pub StatFs : Type 0
StatFs = List ℕ

-- `scan` is what readdir gives between opendir and closedir, or `none` where opendir gives NULL.
-- `readlink`, `lstat` and `pread` also give the bytes that they write. `xdr_put` and `xdr_get` are
-- xdr_long on the two kinds of stream, which moves a `long` of `sizeof_long` bytes; `rx_write` gives the number of bytes that were sent.
pub record Host : Type 1 where
  pub World : Type 0
  pub errno : World → ℕ
  pub sizeof_long : ℕ
  pub rmdir : Bytes → Exec World ℤ
  pub mkdir : Bytes → ℕ → Exec World ℤ
  pub unlink : Bytes → Exec World ℤ
  pub truncate : Bytes → ℕ → Exec World ℤ
  pub mknod : Bytes → ℕ → ℕ → Exec World ℤ
  pub chmod : Bytes → ℕ → Exec World ℤ
  pub lchown : Bytes → ℕ → ℕ → Exec World ℤ
  pub utime : Bytes → ℕ → ℕ → Exec World ℤ
  pub symlink : Bytes → Bytes → Exec World ℤ
  pub rename : Bytes → Bytes → Exec World ℤ
  pub link : Bytes → Bytes → Exec World ℤ
  pub open_file : Bytes → ℕ → Exec World ℤ
  pub close : ℤ → Exec World ℤ
  pub readlink : Bytes → ℕ → Exec World (ℤ × Bytes)
  pub statfs : Bytes → Exec World (ℤ × StatFs)
  pub lstat : Bytes → Exec World (ℤ × Bytes)
  pub scan : Bytes → Exec World (Option (List Dirent))
  pub pread : ℤ → ℕ → ℕ → Exec World (ℤ × Bytes)
  pub pwrite : ℤ → Bytes → ℕ → Exec World ℤ
  pub xdr_put : ℤ → Exec World Bool
  pub xdr_get : Exec World (Option ℤ)
  pub rx_read : ℕ → Exec World Bytes
  pub rx_write : Bytes → Exec World ℕ
  pub rx_error : Exec World ℤ

-- `x == -1`
abbrev pub is_err : ℤ → Bool
is_err (pos n) = false
is_err (negsuc zero) = true
is_err (negsuc (suc n)) = false
