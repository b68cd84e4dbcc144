-- ===== src/LFuse/Client.antt =====
-- fuse/examples/l-fuse/afsfuse_client.c: the operations of the file system, each of which holds the
-- semaphore while it uses the connection. The lines that `printf` writes are left out. A wait that
-- is interrupted for longer than `fuel` rounds has no outcome, nor has a step that is undefined.
pub mod Lock
pub mod Composed
pub mod Streams
use m3sec.Common.{
  ℕ, zero, suc, ◌%◌, ◌^◌, Bool, true, false, List, [], ◌∷◌, ℤ, pos, minus_one, is_int, Bytes, take,
  length, ltb, ◌==◌, if◌then◌else◌,
}
use m3sec.Common.Exec.{Exec, pure, diverge, gets, ◌>>=◌, ◌>>◌}
use m3sec.LFuse.Requests.{
  Request, rmdir, mkdir, unlink, truncate, mknod, chmod, chown, utime, symlink, rename, link,
}
use m3sec.LFuse.Host.{Dirent, StatFs, is_err}
use m3sec.LFuse.Remote.{Remote, FileInfo}

-- A number as an afs_uint32.
abbrev pub u32 : ℕ → ℕ
u32 n = n % 2 ^ 32

module _ (r : Remote) where
  -- while (sem_wait(&semlock) == -1) if (errno != EINTR) return NULL; — EINTR is 4, and the result
  -- says whether there is a connection.
  pub wait_rounds : ℕ → Exec r.World Bool
  wait_rounds zero = diverge
  wait_rounds (suc fuel) = do
    res ← r.sem_wait
    errno ← gets r.errno
    (let again = wait_rounds fuel in
        if is_err res then (if errno == 4 then again else pure false) else pure true)

  -- relconnection, which does not look at its argument
  pub relconnection : Exec r.World (Unit {0})
  relconnection = r.sem_post >> pure tt

  -- Rx on a connection that is NULL is undefined.
  pub on_connection : {A : Type 0} → Bool → Exec r.World A → Exec r.World A
  on_connection true body = body
  on_connection false body = diverge

  module _ (fuel : ℕ) where
    pub getconnection : Exec r.World Bool
    unfolding wait_rounds
    getconnection = wait_rounds fuel

    -- local = getconnection(); … relconnection(local);
    pub with_connection : {A : Type 0} → Exec r.World A → Exec r.World A
    unfolding getconnection on_connection relconnection
    with_connection body = do
      local ← getconnection
      res ← on_connection local body
      relconnection
      pure res

    xmp_chmod : Bytes → ℕ → Exec r.World ℤ
    xmp_chmod path mode = with_connection (r.request (chmod path (u32 mode)))

    xmp_chown : Bytes → ℕ → ℕ → Exec r.World ℤ
    xmp_chown path uid gid = with_connection (r.request (chown path (u32 uid) (u32 gid)))

    -- `buf->actime` and `buf->modtime`
    xmp_utime : Bytes → ℕ → ℕ → Exec r.World ℤ
    xmp_utime path actime modtime =
        with_connection (r.request (utime path (u32 actime) (u32 modtime)))

    xmp_mknod : Bytes → ℕ → ℕ → Exec r.World ℤ
    xmp_mknod path mode rdev = with_connection (r.request (mknod path (u32 mode) (u32 rdev)))

    xmp_mkdir : Bytes → ℕ → Exec r.World ℤ
    xmp_mkdir path mode = with_connection (r.request (mkdir path (u32 mode)))

    xmp_unlink : Bytes → Exec r.World ℤ
    xmp_unlink path = with_connection (r.request (unlink path))

    xmp_rmdir : Bytes → Exec r.World ℤ
    xmp_rmdir path = with_connection (r.request (rmdir path))

    xmp_symlink : Bytes → Bytes → Exec r.World ℤ
    xmp_symlink from to = with_connection (r.request (symlink from to))

    xmp_rename : Bytes → Bytes → Exec r.World ℤ
    xmp_rename from to = with_connection (r.request (rename from to))

    xmp_link : Bytes → Bytes → Exec r.World ℤ
    xmp_link from to = with_connection (r.request (link from to))

    xmp_truncate : Bytes → ℕ → Exec r.World ℤ
    xmp_truncate path size = with_connection (r.request (truncate path (u32 size)))

    -- The entries of `xmp_oper` whose calls give a code only.
    pub xmp_oper : Request → Exec r.World ℤ
    unfolding xmp_chmod xmp_chown xmp_utime xmp_mknod xmp_mkdir xmp_unlink xmp_rmdir xmp_symlink
        xmp_rename xmp_link xmp_truncate
    xmp_oper (chmod path mode) = xmp_chmod path mode
    xmp_oper (chown path uid gid) = xmp_chown path uid gid
    xmp_oper (utime path at mt) = xmp_utime path at mt
    xmp_oper (mknod path mode rdev) = xmp_mknod path mode rdev
    xmp_oper (mkdir path mode) = xmp_mkdir path mode
    xmp_oper (unlink path) = xmp_unlink path
    xmp_oper (rmdir path) = xmp_rmdir path
    xmp_oper (symlink from to) = xmp_symlink from to
    xmp_oper (rename from to) = xmp_rename from to
    xmp_oper (link from to) = xmp_link from to
    xmp_oper (truncate path size) = xmp_truncate path size

    -- The three operations with a `mfi` that is not initialised: `mfi` is what it happens to hold.
    unfoldable xmp_release : Bytes → FileInfo → Exec r.World ℤ
    xmp_release path mfi = with_connection (r.release path mfi)

    unfoldable xmp_fsync : Bytes → ℕ → FileInfo → Exec r.World ℤ
    xmp_fsync path isdatasync mfi = with_connection (r.fsync path isdatasync mfi)

    unfoldable xmp_flush : Bytes → FileInfo → Exec r.World ℤ
    xmp_flush path mfi = with_connection (r.flush path mfi)

    -- The result, and `fi->fh`.
    unfoldable xmp_open : Bytes → ℕ → Exec r.World (ℤ × ℕ)
    xmp_open path flags = with_connection (r.open_file path flags)

    -- The result, and `*stbuf`: `st` is what the local variable holds before the call.
    unfoldable xmp_statfs : Bytes → StatFs → Exec r.World (ℤ × StatFs)
    xmp_statfs path st = with_connection (r.statfs path st)

    -- strncpy(buf, buffer, 511), which writes 511 bytes in any case.
    unfoldable copy_link : ℕ → ℤ × Bytes → Exec r.World (ℤ × Bytes)
    copy_link size (ret, buffer) = if ltb size 511 then diverge else pure (ret, take 511 buffer)

    -- The result, and the text in `buf`.
    unfoldable xmp_readlink : Bytes → ℕ → Exec r.World (ℤ × Bytes)
    xmp_readlink path size = with_connection (r.readlink path 512 []) >>= copy_link size
