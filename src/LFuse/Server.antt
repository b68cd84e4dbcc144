-- ===== src/LFuse/Server.antt =====
-- fuse/examples/l-fuse/afsfuse_server.c: the handlers of the RPC server, which send a call on to the
-- kernel at the path below /afs. A path is the text of the C string. An action whose next step is
-- undefined in C has no outcome. The lines that `printf` writes are left out, and `malloc` is taken
-- to give memory.
pub mod Paths
pub mod Calls
pub mod Transfer
use m3sec.Common.{
  ℕ, zero, suc, ◌+◌, ◌-◌, ◌%◌, ◌^◌, Bool, true, false, ◌||◌, not, List, [], ◌∷◌, ◌++◌, Option, none,
  some, ℤ, pos, negsuc, minus, minus_one, Bytes, codes, length, take, drop, ltb, ◌==◌,
  if◌then◌else◌, map,
}
use m3sec.Common.Options
use m3sec.Common.Exec.{Exec, pure, diverge, gets, ◌>>=◌, ◌>>◌}
use m3sec.LFuse.Requests.{
  Request, rmdir, mkdir, unlink, truncate, mknod, chmod, chown, utime, symlink, rename, link,
}
use m3sec.LFuse.Host.{Host, StatFs, is_err}

-- strcat, onto the `text` in a buffer of `capacity` bytes
pub strcat : ℕ → Bytes → Bytes → Option Bytes
strcat capacity text s = if ltb (length text + length s) capacity then some (text ++ s) else none

-- translatePath, on a buffer of 512 zeros. `lbuff + 4` is the terminator of "/afs".
pub translate_path : Bytes → Option Bytes
translate_path path = Options.◌>>=◌ (strcat 512 [] (codes "/afs")) (λ lbuff.
    Options.◌>>=◌ (strcat (512 - 4) (drop 4 lbuff) path) (λ tail. some (take 4 lbuff ++ tail)))

-- The labels of the switch that fall through to the increment of `p`.
abbrev letters : Bytes
letters = codes "/pueniebmcoafs."

abbrev one_of : Bytes → ℕ → Bool
one_of [] c = false
one_of (l ∷ ls) c = c == l || one_of ls c

pub is_letter : ℕ → Bool
is_letter c = one_of letters c

-- `*p` at the end of the string is the terminator.
abbrev head_char : Bytes → ℕ
head_char [] = 0
head_char (c ∷ s) = c

-- if (*p == '/') backCount++
abbrev count_slash : ℕ → ℕ → ℕ
count_slash c back_count = if c == b'/' then suc back_count else back_count

-- The loop of IsAllowedPath with the number of rounds that are left. In the default case `p` stays.
pub allowed_loop : ℕ → ℕ → Bytes → ℕ
allowed_loop zero back_count p = 1
allowed_loop (suc rounds) back_count p =
    let c = head_char p in
    let back_count' = count_slash c back_count in
    let on = allowed_loop rounds back_count' (drop 1 p) in
    let stay = allowed_loop rounds back_count p in
    if is_letter c
    then (if back_count' == 3 then 1 else on)
    else if ltb back_count 3
    then 0
    else stay

-- IsAllowedPath
pub is_allowed_path : Bytes → ℕ
is_allowed_path path = allowed_loop (length path) 0 path

module _ (h : Host) where
  -- What follows a step that may be undefined.
  abbrev on_defined : {A : Type 0} → Option Bytes → (Bytes → Exec h.World A) → Exec h.World A
  on_defined none next = diverge
  on_defined (some lbuff) next = next lbuff

  -- char lbuff[512] = {0}; translatePath(path, lbuff); and what follows.
  pub with_path : {A : Type 0} → Bytes → (Bytes → Exec h.World A) → Exec h.World A
  with_path path next = on_defined (translate_path path) next

  -- -errno
  pub minus_errno : Exec h.World ℤ
  minus_errno = gets (λ w. minus (h.errno w))

  -- if (res == -1) return -errno; return 0;
  pub checked : ℤ → Exec h.World ℤ
  checked res = if is_err res then minus_errno else pure (pos 0)

  -- if (… == -1) return -1; return 0;
  pub plain : ℤ → Exec h.World ℤ
  plain res = pure (if is_err res then minus_one else pos 0)

  rxc_rmdir : Bytes → Exec h.World ℤ
  rxc_rmdir path = with_path path λ lbuff. (h.rmdir lbuff >>= checked)

  rxc_mkdir : Bytes → ℕ → Exec h.World ℤ
  rxc_mkdir path mode = with_path path λ lbuff. (h.mkdir lbuff mode >>= checked)

  rxc_unlink : Bytes → Exec h.World ℤ
  rxc_unlink path = with_path path λ lbuff. (h.unlink lbuff >>= checked)

  rxc_truncate : Bytes → ℕ → Exec h.World ℤ
  rxc_truncate path size = with_path path λ lbuff. (h.truncate lbuff size >>= checked)

  rxc_mknod : Bytes → ℕ → ℕ → Exec h.World ℤ
  rxc_mknod path mode rdev = with_path path λ lbuff. (h.mknod lbuff mode rdev >>= checked)

  rxc_chmod : Bytes → ℕ → Exec h.World ℤ
  rxc_chmod path mode = with_path path λ lbuff. (h.chmod lbuff mode >>= plain)

  rxc_chown : Bytes → ℕ → ℕ → Exec h.World ℤ
  rxc_chown path uid gid = with_path path λ lbuff. (h.lchown lbuff uid gid >>= plain)

  rxc_utime : Bytes → ℕ → ℕ → Exec h.World ℤ
  rxc_utime path at mt = with_path path λ lbuff. (h.utime lbuff at mt >>= plain)

  -- The calls on two paths, both of which are translated.
  pub with_paths : Bytes → Bytes → (Bytes → Bytes → Exec h.World ℤ) → Exec h.World ℤ
  with_paths from to next =
      with_path from λ lbufffrom. with_path to λ lbuffto. next lbufffrom lbuffto

  rxc_symlink : Bytes → Bytes → Exec h.World ℤ
  rxc_symlink from to = with_paths from to λ a b. (h.symlink a b >>= checked)

  rxc_rename : Bytes → Bytes → Exec h.World ℤ
  rxc_rename from to = with_paths from to λ a b. (h.rename a b >>= checked)

  rxc_link : Bytes → Bytes → Exec h.World ℤ
  rxc_link from to = with_paths from to λ a b. (h.link a b >>= checked)

  -- The handler of a request.
  pub answer : Request → Exec h.World ℤ
  unfolding rxc_rmdir rxc_mkdir rxc_unlink rxc_truncate rxc_mknod rxc_chmod rxc_chown rxc_utime
      rxc_symlink rxc_rename rxc_link
  answer (rmdir path) = rxc_rmdir path
  answer (mkdir path mode) = rxc_mkdir path mode
  answer (unlink path) = rxc_unlink path
  answer (truncate path size) = rxc_truncate path size
  answer (mknod path mode rdev) = rxc_mknod path mode rdev
  answer (chmod path mode) = rxc_chmod path mode
  answer (chown path uid gid) = rxc_chown path uid gid
  answer (utime path at mt) = rxc_utime path at mt
  answer (symlink from to) = rxc_symlink from to
  answer (rename from to) = rxc_rename from to
  answer (link from to) = rxc_link from to

  -- rxc_rxc_flush and rxc_rxc_fsync do nothing.
  unfoldable rxc_flush : Bytes → Exec h.World ℤ
  rxc_flush path = with_path path λ lbuff. pure (pos 0)

  unfoldable rxc_fsync : Bytes → ℕ → Exec h.World ℤ
  rxc_fsync path isdatasync = with_path path λ lbuff. pure (pos 0)

  -- rxc_rxc_release, with the file handle of `fi`
  unfoldable rxc_release : Bytes → ℕ → Exec h.World ℤ
  rxc_release path fh =
      with_path path λ lbuff. (if fh == 0 then pure (pos 0) else (h.close (pos fh) >>= checked))

  -- The error, and `*hd`: the descriptor as a `u_int`.
  unfoldable pub opened : ℤ → Exec h.World (ℤ × ℕ)
  opened (pos fd) = pure (pos 0, fd)
  opened (negsuc n) =
      if n == 0
      then (minus_errno >>= λ error. pure (error, 2 ^ 32 - 1))
      else pure (pos 0, 2 ^ 32 - 1 - n)

  unfoldable rxc_open : Bytes → ℕ → Exec h.World (ℤ × ℕ)
  rxc_open path flags = with_path path λ lbuff. (h.open_file lbuff flags >>= opened)

  -- The data of rxc_rxc_readlink: the first `res` bytes of its 512, as a C string.
  unfoldable read_link : ℤ × Bytes → Exec h.World (ℤ × Bytes)
  read_link (pos res, target) = pure (pos 0, take res target)
  read_link (negsuc n, target) =
      if n == 0 then (minus_errno >>= λ error. pure (error, [])) else diverge

  unfoldable rxc_readlink : Bytes → Exec h.World (ℤ × Bytes)
  rxc_readlink path = with_path path λ lbuff. (h.readlink lbuff 511 >>= read_link)

  -- The members are copied into 32 bits each; where the call fails, `*stbuf` stays as it was. The
  -- memcpy of f_spare is left out.
  unfoldable copy_statfs : StatFs → StatFs
  copy_statfs st = map (λ v. v % 2 ^ 32) st

  unfoldable rxc_statfs : Bytes → StatFs → Exec h.World (ℤ × StatFs)
  rxc_statfs path stbuf = with_path path λ lbuff. do
    r ← h.statfs lbuff
    if is_err r.0
        then (minus_errno >>= λ error. pure (error, stbuf))
        else pure (pos 0, copy_statfs r.1)
