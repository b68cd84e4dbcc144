-- ===== src/LFuse/Server/Calls.antt =====
-- What the server does on a request: the kernel's call on the paths below /afs, or nothing.
use m3sec.Common.{
  ℕ, ◌≤◌, ◌<◌, ◌⊎◌, ◌++◌, ℤ, pos, minus, minus_one, Bytes, codes, length, ◌≡◌, refl, inl, inr,
  le_or_lt, Bool-cases, if◌then◌else◌,
}
use m3sec.Common.Exec.{Exec, ok, running, ◌>>=◌}
use m3sec.LFuse.Requests.{
  Request, rmdir, mkdir, unlink, truncate, mknod, chmod, chown, utime, symlink, rename, link,
}
use m3sec.LFuse.Host.{Host, is_err}
use m3sec.LFuse.Server.{answer, with_path, with_paths, checked, plain, minus_errno}
use m3sec.LFuse.Server.Paths.{translate_path-fits, translate_path-overruns}

abbrev below : Bytes → Bytes
below path = codes "/afs" ++ path

-- Every path of the request satisfies the predicate.
abbrev AllPaths : (Bytes → Type 0) → Request → Type 0
AllPaths P (rmdir path) = P path
AllPaths P (unlink path) = P path
AllPaths P (mkdir path mode) = P path
AllPaths P (truncate path size) = P path
AllPaths P (chmod path mode) = P path
AllPaths P (mknod path mode rdev) = P path
AllPaths P (chown path uid gid) = P path
AllPaths P (utime path at mt) = P path
AllPaths P (symlink from to) = P from × P to
AllPaths P (rename from to) = P from × P to
AllPaths P (link from to) = P from × P to

-- Some path of the request satisfies the predicate.
abbrev AnyPath : (Bytes → Type 0) → Request → Type 0
AnyPath P (rmdir path) = P path
AnyPath P (unlink path) = P path
AnyPath P (mkdir path mode) = P path
AnyPath P (truncate path size) = P path
AnyPath P (chmod path mode) = P path
AnyPath P (mknod path mode rdev) = P path
AnyPath P (chown path uid gid) = P path
AnyPath P (utime path at mt) = P path
AnyPath P (symlink from to) = P from ⊎ P to
AnyPath P (rename from to) = P from ⊎ P to
AnyPath P (link from to) = P from ⊎ P to

abbrev pub Fits : Request → Type 0
Fits = AllPaths (λ path. length path ≤ 507)

module _ (h : Host) where
  -- The kernel's call for the request, below /afs.
  abbrev pub kernel_call : Request → Exec h.World ℤ
  kernel_call (rmdir path) = h.rmdir (below path)
  kernel_call (unlink path) = h.unlink (below path)
  kernel_call (mkdir path mode) = h.mkdir (below path) mode
  kernel_call (truncate path size) = h.truncate (below path) size
  kernel_call (chmod path mode) = h.chmod (below path) mode
  kernel_call (mknod path mode rdev) = h.mknod (below path) mode rdev
  kernel_call (chown path uid gid) = h.lchown (below path) uid gid
  kernel_call (utime path at mt) = h.utime (below path) at mt
  kernel_call (symlink from to) = h.symlink (below from) (below to)
  kernel_call (rename from to) = h.rename (below from) (below to)
  kernel_call (link from to) = h.link (below from) (below to)

  -- The code of a failed call: -errno, or -1 where the handler does not look at errno.
  abbrev pub code_of : Request → ℕ → ℤ
  code_of (chmod path mode) errno = minus_one
  code_of (chown path uid gid) errno = minus_one
  code_of (utime path at mt) errno = minus_one
  code_of (rmdir path) errno = minus errno
  code_of (unlink path) errno = minus errno
  code_of (mkdir path mode) errno = minus errno
  code_of (truncate path size) errno = minus errno
  code_of (mknod path mode rdev) errno = minus errno
  code_of (symlink from to) errno = minus errno
  code_of (rename from to) errno = minus errno
  code_of (link from to) errno = minus errno

  checked_lem :
      (res : ℤ) (w : h.World)
      → checked h res w ≡ (ok (if is_err res then minus (h.errno w) else pos 0), w)
  unfolding checked minus_errno ◌>>=◌
  checked_lem res w = elim (Bool-cases (is_err res)) [ inl e ↦ rw e refl | inr e ↦ rw e refl ]

  plain_lem :
      (res : ℤ) (w : h.World) → plain h res w ≡ (ok (if is_err res then minus_one else pos 0), w)
  unfolding plain ◌>>=◌
  plain_lem res w = refl

  -- If no path of a request is longer than 507 characters, and the kernel's call on the paths below
  -- /afs gives a result, then the server's handler makes just that call; it answers 0 if the result
  -- is not -1, and else the negative errno, or -1 for chmod, chown and utime.
  pub answer_lem :
      (r : Request) (w w1 : h.World) (res : ℤ)
      → Fits r
      → kernel_call r w ≡ (ok res, w1)
      → answer h r w ≡ (ok (if is_err res then code_of r (h.errno w1) else pos 0), w1)
  unfolding answer with_path with_paths ◌>>=◌
  answer_lem (rmdir path) w w1 res fits e =
      rw (translate_path-fits path fits, e) (checked_lem res w1)
  answer_lem (unlink path) w w1 res fits e =
      rw (translate_path-fits path fits, e) (checked_lem res w1)
  answer_lem (mkdir path mode) w w1 res fits e =
      rw (translate_path-fits path fits, e) (checked_lem res w1)
  answer_lem (truncate path size) w w1 res fits e =
      rw (translate_path-fits path fits, e) (checked_lem res w1)
  answer_lem (mknod path mode rdev) w w1 res fits e =
      rw (translate_path-fits path fits, e) (checked_lem res w1)
  answer_lem (chmod path mode) w w1 res fits e =
      rw (translate_path-fits path fits, e) (plain_lem res w1)
  answer_lem (chown path uid gid) w w1 res fits e =
      rw (translate_path-fits path fits, e) (plain_lem res w1)
  answer_lem (utime path at mt) w w1 res fits e =
      rw (translate_path-fits path fits, e) (plain_lem res w1)
  answer_lem (symlink from to) w w1 res (f, t) e =
      rw (translate_path-fits from f, translate_path-fits to t, e) (checked_lem res w1)
  answer_lem (rename from to) w w1 res (f, t) e =
      rw (translate_path-fits from f, translate_path-fits to t, e) (checked_lem res w1)
  answer_lem (link from to) w w1 res (f, t) e =
      rw (translate_path-fits from f, translate_path-fits to t, e) (checked_lem res w1)

  paths_overrun :
      (from to : Bytes) (next : Bytes → Bytes → Exec h.World ℤ) (w : h.World)
      → (507 < length from) ⊎ (507 < length to)
      → with_paths h from to next w ≡ (running, w)
  unfolding with_path with_paths ◌>>=◌
  paths_overrun from to next w (inl long) = rw (translate_path-overruns from long) refl
  paths_overrun from to next w (inr long) = elim (le_or_lt (length from) 507) [
    | inl le ↦ rw (translate_path-fits from le, translate_path-overruns to long) refl
    | inr lt ↦ rw (translate_path-overruns from lt) refl
  ]

  -- If a path of a request is longer than 507 characters, the handler overruns its buffer before the
  -- kernel is called.
  answer-overruns :
      (r : Request) (w : h.World)
      → AnyPath (λ path. 507 < length path) r
      → answer h r w ≡ (running, w)
  unfolding answer with_path ◌>>=◌
  answer-overruns (rmdir path) w long = rw (translate_path-overruns path long) refl
  answer-overruns (unlink path) w long = rw (translate_path-overruns path long) refl
  answer-overruns (mkdir path mode) w long = rw (translate_path-overruns path long) refl
  answer-overruns (truncate path size) w long = rw (translate_path-overruns path long) refl
  answer-overruns (mknod path mode rdev) w long = rw (translate_path-overruns path long) refl
  answer-overruns (chmod path mode) w long = rw (translate_path-overruns path long) refl
  answer-overruns (chown path uid gid) w long = rw (translate_path-overruns path long) refl
  answer-overruns (utime path at mt) w long = rw (translate_path-overruns path long) refl
  answer-overruns (symlink from to) w long = paths_overrun from to _ w long
  answer-overruns (rename from to) w long = paths_overrun from to _ w long
  answer-overruns (link from to) w long = paths_overrun from to _ w long
