-- ===== src/FuseTestFs/Agreement.antt =====
-- The operations agree on which paths there are, and which are files.
use m3sec.Common.{
  ℕ, ◌/◌, ◌%◌, Bool, true, false, not, ◌&&◌, ◌||◌, List, [], ◌∷◌, ◌++◌, some, pos, is_int, Bytes,
  codes, ◌≡◌, refl, inl, inr, arith, length, eq_bytes, eq_of_eq_bytes, Bool-cases,
}
use mathlib.Core.Logic.{◌↔◌}
use m3sec.FuseTestFs.{file1, file2, file3, is_file, test_getattr, test_readdir, test_open}
use m3sec.FuseTestFs.Slices.{text_of, by_file}

-- The path is the root's followed by one of the names, the dots left out.
abbrev pub is_named : Bytes → List Bytes → Bool
is_named path [] = false
is_named path (n ∷ ns) =
    (not (eq_bytes n (codes "."))
      && (not (eq_bytes n (codes "..")) && eq_bytes path (codes "/" ++ n)))
    || is_named path ns

-- test_getattr succeeds at a path exactly when it is the root or the root's listing names it.
pub getattr-readdir :
    (path : Bytes)
    → is_int (test_getattr path).0 0
      ≡ (eq_bytes path (codes "/") || is_named path (test_readdir (codes "/")).1)
unfolding test_getattr test_readdir eq_bytes
getattr-readdir path = ground arith

-- test_getattr succeeds and says S_IFREG.
abbrev IsRegular : Bytes → Type 0
IsRegular path = ((test_getattr path).0 ≡ pos 0) × ((test_getattr path).1.st_mode / 4096 ≡ 8)

file-IsRegular : (path : Bytes) → is_file path ≡ true → IsRegular path
unfolding is_file test_getattr eq_bytes
file-IsRegular path h = elim (Bool-cases (eq_bytes path file1)) [
  | inl e ↦ rw (eq_of_eq_bytes path file1 e) (refl, refl)
  | inr e ↦ elim (Bool-cases (eq_bytes path file2)) [
    | inl e' ↦ rw (eq_of_eq_bytes path file2 e') (refl, refl)
    | inr e' ↦
        let h' : eq_bytes path file3 ≡ true = rw (e, e') at h in
        rw (eq_of_eq_bytes path file3 h') (refl, refl)
  ]
]

file_of_IsRegular : (path : Bytes) → IsRegular path → is_file path ≡ true
unfolding is_file test_getattr
file_of_IsRegular path (h, k) = ground arith

open-file :
    (path : Bytes) (flags : ℕ)
    → test_open path flags ≡ pos 0
    → (is_file path ≡ true) × (flags % 4 ≡ 0)
unfolding test_open
open-file path flags h = ground arith

open_of_file :
    (path : Bytes) (flags : ℕ) → is_file path ≡ true → flags % 4 ≡ 0 → test_open path flags ≡ pos 0
unfolding test_open
open_of_file path flags h k = rw (h, k) refl

-- test_open succeeds exactly when the path is a regular file's and the access mode is O_RDONLY.
open-IsRegular :
    (path : Bytes) (flags : ℕ) → (test_open path flags ≡ pos 0) ↔ (IsRegular path × (flags % 4 ≡ 0))
open-IsRegular path flags = (
  λ h. (let (f, k) = open-file path flags h in (file-IsRegular path f, k)),
  λ r. open_of_file path flags (file_of_IsRegular path r.0) r.1,
)

-- The size that test_getattr gives for a constant file is that of its text.
getattr-text_of :
    (path content : Bytes)
    → text_of path ≡ some content
    → (test_getattr path).1.st_size ≡ length content
unfolding test_getattr eq_bytes
getattr-text_of path content h =
    by_file (λ p c. (test_getattr p).1.st_size ≡ length c) path content refl refl h
