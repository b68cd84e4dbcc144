-- ===== src/Tests/TestFsRuns.antt =====
-- The theorems about test_fs at concrete inputs.
use m3sec.Common.{ℕ, ◌+◌, [], ◌∷◌, ◌++◌, some, pos, codes, ◌≡◌, refl, arith}
use m3sec.FuseTestFs.{test_read, test_getattr, test_readdir, file1}
use m3sec.FuseTestFs.Slices.{test_read-slice}
use m3sec.FuseTestFs.Agreement.{getattr-readdir, is_named}
use m3sec.Common.{is_int, ◌||◌, eq_bytes}

-- A generator that counts.
abbrev counter : ℕ → ℕ × ℕ
counter n = (n, n + 1)

test_read-slice_example : test_read counter file1 5 6 0 ≡ (some (pos 5, codes "World"), 0)
unfolding eq_bytes
test_read-slice_example =
    test_read-slice counter file1 (codes "Hello World!" ++ 10 ∷ []) 5 6 0 refl (omega arith)

getattr-readdir_example : is_int (test_getattr (codes "/dir1")).0 0 ≡ (
    eq_bytes (codes "/dir1") (codes "/") || is_named (codes "/dir1") (test_readdir (codes "/")).1)
getattr-readdir_example = getattr-readdir (codes "/dir1")
