-- ===== src/FuseTestFs.antt =====
-- fuse/examples/test_fs/test_fs.c: the operations of a file system with three files, a link and a
-- directory. A path is the text of the C string. What reads or writes memory that is not there, or
-- is not the object's, is undefined in C and `none` here.
pub mod Slices
pub mod Agreement
pub mod Random
use m3sec.Common.{
  ℕ, zero, suc, ◌+◌, ◌-◌, ◌%◌, ◌^◌, Bool, true, false, ◌&&◌, ◌||◌, not, List, [], ◌∷◌, ◌++◌, Option,
  none, some, ℤ, pos, negsuc, minus, Bytes, codes, with_nul, length, take, drop, ltb, ◌==◌,
  if◌then◌else◌, eq_bytes, to_int,
}
use m3sec.Common.Options.{◌>>=◌}
use Prim.Native.Nat.{bit_or}

abbrev enoent : ℕ
enoent = 2

abbrev eacces : ℕ
eacces = 13

-- S_IFDIR, S_IFREG and S_IFLNK.
abbrev s_ifdir : ℕ
s_ifdir = 16384

abbrev s_ifreg : ℕ
s_ifreg = 32768

abbrev s_iflnk : ℕ
s_iflnk = 40960

abbrev pub file1 : Bytes
file1 = codes "/file1"

abbrev pub file1_content : Bytes
file1_content = codes "Hello World!" ++ 10 ∷ []

abbrev pub file2 : Bytes
file2 = codes "/file2"

abbrev pub file2_content : Bytes
file2_content = codes "Hello Hell!" ++ 10 ∷ []

abbrev pub file3 : Bytes
file3 = codes "/file3"

abbrev slink1 : Bytes
slink1 = codes "/link1"

abbrev pub dir1 : Bytes
dir1 = codes "/dir1"

abbrev file3_size : ℕ
file3_size = 20

abbrev alphabet : ℕ
alphabet = 26

-- The members of `struct stat` that are written; the others are 0.
pub record Stat : Type 0 where
  pub st_mode : ℕ
  pub st_nlink : ℕ
  pub st_size : ℕ

abbrev stat_zero : Stat
stat_zero = record { st_mode = 0; st_nlink = 0; st_size = 0 }

-- test_getattr: the result, and what `stbuf` holds. The modes are octal in the source: 0755 is 493,
-- 0775 is 509 and 0444 is 292.
pub test_getattr : Bytes → ℤ × Stat
test_getattr path =
    if eq_bytes path (codes "/")
    then (pos 0, record stat_zero { st_mode = bit_or s_ifdir 493; st_nlink = 2 })
    else if eq_bytes path dir1
    then (pos 0, record stat_zero { st_mode = bit_or s_ifdir 493; st_nlink = 1 })
    else if eq_bytes path file1
    then (
      pos 0,
      record { st_mode = bit_or s_ifreg 509; st_nlink = 1; st_size = length file1_content },
    )
    else if eq_bytes path file2
    then (
      pos 0,
      record { st_mode = bit_or s_ifreg 292; st_nlink = 1; st_size = length file2_content },
    )
    else if eq_bytes path file3
    then (pos 0, record { st_mode = bit_or s_ifreg 292; st_nlink = 1; st_size = file3_size })
    else if eq_bytes path slink1
    then (pos 0, record stat_zero { st_mode = bit_or s_iflnk 493; st_nlink = 1 })
    else (minus enoent, stat_zero)

-- test_readdir: the result, and the names that are handed to `filler`, in order. The path of a file
-- from its second character on is its name.
pub test_readdir : Bytes → ℤ × List Bytes
test_readdir path =
    if not (eq_bytes path (codes "/"))
    then (minus enoent, [])
    else (let dot = codes "." in
        let dotdot = codes ".." in
        (
          pos 0,
          dot
              ∷ dotdot
              ∷ drop 1 file1
              ∷ dot
              ∷ dotdot
              ∷ drop 1 file2
              ∷ dot
              ∷ dotdot
              ∷ drop 1 file3
              ∷ dot
              ∷ dotdot
              ∷ drop 1 slink1
              ∷ dot
              ∷ dotdot
              ∷ drop 1 dir1
              ∷ [],
        ))

pub is_file : Bytes → Bool
is_file path = eq_bytes path file1 || (eq_bytes path file2 || eq_bytes path file3)

-- test_open. O_RDONLY is 0.
pub test_open : Bytes → ℕ → ℤ
unfolding is_file
test_open path flags =
    if not (is_file path)
    then minus enoent
    else if is_file path && not (flags % 4 == 0)
    then minus eacces
    else pos 0

-- `memcpy(buf, object + offset, n)` with `capacity` bytes in `buf`.
pub copy_out : Bytes → ℕ → ℕ → ℕ → Option Bytes
copy_out object offset n capacity =
    if ltb (length object) (offset + n) || ltb capacity n
    then none
    else some (take n (drop offset object))

-- `offset + size` on `size_t`; an `off_t` that is negative stands for its residue.
pub size_add : ℕ → ℕ → ℕ
size_add a b = (a + b) % 2 ^ 64

-- The part of the range that lies below `len`: if (offset + size > len) size = len - offset;
pub clip : ℕ → ℕ → ℕ → ℕ
clip len size offset = if ltb len (size_add offset size) then len - offset else size

-- The branches for the two constant files. A literal has its terminator behind it.
pub read_content : Bytes → ℕ → ℕ → Option (ℕ × Bytes)
read_content content size offset =
    let len = length content in
    if ltb offset len
    then (copy_out (with_nul content) offset (clip len size offset) size >>= λ bytes.
        some (clip len size offset, bytes))
    else some (0, [])

-- `return size`
pub finish : Option (ℕ × Bytes) → Option (ℤ × Bytes)
finish none = none
finish (some (size, bytes)) = some (to_int size, bytes)

-- randString[len-1] = '\n'
pub end_line : Bytes → Option Bytes
end_line [] = none
end_line (c ∷ []) = some (10 ∷ [])
end_line (c ∷ d ∷ s) = end_line (d ∷ s) >>= λ t. some (c ∷ t)

module _ {W : Type 0} (rand : W → ℕ × W) where
  -- for (i = 0; i < len; i++) …: the text, and the state of the generator.
  pub random_text : ℕ → W → Bytes × W
  random_text zero w = ([], w)
  random_text (suc n) w =
      let (r, w1) = rand w in
      let (rest, w2) = random_text n w1 in (((r % alphabet) + b'A') ∷ rest, w2)

  -- The branch for the third file: `len` bytes are copied, whatever `size` is.
  pub read_random : ℕ → ℕ → W → Option (ℕ × Bytes) × W
  read_random size offset w =
      let (r, w1) = rand w in
      let len = r % file3_size in
      let (text, w2) = random_text len w1 in
      (
        (end_line text >>= λ rand_string.
            if ltb offset len
            then (copy_out rand_string offset len size >>= λ bytes.
                some (clip len size offset, bytes))
            else some (0, [])),
        w2,
      )

  -- test_read: the result, and the bytes that are written to `buf`, which has `size` bytes.
  pub test_read : Bytes → ℕ → ℕ → W → Option (ℤ × Bytes) × W
  unfolding is_file finish
  test_read path size offset w =
      if not (is_file path)
      then (some (minus enoent, []), w)
      else if eq_bytes path file1
      then (finish (read_content file1_content size offset), w)
      else if eq_bytes path file2
      then (finish (read_content file2_content size offset), w)
      else if eq_bytes path file3
      then (let (r, w') = read_random size offset w in (finish r, w'))
      else (some (to_int size, []), w)

-- The calls of the operating system: the error number, if the call returned -1.
record Kernel : Type 1 where
  pub World : Type 0
  pub symlink : Bytes → Bytes → World → Option ℕ × World
  pub mkdir : Bytes → ℕ → World → Option ℕ × World

-- if (res == -1) return -errno; return 0;
result_of : Option ℕ → ℤ
result_of none = pos 0
result_of (some errno) = minus errno

module _ (k : Kernel) where
  unfoldable test_symlink : Bytes → Bytes → k.World → ℤ × k.World
  unfolding result_of
  test_symlink from to w = let (res, w') = k.symlink from to w in (result_of res, w')

  unfoldable test_mkdir : Bytes → ℕ → k.World → ℤ × k.World
  unfolding result_of
  test_mkdir path mode w = let (res, w') = k.mkdir path mode w in (result_of res, w')
