-- ===== src/FuseTestFs/Slices.antt =====
-- What a read of the two constant files gives, and when it runs past the text.
use mathlib.Core.Option.{some-injective}
use m3sec.Common.{
  ℕ, ◌+◌, ◌-◌, ◌%◌, ◌^◌, ◌≤◌, ◌<◌, [], ◌∷◌, Option, none, some, pos, Bytes, with_nul, ◌≡◌, ap, ◌∙◌,
  sym, inl, inr, arith, length, take, drop, length-drop, length-append, take_all, drop_all,
  take-append_left, drop-append_left, length-take, le_or_lt, ltb_of_le, ltb_of_lt, eq_bytes, min,
  Bool-cases, eq_of_eq_bytes, if◌then◌else◌, to_int-pos,
}
use m3sec.FuseTestFs.{
  file1, file2, file1_content, file2_content, size_add, clip, copy_out, read_content, test_read,
  finish,
}

-- The abstract view: a file is its text, and a read gives the part of it in the range.
abbrev slice : Bytes → ℕ → ℕ → Bytes
slice content size offset = take size (drop offset content)

size_add-eq : (a b : ℕ) → a + b < 2 ^ 64 → size_add a b ≡ a + b
unfolding size_add
size_add-eq a b h = omega arith

-- The clipped length is that of the slice.
clip-eq :
    (content : Bytes) (size offset : ℕ)
    → offset < length content
    → offset + size < 2 ^ 64
    → clip (length content) size offset ≡ min size (length content - offset)
unfolding clip
clip-eq content size offset h w = elim (le_or_lt (offset + size) (length content)) [
  | inl le ↦
      rw (size_add-eq offset size w, ltb_of_le (length content) (offset + size) le) (omega arith)
  | inr lt ↦
      rw (size_add-eq offset size w, ltb_of_lt (length content) (offset + size) lt) (omega arith)
]

-- Inside the text, the terminator behind it is not read.
take-drop-with_nul :
    (content : Bytes) (n offset : ℕ)
    → offset + n ≤ length content
    → take n (drop offset (with_nul content)) ≡ take n (drop offset content)
take-drop-with_nul content n offset h = rw (
  drop-append_left offset content (0 ∷ []) (omega arith),
  take-append_left n (drop offset content) (0 ∷ []) (omega (arith, length-drop offset content)),
)

take-min : (n m : ℕ) (xs : Bytes) → length xs ≡ m → take (min n m) xs ≡ take n xs
take-min n m xs e = elim (le_or_lt n m) [
  | inl le ↦ ap (λ k. take k xs) (omega arith)
  | inr lt ↦ take_all (min n m) xs (omega arith) ∙ sym (take_all n xs (omega arith))
]

pub copy_out-fits :
    (object : Bytes) (offset n capacity : ℕ)
    → offset + n ≤ length object
    → n ≤ capacity
    → copy_out object offset n capacity ≡ some (take n (drop offset object))
unfolding copy_out
copy_out-fits object offset n capacity h k =
    rw (ltb_of_le (length object) (offset + n) h, ltb_of_le capacity n k)

length-slice :
    (content : Bytes) (size offset : ℕ)
    → length (slice content size offset) ≡ min size (length content - offset)
length-slice content size offset =
    omega (arith, length-take size (drop offset content), length-drop offset content)

read_content-slice :
    (content : Bytes) (size offset : ℕ)
    → offset + size < 2 ^ 64
    → read_content content size offset
      ≡ some (length (slice content size offset), slice content size offset)
unfolding read_content
read_content-slice content size offset w = elim (le_or_lt (length content) offset) [
  | inl le ↦ rw (ltb_of_le offset (length content) le) (
      let e : drop offset content ≡ [] = drop_all offset content le in
      rw (e, take_all {A = ℕ} size [] (omega arith)))
  | inr lt ↦ rw (
    ltb_of_lt offset (length content) lt,
    clip-eq content size offset lt w,
    copy_out-fits (with_nul content) offset (min size (length content - offset)) size
        (omega (arith, length-append content (0 ∷ []))) (omega arith),
    take-drop-with_nul content (min size (length content - offset)) offset (omega arith),
    take-min size (length content - offset) (drop offset content) (length-drop offset content),
    length-slice content size offset,
  )
]

-- The text of a constant file.
abbrev pub text_of : Bytes → Option Bytes
text_of path =
    if eq_bytes path file1
    then some file1_content
    else if eq_bytes path file2
    then some file2_content
    else none

finish-slice :
    (content : Bytes) (size offset : ℕ)
    → length content < 2 ^ 31
    → offset + size < 2 ^ 64
    → finish (read_content content size offset)
      ≡ some (pos (length (slice content size offset)), slice content size offset)
unfolding finish
finish-slice content size offset short w = rw (
  read_content-slice content size offset w,
  to_int-pos (length (slice content size offset)) (omega (arith, length-slice content size offset)),
)

read_content-wraps :
    (content : Bytes) (size offset : ℕ)
    → offset < length content
    → length content < 2 ^ 31
    → size < 2 ^ 64
    → 2 ^ 64 ≤ offset + size
    → read_content content size offset ≡ none
unfolding read_content clip copy_out size_add
read_content-wraps content size offset lt short small wraps = rw (
  ltb_of_lt offset (length content) lt,
  ltb_of_le (length content) ((offset + size) % 2 ^ 64) (omega arith),
  ltb_of_lt (length (with_nul content)) (offset + size)
      (omega (arith, length-append content (0 ∷ []))),
)

-- What holds of the two files holds of every path with a text.
pub by_file :
    (P : Bytes → Bytes → Type 0) (path content : Bytes)
    → P file1 file1_content
    → P file2 file2_content
    → text_of path ≡ some content
    → P path content
by_file P path content p1 p2 h = elim (Bool-cases (eq_bytes path file1)) [
  | inl e ↦
      let h' : some file1_content ≡ some content = rw e at h in
      rw (eq_of_eq_bytes path file1 e, ← some-injective file1_content content h') p1
  | inr e ↦ elim (Bool-cases (eq_bytes path file2)) [
    | inl e' ↦
        let h' : some file2_content ≡ some content = rw (e, e') at h in
        rw (eq_of_eq_bytes path file2 e', ← some-injective file2_content content h') p2
    | inr e' ↦ let h' : none ≡ some content = rw (e, e') at h in cc
  ]
]

module _ {W : Type 0} (rand : W → ℕ × W) where
  -- If a path is that of one of the two constant files, and `offset + size` does not wrap, a read
  -- writes the part of the file's text that lies in the range, returns its length, and leaves the
  -- generator alone.
  pub test_read-slice :
      (path content : Bytes) (size offset : ℕ) (w : W)
      → text_of path ≡ some content
      → offset + size < 2 ^ 64
      → test_read rand path size offset w
        ≡ (some (pos (length (slice content size offset)), slice content size offset), w)
  unfolding test_read eq_bytes
  test_read-slice path content size offset w h small =
      by_file
        (λ p c.
          test_read rand p size offset w
          ≡ (some (pos (length (slice c size offset)), slice c size offset), w))
        path content (ap (λ r. (r, w)) (finish-slice file1_content size offset (omega arith) small))
        (ap (λ r. (r, w)) (finish-slice file2_content size offset (omega arith) small)) h

  -- If `offset` lies in the text of the file and `offset + size` wraps, the length is not clipped,
  -- and the read runs past the text.
  pub test_read-wraps :
      (path content : Bytes) (size offset : ℕ) (w : W)
      → text_of path ≡ some content
      → offset < length content
      → size < 2 ^ 64
      → 2 ^ 64 ≤ offset + size
      → test_read rand path size offset w ≡ (none, w)
  unfolding test_read eq_bytes
  test_read-wraps path content size offset w h lt small wraps =
      by_file (λ p c. offset < length c → test_read rand p size offset w ≡ (none, w)) path content
        (λ l.
          ap (λ r. (finish r, w))
            (read_content-wraps file1_content size offset l (omega arith) small wraps))
        (λ l.
          ap (λ r. (finish r, w))
            (read_content-wraps file2_content size offset l (omega arith) small wraps))
        h lt
