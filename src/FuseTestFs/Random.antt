-- ===== src/FuseTestFs/Random.antt =====
-- The third file, which is made up anew at every read.
use m3sec.Common.{
  ℕ, zero, suc, ◌+◌, ◌%◌, ◌^◌, ◌≤◌, ◌<◌, ◌⊎◌, [], ◌∷◌, ◌++◌, Option, none, some, pos, Bytes, ◌≡◌,
  refl, ap, ◌∙◌, inl, inr, arith, length, length-append, Bool-cases, if◌then◌else◌, take_all,
  ltb_of_lt, eq_bytes, ltb, to_int-pos,
}
use m3sec.Common.Options.{◌>>=◌}
use m3sec.FuseTestFs.{
  file3, clip, size_add, copy_out, random_text, end_line, read_random, test_read, finish,
}
use m3sec.FuseTestFs.Slices.{copy_out-fits}

module _ {W : Type 0} (rand : W → ℕ × W) where
  length-random_text : (n : ℕ) (w : W) → length (random_text rand n w).0 ≡ n
  unfolding random_text
  length-random_text zero w = refl
  length-random_text (suc n) w = ap suc (length-random_text n (rand w).1)

-- With a character in the text, the last one becomes the newline.
end_line-snoc :
    (s : Bytes)
    → 0 < length s
    → (t : Bytes) × ((end_line s ≡ some (t ++ 10 ∷ [])) × (length t + 1 ≡ length s))
unfolding end_line
end_line-snoc [] h = absurd (omega arith)
end_line-snoc (c ∷ []) h = ([], (refl, omega arith))
end_line-snoc (c ∷ d ∷ s) h =
    let (t, (e, l)) = end_line-snoc (d ∷ s) (omega arith) in (c ∷ t, (rw e, omega arith))

-- The branch for the third file, behind the generator.
abbrev serve : Bytes → ℕ → ℕ → ℕ → Option (ℕ × Bytes)
serve text len size offset = end_line text >>= λ rand_string.
    if ltb offset len
    then (copy_out rand_string offset len size >>= λ bytes. some (clip len size offset, bytes))
    else some (0, [])

clip_all : (len size : ℕ) → len ≤ size → size < 2 ^ 64 → clip len size 0 ≡ len
unfolding clip size_add
clip_all len size fits small = ground arith

serve-fits :
    (text t : Bytes) (len size : ℕ)
    → end_line text ≡ some (t ++ 10 ∷ [])
    → length t + 1 ≡ len
    → len ≤ size
    → size < 2 ^ 64
    → serve text len size 0 ≡ some (len, t ++ 10 ∷ [])
serve-fits text t len size e l fits small = rw (
  e,
  ltb_of_lt 0 len (omega arith),
  copy_out-fits (t ++ 10 ∷ []) 0 len size (omega (arith, length-append t (10 ∷ []))) fits,
  clip_all len size fits small,
  take_all len (t ++ 10 ∷ []) (omega (arith, length-append t (10 ∷ []))),
)

-- A text of the drawn length, copied from behind its start or into a smaller buffer.
copy_out-faults :
    (object : Bytes) (offset n capacity : ℕ)
    → length object ≡ n
    → (0 < offset) ⊎ (capacity < n)
    → copy_out object offset n capacity ≡ none
unfolding copy_out
copy_out-faults object offset n capacity l h = elim h [
  | inl o ↦ rw (ltb_of_lt (length object) (offset + n) (omega arith)) refl
  | inr c ↦ elim (Bool-cases (ltb (length object) (offset + n))) [
    | inl e ↦ rw e refl
    | inr e ↦ rw (e, ltb_of_lt capacity n c) refl
  ]
]

serve-faults :
    (text : Bytes) (len size offset : ℕ)
    → length text ≡ len
    → offset < len
    → (0 < offset) ⊎ (size < len)
    → serve text len size offset ≡ none
serve-faults text len size offset l lt bad =
    let (t, (e, k)) = end_line-snoc text (omega arith) in
    rw (
      e,
      ltb_of_lt offset len lt,
      copy_out-faults (t ++ 10 ∷ []) offset len size (omega (arith, length-append t (10 ∷ []))) bad,
    )

module _ {W : Type 0} (rand : W → ℕ × W) where
  -- If the length that is drawn for the third file is not 0, and it fits in the buffer, then a read
  -- from the start returns that length and writes so many bytes, the last of which is a newline.
  test_read-random :
      (size : ℕ) (w : W)
      → 0 < (rand w).0 % 20
      → (rand w).0 % 20 ≤ size
      → size < 2 ^ 64
      → (t : Bytes) × (((test_read rand file3 size 0 w).0
            ≡ some (pos ((rand w).0 % 20), t ++ 10 ∷ []))
          × (length t + 1 ≡ (rand w).0 % 20))
  unfolding test_read read_random eq_bytes finish
  test_read-random size w h fits small =
      let (t, (e, l)) =
        end_line-snoc (random_text rand ((rand w).0 % 20) (rand w).1).0
          (omega (arith, length-random_text rand ((rand w).0 % 20) (rand w).1)) in
      (
        t,
        (
          ap finish (
                serve-fits (random_text rand ((rand w).0 % 20) (rand w).1).0 t ((rand w).0 % 20)
                  size e (omega (arith, length-random_text rand ((rand w).0 % 20) (rand w).1)) fits
                  small)
              ∙ ap (λ r. some (r, t ++ 10 ∷ [])) (to_int-pos ((rand w).0 % 20) (omega arith)),
          omega (arith, length-random_text rand ((rand w).0 % 20) (rand w).1),
        ),
      )

  -- If the length that is drawn for the third file is 0, or it is larger than an offset that is not
  -- 0, or it is larger than the buffer and the read is from the start, a read leaves its objects.
  test_read-faults :
      (size offset : ℕ) (w : W)
      → ((rand w).0 % 20 ≡ 0)
        ⊎ ((offset < (rand w).0 % 20) × ((0 < offset) ⊎ (size < (rand w).0 % 20)))
      → (test_read rand file3 size offset w).0 ≡ none
  unfolding test_read read_random eq_bytes finish random_text end_line
  test_read-faults size offset w h = elim h [
    | inl z ↦ rw z refl
    | inr (lt, bad) ↦ ap finish (
        serve-faults (random_text rand ((rand w).0 % 20) (rand w).1).0 ((rand w).0 % 20) size offset
          (length-random_text rand ((rand w).0 % 20) (rand w).1) lt bad)
  ]
