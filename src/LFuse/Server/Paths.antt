-- ===== src/LFuse/Server/Paths.antt =====
-- Which paths the server makes, and which ones getattr accepts.
use m3sec.Common.{
  ℕ, zero, suc, ◌+◌, ◌≤◌, ◌<◌, Bool, true, ◌&&◌, [], ◌∷◌, ◌++◌, none, some, Bytes, codes, length,
  ◌==◌, ◌≡◌, refl, inl, inr, arith, if◌then◌else◌, Bool-cases, ltb_of_lt, ltb_of_le, eq_of_ne,
}
use m3sec.LFuse.Server.{translate_path, strcat, is_allowed_path, allowed_loop, is_letter}

strcat-fits :
    (capacity : ℕ) (text s : Bytes)
    → length text + length s < capacity
    → strcat capacity text s ≡ some (text ++ s)
unfolding strcat
strcat-fits capacity text s h = rw (ltb_of_lt (length text + length s) capacity h) refl

strcat-overruns :
    (capacity : ℕ) (text s : Bytes)
    → capacity ≤ length text + length s
    → strcat capacity text s ≡ none
unfolding strcat
strcat-overruns capacity text s h = rw (ltb_of_le (length text + length s) capacity h) refl

-- A path of at most 507 characters fits in the buffer behind "/afs".
pub translate_path-fits :
    (path : Bytes) → length path ≤ 507 → translate_path path ≡ some (codes "/afs" ++ path)
unfolding translate_path
translate_path-fits path h =
    rw (strcat-fits 512 [] (codes "/afs") (omega arith), strcat-fits 508 [] path (omega arith))

pub translate_path-overruns : (path : Bytes) → 507 < length path → translate_path path ≡ none
unfolding translate_path
translate_path-overruns path h =
    rw (strcat-fits 512 [] (codes "/afs") (omega arith), strcat-overruns 508 [] path (omega arith))

-- The part of a path up to its `n`th slash.
abbrev pub up_to_slash : ℕ → Bytes → Bytes
up_to_slash zero s = []
up_to_slash (suc n) [] = []
up_to_slash (suc n) (c ∷ s) =
    let rest = up_to_slash n s in
    let more = up_to_slash (suc n) s in c ∷ (if c == b'/' then rest else more)

abbrev pub all_letters : Bytes → Bool
all_letters [] = true
all_letters (c ∷ s) = is_letter c && all_letters s

eq_of_test : (a b : ℕ) → (a == b) ≡ true → a ≡ b
eq_of_test a b h = ground arith

slash-letter : is_letter b'/' ≡ true
unfolding is_letter
slash-letter = refl

-- A slash is the third one, or the loop goes on with one more counted.
after_slash :
    (back_count n : ℕ) (s : Bytes)
    → back_count + suc n ≡ 3
    → ((m : ℕ)
        → n ≡ suc m
        → allowed_loop (length s) (suc back_count) s
          ≡ (if all_letters (up_to_slash (suc m) s) then 1 else 0))
    → (if suc back_count == 3 then 1 else allowed_loop (length s) (suc back_count) s)
      ≡ (if all_letters (up_to_slash n s) then 1 else 0)
after_slash back_count zero s h ih = let e : back_count ≡ 2 = omega arith in rw e refl
after_slash back_count (suc m) s h ih =
    rw (eq_of_ne (suc back_count) 3 (λ q. absurd (omega arith)), ih m refl)

loop_lem :
    (back_count n : ℕ) (p : Bytes)
    → back_count + suc n ≡ 3
    → allowed_loop (length p) back_count p ≡ (if all_letters (up_to_slash (suc n) p) then 1 else 0)
unfolding allowed_loop
loop_lem back_count n [] h = refl
loop_lem back_count n (c ∷ s) h = elim (Bool-cases (c == b'/')) [
  | inl e ↦
      rw (eq_of_test c b'/' e, slash-letter)
        (after_slash back_count n s h (λ m q. loop_lem (suc back_count) m s (omega arith)))
  | inr e ↦ elim (Bool-cases (is_letter c)) [
    | inl l ↦
        rw (e, l, eq_of_ne back_count 3 (λ q. absurd (omega arith)), loop_lem back_count n s h)
    | inr l ↦ rw (e, l, ltb_of_lt back_count 3 (omega arith))
  ]
]

-- IsAllowedPath gives 1 or 0: whether each character up to the third slash is one of those that its
-- switch lists. What stands behind the third slash is not looked at.
pub is_allowed_path_lem :
    (path : Bytes) → is_allowed_path path ≡ (if all_letters (up_to_slash 3 path) then 1 else 0)
unfolding is_allowed_path
is_allowed_path_lem path = loop_lem 0 2 path refl
