-- ===== src/Tests/Checks.antt =====
-- A test for texts that avoid a character.
use m3sec.Common.{ℕ, Bool, true, not, ◌&&◌, [], ◌∷◌, Bytes, ◌≡◌, ◌≢◌, All, ◌==◌, arith}

abbrev pub avoids : ℕ → Bytes → Bool
avoids d [] = true
avoids d (c ∷ s) = not (c == d) && avoids d s

pub All-of_avoids : (d : ℕ) (s : Bytes) → avoids d s ≡ true → All (λ c. c ≢ d) s
All-of_avoids d [] h = tt
All-of_avoids d (c ∷ s) h = (ground arith, All-of_avoids d s (ground arith))
