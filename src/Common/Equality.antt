-- ===== src/Common/Equality.antt =====
-- Equality of texts, as a test.
use mathlib.Core.Path.{◌≡◌, refl}
use mathlib.Core.Bool.{Bool, true, false, ◌&&◌}
use mathlib.Core.List.{[], ◌∷◌}
use native.Mathlib.Omega.{arith}
use m3sec.Common.Numbers.{◌==◌}
use m3sec.Common.Text.{Bytes}

-- `==` on strings, and `strcmp(…) == 0` on C strings.
unfoldable pub eq_bytes : Bytes → Bytes → Bool
eq_bytes [] [] = true
eq_bytes [] (d ∷ t) = false
eq_bytes (c ∷ s) [] = false
eq_bytes (c ∷ s) (d ∷ t) = c == d && eq_bytes s t

pub eq_of_eq_bytes : (s t : Bytes) → eq_bytes s t ≡ true → s ≡ t
unfolding eq_bytes
eq_of_eq_bytes [] [] h = refl
eq_of_eq_bytes [] (d ∷ t) h = cc
eq_of_eq_bytes (c ∷ s) [] h = cc
eq_of_eq_bytes (c ∷ s) (d ∷ t) h = ground (arith, eq_of_eq_bytes s t)

pub eq_bytes_refl : (s : Bytes) → eq_bytes s s ≡ true
unfolding eq_bytes
eq_bytes_refl [] = refl
eq_bytes_refl (c ∷ s) = ground (arith, eq_bytes_refl s)
