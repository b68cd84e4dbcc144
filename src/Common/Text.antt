-- ===== src/Common/Text.antt =====
-- Bytes and C strings. A pointer is modelled by the bytes that can be read from it on.
use Prim.Native.Char.{code}
use m3sec.Common.Lists.{All}
use Prim.Native.Nat.{ℕ, zero, suc}
use Prim.Native.String.{String}
use mathlib.Core.Path.{◌≡◌, refl, ap}
use mathlib.Core.Logic.{◌≢◌}
use mathlib.Core.List.{List, [], ◌∷◌, ◌++◌}

abbrev pub Bytes : Type 0
Bytes = List ℕ

-- The bytes of an ASCII literal, without the terminator.
abbrev pub codes : String → Bytes
codes String.[] = []
codes (String.◌∷◌ c s) = code c ∷ codes s

-- The text that a `char *` stands for: the bytes up to the first NUL.
unfoldable pub c_string : Bytes → Bytes
c_string [] = []
c_string (zero ∷ m) = []
c_string (suc c ∷ m) = suc c ∷ c_string m

-- `s.data()` with `s.size() + 1` bytes: the text and its terminator.
abbrev pub with_nul : Bytes → Bytes
with_nul s = s ++ 0 ∷ []

abbrev pub NulFree : Bytes → Type 0
NulFree = All (λ c. c ≢ 0)

-- There is a NUL inside the bytes.
abbrev pub HasNul : Bytes → Type 0
HasNul [] = ⊥
HasNul (zero ∷ m) = Unit
HasNul (suc c ∷ m) = HasNul m

-- What follows the terminator does not matter.
pub c_string-append_of_HasNul : (m beyond : Bytes) → HasNul m → c_string (m ++ beyond) ≡ c_string m
unfolding c_string
c_string-append_of_HasNul [] beyond h = absurd h
c_string-append_of_HasNul (zero ∷ m) beyond h = refl
c_string-append_of_HasNul (suc c ∷ m) beyond h =
    ap (λ t. suc c ∷ t) (c_string-append_of_HasNul m beyond h)

pub c_string_of_NulFree : (s : Bytes) → NulFree s → c_string s ≡ s
unfolding c_string
c_string_of_NulFree [] h = refl
c_string_of_NulFree (zero ∷ s) (h, _) = absurd (h refl)
c_string_of_NulFree (suc c ∷ s) (_, h) = ap (λ t. suc c ∷ t) (c_string_of_NulFree s h)
