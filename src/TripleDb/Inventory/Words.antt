-- ===== src/TripleDb/Inventory/Words.antt =====
-- Words as bytes.
use m3sec.Common.{ℕ, zero, suc, ◌/◌, ◌^◌, ◌<◌, ◌++◌, some, Bytes, ◌≡◌, refl, ap, arith, length}
use m3sec.TripleDb.Inventory.{word, read_word}

pub length-word : (n v : ℕ) → length (word n v) ≡ n
unfolding word
length-word zero v = refl
length-word (suc n) v = ap suc (length-word n (v / 256))

-- A word that fits in `n` bytes is read back.
pub read_word-word :
    (n v : ℕ) (beyond : Bytes) → v < 256 ^ n → read_word n (word n v ++ beyond) ≡ some v
unfolding read_word word
read_word-word zero v beyond h = ap some (omega arith)
read_word-word (suc n) v beyond h =
    rw (read_word-word n (v / 256) beyond (omega arith)) (ap some (omega arith))
