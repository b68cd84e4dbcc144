-- ===== src/TripleDb/Inventory/Marshal.antt =====
-- What `getBuffer` leaves in the buffer, and when it runs over its end.
use m3sec.Common.{
  le_or_lt, ℕ, ◌+◌, ◌-◌, ◌≤◌, ◌<◌, List, [], ◌∷◌, ◌++◌, Option, none, some, Bytes, ◌≡◌, refl, ap,
  arith, length, replicate, with_nul, length-append, append_assoc, append-nil, inl, inr, drop,
}
use m3sec.Common.Options.{◌>>=◌}
use m3sec.TripleDb.Inventory.{
  InventoryData, word, pack_bytes, pack_string, zeroed, get_buffer, stored,
}
use m3sec.TripleDb.Inventory.Words.{length-word}
use m3sec.TripleDb.Inventory.Buffers.{copy_at-fits, copy_at-overruns, take-append}

-- The six pieces of a record, in the order in which they are stored.
abbrev pub pieces : InventoryData → List Bytes
pieces d =
    word 8 d.price
    ∷ word 8 d.quantity
    ∷ with_nul d.name
    ∷ with_nul d.sku
    ∷ with_nul d.category
    ∷ with_nul d.vendor
    ∷ []

abbrev pub joined : List Bytes → Bytes
joined [] = []
joined (x ∷ xs) = x ++ joined xs

-- A record as bytes: price, quantity, and four terminated texts.
abbrev pub image : InventoryData → Bytes
image d = joined (pieces d)

-- The object with `c` in its buffer, and `k` zeros behind it.
abbrev pub packed : InventoryData → Bytes → ℕ → InventoryData
packed d c k = record d { buf_len = length c; databuf = c ++ replicate k 0 }

pack_all : List Bytes → InventoryData → Option InventoryData
pack_all [] d = some d
pack_all (x ∷ xs) d = pack_bytes x d >>= pack_all xs

pack_bytes-fits :
    (x : Bytes) (d : InventoryData) (c : Bytes) (k : ℕ)
    → length x ≤ k
    → pack_bytes x (packed d c k) ≡ some (packed d (c ++ x) (k - length x))
unfolding pack_bytes
pack_bytes-fits x d c k h =
    rw (copy_at-fits c x k h, length-append c x, append_assoc c x (replicate (k - length x) 0))

pack_bytes-overruns :
    (x : Bytes) (d : InventoryData) (c : Bytes) (k : ℕ)
    → k < length x
    → pack_bytes x (packed d c k) ≡ none
unfolding pack_bytes
pack_bytes-overruns x d c k h = rw (copy_at-overruns c x k h)

pack_all-fits :
    (xs : List Bytes) (d : InventoryData) (c : Bytes) (k : ℕ)
    → length (joined xs) ≤ k
    → pack_all xs (packed d c k) ≡ some (packed d (c ++ joined xs) (k - length (joined xs)))
unfolding pack_all
pack_all-fits [] d c k h = rw (append-nil c) (ap (λ n. some (packed d c n)) (omega arith))
pack_all-fits (x ∷ xs) d c k h =
    rw
      (
        pack_bytes-fits x d c k (omega (arith, length-append x (joined xs))),
        pack_all-fits xs d (c ++ x) (k - length x) (omega (arith, length-append x (joined xs))),
        append_assoc c x (joined xs),
      )
      (ap (λ n. some (packed d (c ++ (x ++ joined xs)) n))
        (omega (arith, length-append x (joined xs))))

pack_all-overruns :
    (xs : List Bytes) (d : InventoryData) (c : Bytes) (k : ℕ)
    → k < length (joined xs)
    → pack_all xs (packed d c k) ≡ none
unfolding pack_all
pack_all-overruns [] d c k h = absurd (omega arith)
pack_all-overruns (x ∷ xs) d c k h = elim (le_or_lt (length x) k) [
  | inl fits ↦ rw (
    pack_bytes-fits x d c k fits,
    pack_all-overruns xs d (c ++ x) (k - length x) (omega (arith, length-append x (joined xs))),
  )
  | inr over ↦ rw (pack_bytes-overruns x d c k over)
]

-- If the record has at most 500 bytes, `getBuffer` succeeds: the buffer holds the record followed by
-- zeros, `bufLen_` is the record's length, and no other member of the object changes.
pub get_buffer_lem :
    (d : InventoryData)
    → length (image d) ≤ 500
    → get_buffer d ≡ some (packed d (image d) (500 - length (image d)))
unfolding get_buffer pack_all zeroed pack_string
get_buffer_lem d h = pack_all-fits (pieces d) d [] 500 h

-- If the record has more than 500 bytes, `getBuffer` writes past the end of the buffer.
pub get_buffer-overruns : (d : InventoryData) → 500 < length (image d) → get_buffer d ≡ none
unfolding get_buffer pack_all zeroed pack_string
get_buffer-overruns d h = pack_all-overruns (pieces d) d [] 500 h

-- The length of the record: 20 bytes and the four texts.
pub length-image :
    (d : InventoryData)
    → length (image d) ≡ 20 + (length d.name + length d.sku + length d.category + length d.vendor)
length-image d = omega (
  arith,
  length-word 8 d.price,
  length-word 8 d.quantity,
  length-append (word 8 d.price) (joined (drop 1 (pieces d))),
  length-append (word 8 d.quantity) (joined (drop 2 (pieces d))),
  length-append (with_nul d.name) (joined (drop 3 (pieces d))),
  length-append (with_nul d.sku) (joined (drop 4 (pieces d))),
  length-append (with_nul d.category) (joined (drop 5 (pieces d))),
  length-append (with_nul d.vendor) [],
  length-append d.name (0 ∷ []),
  length-append d.sku (0 ∷ []),
  length-append d.category (0 ∷ []),
  length-append d.vendor (0 ∷ []),
)

-- What is handed to the database is the record.
pub stored-packed : (d : InventoryData) (c : Bytes) (k : ℕ) → stored (packed d c k) ≡ c
unfolding stored
stored-packed d c k = take-append c (replicate k 0) (length c) refl
