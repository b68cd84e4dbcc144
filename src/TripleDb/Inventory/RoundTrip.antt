-- ===== src/TripleDb/Inventory/RoundTrip.antt =====
-- An item that was stored is read back, and its name is found by get_item_name.
use m3sec.Common.{
  ℕ, ◌+◌, ◌-◌, ◌≤◌, ◌<◌, ◌^◌, pos, List, [], ◌∷◌, ◌++◌, some, Bytes, ◌≡◌, refl, ap, arith, length,
  take, drop, with_nul, NulFree, length-append, append_assoc, append-nil, ltb_of_le,
}
use m3sec.Common.Options.{◌>>=◌}
use m3sec.TripleDb.Inventory.{
  InventoryData, word, read_word, read_string, from_buffer, get_buffer, stored, get_item_name,
}
use m3sec.TripleDb.Inventory.Words.{length-word, read_word-word}
use m3sec.TripleDb.Inventory.Buffers.{drop-append, take-append, read_string-with_nul}
use m3sec.TripleDb.Inventory.Marshal.{pieces, joined, image, get_buffer_lem, stored-packed}

-- The numbers are words of 64 bits, and the texts hold no NUL.
pub record IsItem (d : InventoryData) : Type 0 where
  pub price : d.price < 256 ^ 8
  pub quantity : d.quantity < 256 ^ 8
  pub name : NulFree d.name
  pub sku : NulFree d.sku
  pub category : NulFree d.category
  pub vendor : NulFree d.vendor

joined-append : (xs ys : List Bytes) → joined (xs ++ ys) ≡ joined xs ++ joined ys
joined-append [] ys = refl
joined-append (x ∷ xs) ys = rw (joined-append xs ys, append_assoc x (joined xs) (joined ys))

-- Behind the pieces `xs` comes the piece `y`.
at_piece :
    (xs : List Bytes) (y : Bytes) (ys : List Bytes) (beyond : Bytes) (n : ℕ)
    → n ≡ length (joined xs)
    → drop n (joined (xs ++ y ∷ ys) ++ beyond) ≡ y ++ (joined ys ++ beyond)
at_piece xs y ys beyond n e = rw (
  joined-append xs (y ∷ ys),
  append_assoc (joined xs) (y ++ joined ys) beyond,
  drop-append (joined xs) ((y ++ joined ys) ++ beyond) n e,
  append_assoc y (joined ys) beyond,
)

-- One more piece.
length-snoc :
    (xs : List Bytes) (y : Bytes) (n : ℕ)
    → n ≡ length (joined xs)
    → n + length y ≡ length (joined (xs ++ y ∷ []))
length-snoc xs y n e =
    rw (joined-append xs (y ∷ []), append-nil y) (omega (arith, length-append (joined xs) y))

-- A terminated text.
length-text :
    (xs : List Bytes) (s : Bytes) (n : ℕ)
    → n ≡ length (joined xs)
    → n + (length s + 1) ≡ length (joined (xs ++ with_nul s ∷ []))
length-text xs s n e = omega (arith, length-snoc xs (with_nul s) n e, length-append s (0 ∷ []))

module _ (d : InventoryData) (h : IsItem d) (beyond : Bytes) where
  word_at :
      (xs ys : List Bytes) (v n : ℕ)
      → v < 256 ^ 8
      → n ≡ length (joined xs)
      → read_word 8 (drop n (joined (xs ++ word 8 v ∷ ys) ++ beyond)) ≡ some v
  word_at xs ys v n b e = rw (at_piece xs (word 8 v) ys beyond n e) (read_word-word 8 v _ b)

  string_at :
      (xs ys : List Bytes) (s : Bytes) (n : ℕ)
      → NulFree s
      → n ≡ length (joined xs)
      → read_string (drop n (joined (xs ++ with_nul s ∷ ys) ++ beyond)) ≡ some s
  string_at xs ys s n b e = rw (at_piece xs (with_nul s) ys beyond n e) (read_string-with_nul s _ b)

  -- Where the pieces begin.
  at_quantity : 8 ≡ length (joined (take 1 (pieces d)))
  at_quantity = omega (arith, length-append (word 8 d.price) [], length-word 8 d.price)

  at_name : 16 ≡ length (joined (take 2 (pieces d)))
  at_name = omega (
    arith,
    length-snoc (take 1 (pieces d)) (word 8 d.quantity) 8 at_quantity,
    length-word 8 d.quantity,
  )

  abbrev sku_offset : ℕ
  sku_offset = 16 + (length d.name + 1)

  at_sku : sku_offset ≡ length (joined (take 3 (pieces d)))
  at_sku = length-text (take 2 (pieces d)) d.name 16 at_name

  abbrev category_offset : ℕ
  category_offset = sku_offset + (length d.sku + 1)

  at_category : category_offset ≡ length (joined (take 4 (pieces d)))
  at_category = length-text (take 3 (pieces d)) d.sku sku_offset at_sku

  abbrev vendor_offset : ℕ
  vendor_offset = category_offset + (length d.category + 1)

  at_vendor : vendor_offset ≡ length (joined (take 5 (pieces d)))
  at_vendor = length-text (take 4 (pieces d)) d.category category_offset at_category

  at_end : vendor_offset + (length d.vendor + 1) ≡ length (image d)
  at_end = length-text (take 5 (pieces d)) d.vendor vendor_offset at_vendor

  -- The constructor reads the members out of a record, whatever follows it in memory and whatever
  -- its own buffer holds, and `bufLen_` becomes the record's length.
  pub from_buffer-image :
      (databuf : Bytes)
      → from_buffer databuf (image d ++ beyond)
        ≡ some (record d { buf_len = length (image d); databuf = databuf })
  unfolding from_buffer
  from_buffer-image databuf =
      rw
        (
          word_at [] (drop 1 (pieces d)) d.price 0 h.price refl,
          word_at (take 1 (pieces d)) (drop 2 (pieces d)) d.quantity 8 h.quantity at_quantity,
          string_at (take 2 (pieces d)) (drop 3 (pieces d)) d.name 16 h.name at_name,
          string_at (take 3 (pieces d)) (drop 4 (pieces d)) d.sku sku_offset h.sku at_sku,
          string_at (take 4 (pieces d)) (drop 5 (pieces d)) d.category category_offset h.category
              at_category,
          string_at (take 5 (pieces d)) [] d.vendor vendor_offset h.vendor at_vendor,
        )
        (ap (λ n. some (record d { buf_len = n; databuf = databuf })) at_end)

  -- On a record, which may be followed by anything, get_item_name returns 0 and the terminated name
  -- as the key.
  pub get_item_name-image :
      get_item_name (length (image d)) (image d ++ beyond) ≡ some (pos 0, some (with_nul d.name))
  unfolding get_item_name
  get_item_name-image =
      let rest = joined (drop 3 (pieces d)) ++ beyond in
      rw (
        ltb_of_le (length (image d)) 16 (omega (arith, at_end)),
        string_at (take 2 (pieces d)) (drop 3 (pieces d)) d.name 16 h.name at_name,
        at_piece (take 2 (pieces d)) (with_nul d.name) (drop 3 (pieces d)) beyond 16 at_name,
        take-append (with_nul d.name) rest (length d.name + 1)
            (omega (arith, length-append d.name (0 ∷ []))),
      )

  -- If the item has 64-bit numbers and texts with no NUL, and its record fits in the 500 bytes of
  -- the buffer, then `getBuffer` succeeds, and the constructor on the bytes that are stored,
  -- whatever follows them, gives an object with the same six members.
  pub store_and_load :
      (databuf : Bytes)
      → length (image d) ≤ 500
      → (get_buffer d >>= λ d'. from_buffer databuf (stored d' ++ beyond))
        ≡ some (record d { buf_len = length (image d); databuf = databuf })
  store_and_load databuf fits =
      rw (get_buffer_lem d fits, stored-packed d (image d) (500 - length (image d)))
        (from_buffer-image databuf)

  -- If the item has 64-bit numbers and texts with no NUL, and its record fits in the 500 bytes of
  -- the buffer, then get_item_name on the bytes that are stored, whatever follows them, returns 0
  -- and sets the key to the item's name with its terminator.
  store_and_index :
      length (image d) ≤ 500
      → (get_buffer d >>= λ d'. get_item_name d'.buf_len (stored d' ++ beyond))
        ≡ some (pos 0, some (with_nul d.name))
  store_and_index fits =
      rw (get_buffer_lem d fits, stored-packed d (image d) (500 - length (image d)))
        get_item_name-image
