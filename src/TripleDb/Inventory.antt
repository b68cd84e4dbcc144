-- ===== src/TripleDb/Inventory.antt =====
-- The class InventoryData and get_item_name of gettingStartedCommon.hpp: an item of the inventory
-- and the bytes it is stored as. A step that would read or write past the end of the memory it
-- has is undefined behaviour in C++ and `none` here.
pub mod Buffers
pub mod Words
pub mod Marshal
pub mod RoundTrip
use m3sec.Common.{
  ℕ, zero, suc, ◌+◌, ◌*◌, ◌/◌, ◌%◌, ℤ, pos, minus_one, List, [], ◌∷◌, ◌++◌, Option, none, some,
  Bytes, with_nul, length, take, drop, replicate, ltb, if◌then◌else◌,
}
use m3sec.Common.Options.{◌>>=◌}

-- A `double` and a `long` by their 64 bits, and the buffer with the length that is in use.
pub record InventoryData : Type 0 where
  pub category : Bytes
  pub name : Bytes
  pub vendor : Bytes
  pub sku : Bytes
  pub price : ℕ
  pub quantity : ℕ
  pub buf_len : ℕ
  pub databuf : Bytes

-- The object representation of a word of `n` bytes, the low byte first.
unfoldable pub word : ℕ → ℕ → Bytes
word zero v = []
word (suc n) v = v % 256 ∷ word n (v / 256)

-- `*((long *) buf)`, with `n` bytes
unfoldable pub read_word : ℕ → Bytes → Option ℕ
read_word zero m = some 0
read_word (suc n) [] = none
read_word (suc n) (b ∷ m) = read_word n m >>= λ v. some (b + 256 * v)

-- `std::string` of a pointer: the bytes before the first NUL, which must come.
unfoldable pub read_string : Bytes → Option Bytes
read_string [] = none
read_string (zero ∷ m) = some []
read_string (suc c ∷ m) = read_string m >>= λ s. some (suc c ∷ s)

-- `memcpy(buf + offset, src, length src)`
unfoldable pub overlay : Bytes → Bytes → Option Bytes
overlay [] buf = some buf
overlay (x ∷ src) [] = none
overlay (x ∷ src) (b ∷ buf) = overlay src buf >>= λ buf'. some (x ∷ buf')

unfoldable pub copy_at : ℕ → Bytes → Bytes → Option Bytes
copy_at zero src buf = overlay src buf
copy_at (suc n) src [] = none
copy_at (suc n) src (b ∷ buf) = copy_at n src buf >>= λ buf'. some (b ∷ buf')

-- clear
unfoldable pub clear : InventoryData → InventoryData
clear d = record d { price = 0; quantity = 0; category = []; name = []; vendor = []; sku = [] }

-- `memcpy(databuf_ + bufLen_, &x, dataLen); bufLen_ += dataLen;`
pub pack_bytes : Bytes → InventoryData → Option InventoryData
pack_bytes src d = do
  buf ← copy_at d.buf_len src d.databuf
  some (record d { databuf = buf; buf_len = d.buf_len + length src })

-- packString
pub pack_string : Bytes → InventoryData → Option InventoryData
unfolding pack_bytes
pack_string the_string d = pack_bytes (with_nul the_string) d

-- memset(databuf_, 0, 500); bufLen_ = 0;
pub zeroed : InventoryData → InventoryData
zeroed d = record d { databuf = replicate 500 0; buf_len = 0 }

-- getBuffer: the object with its buffer filled.
pub get_buffer : InventoryData → Option InventoryData
get_buffer d = do
  d1 ← pack_bytes (word 8 d.price) (zeroed d)
  d2 ← pack_bytes (word 8 d.quantity) d1
  d3 ← pack_string d.name d2
  d4 ← pack_string d.sku d3
  d5 ← pack_string d.category d4
  d6 ← pack_string d.vendor d5
  some d6

-- What `Dbt data(buff, size)` hands to the database: the first `bufLen_` bytes of the buffer.
pub stored : InventoryData → Bytes
stored d = take d.buf_len d.databuf

-- InventoryData(void *buffer): `m` is the memory from `buffer` on, `databuf` what the buffer of the
-- new object, which is not initialised, happens to hold.
pub from_buffer : Bytes → Bytes → Option InventoryData
from_buffer databuf m = do
  price ← read_word 8 m
  quantity ← read_word 8 (drop 8 m)
  name ← read_string (drop 16 m)
  let len1 = 16 + (length name + 1)
  sku ← read_string (drop len1 m)
  let len2 = len1 + (length sku + 1)
  category ← read_string (drop len2 m)
  let len3 = len2 + (length category + 1)
  vendor ← read_string (drop len3 m)
  some (record {
    category = category;
    name = name;
    vendor = vendor;
    sku = sku;
    price = price;
    quantity = quantity;
    buf_len = len3 + (length vendor + 1);
    databuf = databuf;
  })

-- get_item_name on a record of `size` bytes, with the memory from its first byte on: the code, and
-- the secondary key where one is set. The message of `errx` is left out.
pub get_item_name : ℕ → Bytes → Option (ℤ × Option Bytes)
get_item_name size m =
    let offset : ℕ = 16 in
    if ltb size offset
    then some (minus_one, none)
    else (read_string (drop offset m) >>= λ s.
        some (pos 0, some (take (length s + 1) (drop offset m))))
