-- ===== src/TripleDb/Load/Fields.antt =====
-- The fields of a line are found again.
use m3sec.Common.{
  eq_of_ne, ℕ, zero, suc, ◌+◌, [], ◌∷◌, ◌++◌, none, some, Bytes, c_string, ◌≡◌, ◌≢◌, refl, ap,
  arith, length, drop, All,
}
use m3sec.TripleDb.Inventory.{InventoryData}
use m3sec.TripleDb.Inventory.Buffers.{take-append}
use m3sec.TripleDb.Load.{pound, find_pound, get_next_pound, parse_line}

drop-next : (a rest : Bytes) (n : ℕ) → n ≡ length a + 1 → drop n (a ++ pound ∷ rest) ≡ rest
drop-next a rest zero e = absurd (omega arith)
drop-next [] rest (suc zero) e = refl
drop-next [] rest (suc (suc n)) e = absurd (omega arith)
drop-next (x ∷ a) rest (suc n) e = drop-next a rest n (omega arith)

abbrev pub PoundFree : Bytes → Type 0
PoundFree = All (λ c. c ≢ pound)

find_pound-append :
    (a rest : Bytes) → PoundFree a → find_pound (a ++ pound ∷ rest) ≡ some (length a)
unfolding find_pound
find_pound-append [] rest h = refl
find_pound-append (c ∷ a) rest (hc, h) = rw (eq_of_ne c pound hc, find_pound-append a rest h)

find_pound_of_PoundFree : (s : Bytes) → PoundFree s → find_pound s ≡ none
unfolding find_pound
find_pound_of_PoundFree [] h = refl
find_pound_of_PoundFree (c ∷ s) (hc, h) = rw (eq_of_ne c pound hc, find_pound_of_PoundFree s h)

-- The text before the first pound sign, and the text behind it.
get_next_pound-append :
    (a rest : Bytes) → PoundFree a → get_next_pound (a ++ pound ∷ rest) ≡ (a, rest)
unfolding get_next_pound
get_next_pound-append a rest h =
    rw (find_pound-append a rest h, take-append a (pound ∷ rest) (length a) refl)
      (ap (λ r. (a, r)) (drop-next a rest (length a + 1) (omega arith)))

-- With no pound sign left, the whole text is the field, and it is not consumed.
get_next_pound_of_PoundFree : (s : Bytes) → PoundFree s → get_next_pound s ≡ (s, s)
unfolding get_next_pound
get_next_pound_of_PoundFree s h = rw (find_pound_of_PoundFree s h)

-- The fields of a line of inventory.txt.
pub record Line : Type 0 where
  pub name : Bytes
  pub sku : Bytes
  pub price : Bytes
  pub quantity : Bytes
  pub category : Bytes
  pub vendor : Bytes

pub record IsLine (l : Line) : Type 0 where
  pub name : PoundFree l.name
  pub sku : PoundFree l.sku
  pub price : PoundFree l.price
  pub quantity : PoundFree l.quantity
  pub category : PoundFree l.category
  pub vendor : PoundFree l.vendor

-- The line with these fields, from the second field on, and as a whole.
abbrev pub tail_of : Line → Bytes
tail_of l =
    l.sku ++ pound ∷ (l.price ++ pound ∷ (l.quantity ++ pound ∷ (l.category ++ pound ∷ l.vendor)))

abbrev pub text_of : Line → Bytes
text_of l = l.name ++ pound ∷ tail_of l

module _ (strtod strtol : Bytes → ℕ) where
  -- The members that the fields give.
  abbrev pub with_line : Line → InventoryData → InventoryData
  with_line l d = record d {
    name = l.name;
    sku = l.sku;
    price = strtod (c_string l.price);
    quantity = strtol (c_string l.quantity);
    category = l.category;
    vendor = l.vendor;
  }

  -- A line of six fields that hold no pound sign is parsed into those fields.
  pub parse_line-text_of :
      (l : Line) (d : InventoryData)
      → IsLine l
      → parse_line strtod strtol (text_of l) d ≡ with_line l d
  unfolding parse_line
  parse_line-text_of l d h = rw (
    get_next_pound-append l.name (tail_of l) h.name,
    get_next_pound-append l.sku _ h.sku,
    get_next_pound-append l.price _ h.price,
    get_next_pound-append l.quantity _ h.quantity,
    get_next_pound-append l.category l.vendor h.category,
    get_next_pound_of_PoundFree l.vendor h.vendor,
  )

  -- A line with no pound sign is not refused: all four texts are the whole line, and both numbers
  -- are read from it.
  pub parse_line_of_PoundFree :
      (s : Bytes) (d : InventoryData)
      → PoundFree s
      → parse_line strtod strtol s d
        ≡ with_line
            (record { name = s; sku = s; price = s; quantity = s; category = s; vendor = s })
            d
  unfolding parse_line
  parse_line_of_PoundFree s d h = let e = get_next_pound_of_PoundFree s h in rw (e, e, e, e, e, e)
