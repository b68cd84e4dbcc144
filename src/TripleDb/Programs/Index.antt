-- ===== src/TripleDb/Programs/Index.antt =====
-- Which items of a table have a name, and that the index of the names leads to them.
use m3sec.Common.{
  ◌≤◌, arith, List, [], ◌∷◌, map, Bytes, with_nul, length, eq_bytes, eq_of_ne, NulFree, All,
  Bool-cases, inl, inr, if◌then◌else◌, ◌≡◌, refl, sym,
}
use m3sec.TripleDb.Inventory.RoundTrip.{IsItem}
use m3sec.TripleDb.Programs.Laws.{indexed}
use m3sec.TripleDb.Programs.Loading.{item_key}
use m3sec.TripleDb.Programs.Showing.{Entry, item_record}

-- The items of a name.
unfoldable pub named : Bytes → List Entry → List Entry
named name [] = []
named name (e ∷ es) = let rest = named name es in if eq_bytes e.0.name name then e ∷ rest else rest

eq_bytes-with_nul :
    (s s' : Bytes) → NulFree s → NulFree s' → eq_bytes (with_nul s) (with_nul s') ≡ eq_bytes s s'
unfolding eq_bytes
eq_bytes-with_nul [] [] h k = refl
eq_bytes-with_nul [] (d ∷ s') h (kd, k) = rw (eq_of_ne 0 d (λ e. kd (sym e))) refl
eq_bytes-with_nul (c ∷ s) [] (hc, h) k = rw (eq_of_ne c 0 hc) refl
eq_bytes-with_nul (c ∷ s) (d ∷ s') (hc, h) (kd, k) = rw (eq_bytes-with_nul s s' h k) refl

-- The index of a table of items has the items of the name.
pub indexed-records :
    (name : Bytes) (es : List Entry)
    → NulFree name
    → All (λ e. IsItem e.0) es
    → indexed (with_nul name) (map item_record es) ≡ map item_record (named name es)
unfolding indexed named
indexed-records name [] free h = refl
indexed-records name ((d, v) ∷ es) free (isi, h) =
    rw (item_key d isi, eq_bytes-with_nul d.name name isi.name free, indexed-records name es free h)
      (elim (Bool-cases (eq_bytes d.name name)) [ inl e ↦ rw e refl | inr e ↦ rw e refl ])

pub named-All :
    (P : Entry → Type 0) (name : Bytes) (es : List Entry) → All P es → All P (named name es)
unfolding named
named-All P name [] h = tt
named-All P name (e ∷ es) (he, h) = elim (Bool-cases (eq_bytes e.0.name name)) [
  | inl q ↦ rw q (he, named-All P name es h)
  | inr q ↦ rw q (named-All P name es h)
]

pub length-named : (name : Bytes) (es : List Entry) → length (named name es) ≤ length es
unfolding named
length-named name [] = omega arith
length-named name (e ∷ es) = elim (Bool-cases (eq_bytes e.0.name name)) [
  | inl q ↦ rw q (omega (arith, length-named name es))
  | inr q ↦ rw q (omega (arith, length-named name es))
]
